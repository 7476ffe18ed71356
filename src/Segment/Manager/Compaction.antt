-- ===== src/Segment/Manager/Compaction.antt =====
-- `RunCompaction` of `SegmentManager` (parakv/core/segment/segment_manager.cc). Whether a share of
-- deleted slots reaches the threshold, a comparison of `float`s, is a parameter. The calls of the
-- callback for moved slots are returned in their order.
pub mod Active
pub mod Keeps
use para_kv.Prelude.{
  ℕ, Bool, true, false, not, Option, none, some, List, [], ◌∷◌, ◌++◌, ◌==◌, if◌then◌else◌,
}
use para_kv.Prelude.Sets.{count, insert_id, erase_id}
use para_kv.Status.{Status, ok, no_space}
use para_kv.Segment.Base.{Segment, SegmentState, idle, appending, full, needs_compaction}
use para_kv.Segment.File.Batch.{Move, Compacting, compact}
use para_kv.Segment.Manager.{SegmentManager, get_segment, get_active_segment, with_segment}

-- The test of the first loop; the full set holds no id that `segments_` lacks.
abbrev pub is_candidate : (ℕ → ℕ → Bool) → SegmentManager → ℕ → Option Segment → Bool
is_candidate reaches m id none = false
is_candidate reaches m id (some s) =
    if not (count id m.hot_segments == 0) then false else needs_compaction reaches s

abbrev pub candidates : (ℕ → ℕ → Bool) → SegmentManager → List ℕ → List ℕ
candidates reaches m [] = []
candidates reaches m (id ∷ others) =
    let rest = candidates reaches m others in
    if is_candidate reaches m id (get_segment m.segments id) then id ∷ rest else rest

-- The sets after a compaction that succeeded: the source is idle.
abbrev pub source_idle : ℕ → SegmentManager → SegmentManager
source_idle src_id m = record m {
  full_set = erase_id src_id m.full_set;
  full_order = erase_id src_id m.full_order;
  idle_set = insert_id src_id m.idle_set;
}

-- The target is moved to the full set where it is full.
abbrev pub target_full : ℕ → SegmentState → SegmentManager → SegmentManager
target_full target_id full m = record m {
  appending_set = erase_id target_id m.appending_set;
  full_set = insert_id target_id m.full_set;
  full_order = m.full_order ++ target_id ∷ [];
}
target_full target_id _ m = m

abbrev pub settled :
    ℕ → ℕ → Compacting → SegmentManager → Status → Status × List Move × SegmentManager
settled src_id target_id c m ok =
    (ok, c.moves, target_full target_id c.target.state (source_idle src_id m))
settled src_id target_id c m e = (e, c.moves, m)

-- One candidate, with the segments behind its id and behind the active one's.
abbrev pub compact_into :
    ℕ → ℕ → SegmentManager → Option Segment → Option Segment → Status × List Move × SegmentManager
compact_into src_id target_id m none target = (ok, [], m)
compact_into src_id target_id m (some src) none = (no_space, [], m)
compact_into src_id target_id m (some src) (some target) =
    let c = compact src target in
    settled src_id target_id c (with_segment (with_segment m c.source) c.target) c.status

abbrev pub after_one :
    (SegmentManager → Status × List Move × SegmentManager)
    → Status × List Move × SegmentManager
    → Status × List Move × SegmentManager
after_one rest (ok, moves, m) = let (e, more, n) = rest m in (e, moves ++ more, n)
after_one rest (e, moves, m) = (e, moves, m)

abbrev pub with_active :
    (SegmentManager → Status × List Move × SegmentManager)
    → ℕ
    → Option ℕ × SegmentManager
    → Status × List Move × SegmentManager
with_active rest src_id (none, m) = (no_space, [], m)
with_active rest src_id (some target_id, m) = after_one rest (
    compact_into src_id target_id m (get_segment m.segments src_id)
      (get_segment m.segments target_id))

abbrev pub compaction_loop : List ℕ → SegmentManager → Status × List Move × SegmentManager
compaction_loop [] m = (ok, [], m)
compaction_loop (src_id ∷ others) m =
    with_active (compaction_loop others) src_id (get_active_segment m)

unfoldable pub run_compaction :
    (ℕ → ℕ → Bool) → SegmentManager → Status × List Move × SegmentManager
run_compaction reaches m = compaction_loop (candidates reaches m m.full_set) m
