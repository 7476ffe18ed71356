-- ===== src/Segment/Manager.antt =====
-- `SegmentManager` (parakv/core/segment/segment_manager.h, parakv/core/segment/segment_manager.cc).
-- A pointer to a segment is its id: the segment stands in `segments`. The sets are walked
-- through in the order of their lists. `GetActiveSegment` erases from a set that it walks
-- through; the model walks through the set as it was.
pub mod Partition
pub mod Pairs
pub mod State
pub mod Heat
pub mod Compaction
use para_kv.Prelude.{
  ℕ, zero, suc, ◌+◌, ◌%◌, ◌^◌, ◌≡◌, Bool, true, false, not, ◌&&◌, Option, none, some, List, [], ◌∷◌,
  ◌++◌, ltb, leb, ◌==◌, if◌then◌else◌,
}
use para_kv.Prelude.Sets.{count, insert_id, erase_id}
use para_kv.Status.{Status, ok, invalid_argument, not_found}
use para_kv.Segment.Base.{Segment, SegmentState, idle, appending, full, get_free_slots}

pub record SegmentManager : Type 0 where
  pub segments : List Segment
  pub idle_set : List ℕ
  pub appending_set : List ℕ
  pub full_set : List ℕ
  pub full_order : List ℕ
  pub access_counters : List (ℕ × ℕ)
  pub hot_segments : List ℕ

-- The keys of `segments_`.
abbrev pub ids : List Segment → List ℕ
ids [] = []
ids (s ∷ ss) = s.segment_id ∷ ids ss

abbrev pub get_segment : List Segment → ℕ → Option Segment
get_segment [] id = none
get_segment (s ∷ ss) id =
    let rest = get_segment ss id in if id == s.segment_id then some s else rest

-- What a call on a segment leaves in the manager.
abbrev pub put_back : List Segment → Segment → List Segment
put_back [] s = []
put_back (t ∷ ts) s =
    let rest = put_back ts s in if t.segment_id == s.segment_id then s ∷ ts else t ∷ rest

abbrev pub with_segment : SegmentManager → Segment → SegmentManager
with_segment m s = record m { segments = put_back m.segments s }

-- The switch with which `AddSegment` ends, which `LoadState` repeats.
unfoldable pub classify : SegmentState → ℕ → SegmentManager → SegmentManager
classify idle id m = record m { idle_set = insert_id id m.idle_set }
classify appending id m = record m { appending_set = insert_id id m.appending_set }
classify full id m = record m {
  full_set = insert_id id m.full_set;
  full_order = m.full_order ++ id ∷ [];
}

unfoldable pub add_segment : SegmentManager → Option Segment → Status × SegmentManager
unfolding classify
add_segment m none = (invalid_argument, m)
add_segment m (some s) =
    if not (count s.segment_id (ids m.segments) == 0)
    then (invalid_argument, m)
    else (ok, classify s.state s.segment_id (record m { segments = s ∷ m.segments }))

unfoldable pub mark_segment_full : SegmentManager → ℕ → Status × SegmentManager
mark_segment_full m id =
    if count id (ids m.segments) == 0
    then (not_found, m)
    else if not (count id m.full_set == 0)
    then (ok, m)
    else (
      ok,
      record m {
        appending_set = erase_id id m.appending_set;
        idle_set = erase_id id m.idle_set;
        full_set = insert_id id m.full_set;
        full_order = m.full_order ++ id ∷ [];
      },
    )

-- A map's `erase`.
abbrev erase_key : ℕ → List (ℕ × ℕ) → List (ℕ × ℕ)
erase_key x [] = []
erase_key x ((k, v) ∷ m) = let rest = erase_key x m in if x == k then rest else (k, v) ∷ rest

unfoldable pub release_segment : SegmentManager → ℕ → Status × SegmentManager
release_segment m id = if count id (ids m.segments) == 0 then (not_found, m) else (
  ok,
  record m {
    appending_set = erase_id id m.appending_set;
    full_set = erase_id id m.full_set;
    full_order = erase_id id m.full_order;
    hot_segments = erase_id id m.hot_segments;
    access_counters = erase_key id m.access_counters;
    idle_set = insert_id id m.idle_set;
  },
)

abbrev promote_from : SegmentManager → List ℕ → Option ℕ × SegmentManager
promote_from m [] = (none, m)
promote_from m (id ∷ others) = (
  some id,
  record m { idle_set = erase_id id m.idle_set; appending_set = insert_id id m.appending_set },
)

unfoldable pub promote_idle_segment : SegmentManager → Option ℕ × SegmentManager
promote_idle_segment m = promote_from m m.idle_set

-- `segments_[id]->GetFreeSlots()`: the appending set holds no id that `segments_` lacks.
abbrev pub free_slots_of : SegmentManager → ℕ → ℕ
free_slots_of m id = elim (get_segment m.segments id) [ none ↦ 0 | some s ↦ get_free_slots s ]

unfoldable pub active_loop : List ℕ → SegmentManager → Option ℕ × SegmentManager
unfolding mark_segment_full promote_idle_segment
active_loop [] m = promote_idle_segment m
active_loop (id ∷ others) m =
    let rest = active_loop others (mark_segment_full m id).1 in
    if ltb 0 (free_slots_of m id) then (some id, m) else rest

unfoldable pub get_active_segment : SegmentManager → Option ℕ × SegmentManager
unfolding active_loop
get_active_segment m = active_loop m.appending_set m

-- `RecordAccess`: `access_counters_[segment_id]++` on a `uint64_t`.
abbrev bump : ℕ → List (ℕ × ℕ) → List (ℕ × ℕ)
bump x [] = (x, 1) ∷ []
bump x ((k, v) ∷ m) =
    let rest = bump x m in if x == k then (k, (v + 1) % 2 ^ 64) ∷ m else (k, v) ∷ rest

unfoldable pub record_access : SegmentManager → ℕ → SegmentManager
record_access m id = record m { access_counters = bump id m.access_counters }

-- `IsHotSegment`.
unfoldable pub is_hot_segment : SegmentManager → ℕ → Bool
is_hot_segment m id = ltb 0 (count id m.hot_segments)
