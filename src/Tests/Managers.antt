-- ===== src/Tests/Managers.antt =====
-- Runs of the evaluation of hot segments and of keys (parakv/core/segment, parakv/core/index).
use para_kv.Prelude.{ℕ, ◌+◌, leb, ◌≡◌, ◌-◌, ◌^◌, Bool, some, List, [], ◌∷◌, refl, arith}
use para_kv.Status.{ok}
use para_kv.Segment.Manager.{SegmentManager}
use para_kv.Segment.Base.{Segment, full, create, needs_compaction}
use para_kv.Segment.File.Batch.{compact, compact_loop}
use para_kv.Segment.File.{flush_bitmap}
use para_kv.Segment.Base.{reset_bitmap}
use para_kv.Segment.Bitmap.{is_slot_occupied}
use para_kv.Io.{pwrite_all}
use para_kv.Segment.Manager.{get_active_segment, active_loop, promote_idle_segment}
use para_kv.Segment.Manager.Partition.{IsPartition}
use para_kv.Segment.Manager.Compaction.{run_compaction}
use para_kv.Segment.Manager.Compaction.Keeps.{run_compaction-IsPartition}
use para_kv.Tests.Segments.{opened}
use para_kv.Segment.Manager.Heat.{evaluate_hot_cold, trim}
use para_kv.Segment.Manager.Heat.Bounds.{AreCounters, Evaluated, evaluate_hot_cold-Evaluated}
use para_kv.Index.Key.{Key128}

-- Three segments were hot, of which one was not read again; another is read often.
abbrev counted : SegmentManager
counted = record {
  segments = [];
  idle_set = [];
  appending_set = [];
  full_set = [];
  full_order = [];
  access_counters = (1, 9) ∷ (2, 7) ∷ (4, 8) ∷ [];
  hot_segments = 1 ∷ 2 ∷ 3 ∷ [];
}

counted-AreCounters : AreCounters counted.access_counters
counted-AreCounters x = ground arith

evaluate_hot_cold-Evaluated_example : Evaluated 5 1 counted (evaluate_hot_cold counted 5 1)
evaluate_hot_cold-Evaluated_example = evaluate_hot_cold-Evaluated counted 5 1 counted-AreCounters

-- The hot segment with the fewest accesses is given up.
hottest :
    evaluate_hot_cold counted 5 1
    ≡ some (ok, record counted { hot_segments = 1 ∷ []; access_counters = [] })
unfolding evaluate_hot_cold trim
hottest = refl

-- While the set is full of segments that are about to leave it, none joins, and the counters are
-- cleared.
not_promoted :
    evaluate_hot_cold counted 8 3
    ≡ some (ok, record counted { hot_segments = 1 ∷ []; access_counters = [] })
unfolding evaluate_hot_cold trim
not_promoted = refl

abbrev small_key : Key128
small_key = record { hi = 1; lo = 2 ^ 64 - 1 }

abbrev large_key : Key128
large_key = record { hi = 2; lo = 0 }

-- A full segment whose slots are all deleted, and an idle one.
abbrev used_up : Segment
used_up = record opened { segment_id = 5; state = full; append_cursor = 4; deleted_slots = 4 }

abbrev unused : Segment
unused = record opened { segment_id = 7 }

abbrev two_segments : SegmentManager
two_segments = record {
  segments = used_up ∷ unused ∷ [];
  idle_set = 7 ∷ [];
  appending_set = [];
  full_set = 5 ∷ [];
  full_order = 5 ∷ [];
  access_counters = [];
  hot_segments = [];
}

two_segments-IsPartition : IsPartition two_segments
two_segments-IsPartition x = record { one_set = ground arith; once = ground arith; ordered = refl }

abbrev at_least_half : ℕ → ℕ → Bool
at_least_half deleted cursor = leb cursor (deleted + deleted)

run_compaction-IsPartition_example : IsPartition (run_compaction at_least_half two_segments).2
run_compaction-IsPartition_example =
    run_compaction-IsPartition at_least_half two_segments two_segments-IsPartition

-- The compacted segment becomes idle, and the idle one, which it was compacted into, appending.
compacted :
    let m = (run_compaction at_least_half two_segments).2 in
    ◌≡◌ {A = List ℕ × List ℕ × List ℕ}
      (m.idle_set, m.appending_set, m.full_set)
      (5 ∷ [], 7 ∷ [], [])
unfolding run_compaction needs_compaction get_active_segment active_loop promote_idle_segment
    compact compact_loop create reset_bitmap flush_bitmap pwrite_all is_slot_occupied
compacted = refl
