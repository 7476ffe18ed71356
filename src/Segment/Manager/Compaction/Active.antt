-- ===== src/Segment/Manager/Compaction/Active.antt =====
-- The segment that `GetActiveSegment` returns (parakv/core/segment/segment_manager.cc).
use para_kv.Prelude.{
  ℕ, ◌≤◌, ◌≡◌, refl, ap, inl, inr, false, Option, none, some, List, [], ◌∷◌, arith, ltb, ◌==◌,
  Bool-cases,
}
use para_kv.Prelude.Sets.{count, count-erase_id, count-insert_id}
use para_kv.Segment.Manager.{
  SegmentManager, mark_segment_full, promote_from, promote_idle_segment, active_loop, free_slots_of,
}
use para_kv.Segment.Manager.Partition.{IsPartition, mark_segment_full-IsPartition}

mark_segment_full-full :
    (m : SegmentManager) (id x : ℕ)
    → count x m.full_set ≤ count x (mark_segment_full m id).1.full_set
unfolding mark_segment_full
mark_segment_full-full m id x = ground (arith, count-insert_id x id m.full_set)

mark_segment_full-appending :
    (m : SegmentManager) (id x : ℕ)
    → (x == id) ≡ false
    → count x m.appending_set ≤ count x (mark_segment_full m id).1.appending_set
unfolding mark_segment_full
mark_segment_full-appending m id x other =
    ground (arith, count-erase_id x id m.appending_set, other)

promote_from-full : (m : SegmentManager) (l : List ℕ) → (promote_from m l).1.full_set ≡ m.full_set
promote_from-full m [] = refl
promote_from-full m (id ∷ l) = refl

promote_from-active :
    (m : SegmentManager) (l : List ℕ) (id : ℕ)
    → (promote_from m l).0 ≡ some id
    → 1 ≤ count id (promote_from m l).1.appending_set
promote_from-active m [] id h = absurd (none_is_not_some h)
  where
    none_is_not_some : ◌≡◌ {A = Option ℕ} none (some id) → ⊥
    none_is_not_some e = cc
promote_from-active m (i ∷ l) id h = ground (arith, count-insert_id id i m.appending_set, same h)
  where
    same : ◌≡◌ {A = Option ℕ} (some i) (some id) → i ≡ id
    same e = cc

pub active_loop-full :
    (l : List ℕ) (m : SegmentManager) (x : ℕ)
    → count x m.full_set ≤ count x (active_loop l m).1.full_set
unfolding active_loop promote_idle_segment
active_loop-full [] m x = omega (arith, ap (count x) (promote_from-full m m.idle_set))
active_loop-full (id ∷ others) m x = elim (Bool-cases (ltb 0 (free_slots_of m id))) [
  | inl free ↦ simp free (omega arith)
  | inr none_free ↦ simp none_free (
      omega (
        arith,
        mark_segment_full-full m id x,
        active_loop-full others (mark_segment_full m id).1 x,
      ))
]

-- The segment that is returned is in the appending set.
pub active_loop-active :
    (l : List ℕ) (m : SegmentManager) (id : ℕ)
    → IsPartition m
    → ((x : ℕ) → count x l ≤ count x m.appending_set)
    → (active_loop l m).0 ≡ some id
    → 1 ≤ count id (active_loop l m).1.appending_set
unfolding active_loop promote_idle_segment
active_loop-active [] m id p walked h = promote_from-active m m.idle_set id h
active_loop-active (i ∷ others) m id p walked h = elim (Bool-cases (ltb 0 (free_slots_of m i))) [
  | inl free ↦ simp free (ground (arith, walked i, same (simp free at h)))
  | inr none_free ↦ simp none_free (
      active_loop-active others (mark_segment_full m i).1 id (mark_segment_full-IsPartition m i p)
        still (simp none_free at h))
]
  where
    same : ◌≡◌ {A = Option ℕ} (some i) (some id) → i ≡ id
    same e = cc

    still : (x : ℕ) → count x others ≤ count x (mark_segment_full m i).1.appending_set
    still x = elim (Bool-cases (x == i)) [
      | inl e ↦ ground (arith, walked x, (p x).one_set, (p x).once, e)
      | inr e ↦ ground (arith, walked x, mark_segment_full-appending m i x e, e)
    ]
