-- ===== src/Segment/Manager/Partition.antt =====
-- The sets of the segment manager partition its segments
-- (parakv/core/segment/segment_manager.cc).
use para_kv.Prelude.{
  ℕ, ◌+◌, ◌≤◌, ◌≡◌, refl, ap, inl, inr, Option, none, some, List, [], ◌∷◌, arith, ltb, ◌==◌,
  Bool-cases,
}
use para_kv.Prelude.Sets.{count, count-erase_id, count-insert_id, count-append}
use para_kv.Segment.Base.{Segment, SegmentState, idle, appending, full}
use para_kv.Segment.Manager.{
  SegmentManager, ids, classify, add_segment, mark_segment_full, release_segment, promote_from,
  promote_idle_segment, active_loop, get_active_segment, free_slots_of,
}

-- Each segment is in exactly one of the three sets, once, and the order of the full segments
-- lists exactly the full segments.
pub record Splits (x : ℕ) (m : SegmentManager) : Type 0 where
  pub one_set :
      count x m.idle_set + (count x m.appending_set + count x m.full_set) ≡ count x (ids m.segments)
  pub once : count x (ids m.segments) ≤ 1
  pub ordered : count x m.full_order ≡ count x m.full_set

abbrev pub IsPartition : SegmentManager → Type 0
IsPartition m = (x : ℕ) → Splits x m

classify-IsPartition :
    (s : Segment) (m : SegmentManager)
    → count s.segment_id (ids m.segments) ≡ 0
    → IsPartition m
    → (st : SegmentState)
    → IsPartition (classify st s.segment_id (record m { segments = s ∷ m.segments }))
unfolding classify
classify-IsPartition s m new p idle x =
    let v = p x in
    let k = count-insert_id x s.segment_id m.idle_set in
    record {
      one_set = ground (arith, k, v.one_set, new);
      once = ground (arith, v.once, new);
      ordered = v.ordered;
    }
classify-IsPartition s m new p appending x =
    let v = p x in
    let k = count-insert_id x s.segment_id m.appending_set in
    record {
      one_set = ground (arith, k, v.one_set, new);
      once = ground (arith, v.once, new);
      ordered = v.ordered;
    }
classify-IsPartition s m new p full x =
    let v = p x in
    let k = count-insert_id x s.segment_id m.full_set in
    record {
      one_set = ground (arith, k, v.one_set, new);
      once = ground (arith, v.once, new);
      ordered =
          ground
            (arith, k, v.ordered, v.one_set, new, count-append x m.full_order (s.segment_id ∷ []));
    }

-- Adding a segment, or a null pointer, keeps the partition.
pub add_segment-IsPartition :
    (m : SegmentManager) (s : Option Segment) → IsPartition m → IsPartition (add_segment m s).1
unfolding add_segment
add_segment-IsPartition m none p = p
add_segment-IsPartition m (some s) p =
    elim (Bool-cases (count s.segment_id (ids m.segments) == 0)) [
      | inl new ↦ simp new (classify-IsPartition s m (ground (arith, new)) p s.state)
      | inr known ↦ simp known p
    ]

pub mark_segment_full-IsPartition :
    (m : SegmentManager) (id : ℕ) → IsPartition m → IsPartition (mark_segment_full m id).1
unfolding mark_segment_full
mark_segment_full-IsPartition m id p = elim (Bool-cases (count id (ids m.segments) == 0)) [
  | inl missing ↦ simp missing p
  | inr known ↦ elim (Bool-cases (count id m.full_set == 0)) [
    | inr already ↦ simp (known, already) p
    | inl other ↦
        simp (known, other)
          (λ x.
            let v = p x in
            let a = count-erase_id x id m.appending_set in
            let i = count-erase_id x id m.idle_set in
            let f = count-insert_id x id m.full_set in
            record {
              one_set = ground (arith, a, i, f, v.one_set, v.once, known, other);
              once = v.once;
              ordered = ground (arith, f, v.ordered, other, count-append x m.full_order (id ∷ []));
            })
  ]
]

pub release_segment-IsPartition :
    (m : SegmentManager) (id : ℕ) → IsPartition m → IsPartition (release_segment m id).1
unfolding release_segment
release_segment-IsPartition m id p = elim (Bool-cases (count id (ids m.segments) == 0)) [
  | inl missing ↦ simp missing p
  | inr known ↦ simp known (λ x.
      let v = p x in
      let a = count-erase_id x id m.appending_set in
      let f = count-erase_id x id m.full_set in
      let o = count-erase_id x id m.full_order in
      let i = count-insert_id x id m.idle_set in
      record {
        one_set = ground (arith, a, i, f, v.one_set, v.once, known);
        once = v.once;
        ordered = ground (arith, f, o, v.ordered);
      })
]

promote_from-IsPartition :
    (m : SegmentManager) (l : List ℕ)
    → m.idle_set ≡ l
    → IsPartition m
    → IsPartition (promote_from m l).1
promote_from-IsPartition m [] e p x = p x
promote_from-IsPartition m (id ∷ others) e p x =
    let v = p x in
    let i = count-erase_id x id m.idle_set in
    let a = count-insert_id x id m.appending_set in
    let c : count x m.idle_set ≡ count x (id ∷ others) = ap (count x) e in
    record {
      one_set = ground (arith, a, i, c, v.one_set, v.once);
      once = v.once;
      ordered = v.ordered;
    }

pub promote_idle_segment-IsPartition :
    (m : SegmentManager) → IsPartition m → IsPartition (promote_idle_segment m).1
unfolding promote_idle_segment
promote_idle_segment-IsPartition m p = promote_from-IsPartition m m.idle_set refl p

pub active_loop-IsPartition :
    (l : List ℕ) (m : SegmentManager) → IsPartition m → IsPartition (active_loop l m).1
unfolding active_loop
active_loop-IsPartition [] m p = promote_idle_segment-IsPartition m p
active_loop-IsPartition (id ∷ others) m p = elim (Bool-cases (ltb 0 (free_slots_of m id))) [
  | inl free ↦ simp free p
  | inr none_free ↦ simp none_free (
      active_loop-IsPartition others (mark_segment_full m id).1
        (mark_segment_full-IsPartition m id p))
]

-- The operations on the sets, as steps.
pub data Step : SegmentManager → SegmentManager → Type 0 where
  adds : (m : SegmentManager) (s : Option Segment) → Step m (add_segment m s).1
  fills : (m : SegmentManager) (id : ℕ) → Step m (mark_segment_full m id).1
  releases : (m : SegmentManager) (id : ℕ) → Step m (release_segment m id).1
  activates : (m : SegmentManager) → Step m (get_active_segment m).1

pub data Steps : SegmentManager → SegmentManager → Type 0 where
  start : (m : SegmentManager) → Steps m m
  then_step : (m n o : SegmentManager) → Steps m n → Step n o → Steps m o

Step-IsPartition : (m n : SegmentManager) → Step m n → IsPartition m → IsPartition n
unfolding get_active_segment
Step-IsPartition _ _ (adds m s) p = add_segment-IsPartition m s p
Step-IsPartition _ _ (fills m id) p = mark_segment_full-IsPartition m id p
Step-IsPartition _ _ (releases m id) p = release_segment-IsPartition m id p
Step-IsPartition _ _ (activates m) p = active_loop-IsPartition m.appending_set m p

-- Whatever is added, marked full, released and asked for, in whatever order: from a manager whose
-- three sets partition its segments and whose order lists the full ones, such a manager results.
pub Steps-IsPartition : (m n : SegmentManager) → Steps m n → IsPartition m → IsPartition n
Steps-IsPartition _ _ (start m) p = p
Steps-IsPartition _ _ (then_step m n o before last) p =
    Step-IsPartition n o last (Steps-IsPartition m n before p)
