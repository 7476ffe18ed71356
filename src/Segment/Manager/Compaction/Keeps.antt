-- ===== src/Segment/Manager/Compaction/Keeps.antt =====
-- `RunCompaction` keeps the partition of the segments (parakv/core/segment/segment_manager.cc).
use mathlib.Core.Path.{◌∙◌, sym}
use para_kv.Prelude.{
  ℕ, ◌≤◌, ◌≡◌, refl, ap, inl, inr, Bool, Option, none, some, List, [], ◌∷◌, arith, ◌==◌, ==_iff,
  Bool-cases,
}
use para_kv.Prelude.Sets.{count, count-erase_id, count-insert_id, count-append}
use para_kv.Status.{Status, ok}
use para_kv.Segment.Base.{Segment, SegmentState, idle, appending, full}
use para_kv.Segment.File.Batch.{Move, Compacting, compact}
use para_kv.Segment.Manager.{
  SegmentManager, ids, get_segment, put_back, with_segment, active_loop, get_active_segment,
}
use para_kv.Segment.Manager.Partition.{IsPartition, active_loop-IsPartition}
use para_kv.Segment.Manager.Compaction.Active.{active_loop-full, active_loop-active}
use para_kv.Segment.Manager.Compaction.{
  candidates, source_idle, target_full, settled, compact_into, after_one, with_active,
  compaction_loop, run_compaction,
}

ids-put_back : (ss : List Segment) (s : Segment) → ids (put_back ss s) ≡ ids ss
ids-put_back [] s = refl
ids-put_back (t ∷ ss) s = elim (Bool-cases (t.segment_id == s.segment_id)) [
  | inl e ↦ simp (e) (λ i. (sym ((==_iff t.segment_id s.segment_id).0 e)) i ∷ ids ss)
  | inr e ↦ simp (e) (λ i. t.segment_id ∷ ids-put_back ss s i)
]

with_segment-IsPartition :
    (m : SegmentManager) (s : Segment) → IsPartition m → IsPartition (with_segment m s)
with_segment-IsPartition m s p x =
    let v = p x in
    let same : count x (ids (put_back m.segments s)) ≡ count x (ids m.segments) =
      ap (count x) (ids-put_back m.segments s) in
    record {
      one_set = v.one_set ∙ sym same;
      once = ground (arith, same, v.once);
      ordered = v.ordered;
    }

-- A full source becomes idle and an appending target full.
source_idle-IsPartition :
    (src_id : ℕ) (m : SegmentManager)
    → 1 ≤ count src_id m.full_set
    → IsPartition m
    → IsPartition (source_idle src_id m)
source_idle-IsPartition src_id m is_full p x =
    let v = p x in
    let f = count-erase_id x src_id m.full_set in
    let o = count-erase_id x src_id m.full_order in
    let i = count-insert_id x src_id m.idle_set in
    record {
      one_set = ground (arith, f, i, v.one_set, v.once, is_full);
      once = v.once;
      ordered = ground (arith, f, o, v.ordered);
    }

target_full-IsPartition :
    (target_id : ℕ) (st : SegmentState) (m : SegmentManager)
    → 1 ≤ count target_id m.appending_set
    → IsPartition m
    → IsPartition (target_full target_id st m)
target_full-IsPartition target_id idle m is_active p = p
target_full-IsPartition target_id appending m is_active p = p
target_full-IsPartition target_id full m is_active p = λ x.
    let v = p x in
    let a = count-erase_id x target_id m.appending_set in
    let f = count-insert_id x target_id m.full_set in
    record {
      one_set = ground (arith, a, f, v.one_set, v.once, is_active);
      once = v.once;
      ordered = ground (
        arith,
        f,
        v.ordered,
        v.one_set,
        v.once,
        is_active,
        count-append x m.full_order (target_id ∷ []),
      );
    }

-- The candidates that are left are full.
abbrev AreFull : List ℕ → SegmentManager → Type 0
AreFull l m = (x : ℕ) → count x l ≤ count x m.full_set

target_full-full :
    (target_id : ℕ) (st : SegmentState) (m : SegmentManager) (x : ℕ)
    → count x m.full_set ≤ count x (target_full target_id st m).full_set
target_full-full target_id idle m x = omega arith
target_full-full target_id appending m x = omega arith
target_full-full target_id full m x = ground (arith, count-insert_id x target_id m.full_set)

-- What a step of the loop keeps.
abbrev Kept : List ℕ → SegmentManager → Type 0
Kept others m = IsPartition m × AreFull others m

settled-Kept :
    (src_id target_id : ℕ) (others : List ℕ) (c : Compacting) (m : SegmentManager) (status : Status)
    → IsPartition m
    → AreFull (src_id ∷ others) m
    → 1 ≤ count target_id m.appending_set
    → Kept others (settled src_id target_id c m status).2
settled-Kept src_id target_id others c m ok p full_ids is_active = (
  target_full-IsPartition target_id c.target.state (source_idle src_id m) is_active
      (source_idle-IsPartition src_id m (ground (arith, full_ids src_id)) p),
  λ x.
      let f = count-erase_id x src_id m.full_set in
      let t = target_full-full target_id c.target.state (source_idle src_id m) x in
      ground (arith, f, t, full_ids x, (p x).one_set, (p x).once),
)
settled-Kept src_id target_id others c m e p full_ids is_active =
    (p, λ x. ground (arith, full_ids x))

compact_into-Kept :
    (src_id target_id : ℕ) (others : List ℕ) (m : SegmentManager) (src target : Option Segment)
    → IsPartition m
    → AreFull (src_id ∷ others) m
    → 1 ≤ count target_id m.appending_set
    → Kept others (compact_into src_id target_id m src target).2
compact_into-Kept src_id target_id others m none target p full_ids is_active =
    (p, λ x. ground (arith, full_ids x))
compact_into-Kept src_id target_id others m (some src) none p full_ids is_active =
    (p, λ x. ground (arith, full_ids x))
compact_into-Kept src_id target_id others m (some src) (some target) p full_ids is_active =
    let c = compact src target in
    settled-Kept src_id target_id others c (with_segment (with_segment m c.source) c.target)
      c.status
      (with_segment-IsPartition (with_segment m c.source) c.target
        (with_segment-IsPartition m c.source p))
      full_ids is_active

after_one-IsPartition :
    (rest : SegmentManager → Status × List Move × SegmentManager) (others : List ℕ)
    (r : Status × List Move × SegmentManager)
    → ((n : SegmentManager) → Kept others n → IsPartition (rest n).2)
    → Kept others r.2
    → IsPartition (after_one rest r).2
after_one-IsPartition rest others (ok, moves, m) h kept = h m kept
after_one-IsPartition rest others (e, moves, m) h kept = kept.0

with_active-IsPartition :
    (rest : SegmentManager → Status × List Move × SegmentManager) (src_id : ℕ) (others : List ℕ)
    (r : Option ℕ × SegmentManager)
    → ((n : SegmentManager) → Kept others n → IsPartition (rest n).2)
    → IsPartition r.1
    → AreFull (src_id ∷ others) r.1
    → ((id : ℕ) → r.0 ≡ some id → 1 ≤ count id r.1.appending_set)
    → IsPartition (with_active rest src_id r).2
with_active-IsPartition rest src_id others (none, m) h p full_ids active = p
with_active-IsPartition rest src_id others (some target_id, m) h p full_ids active =
    let src = get_segment m.segments src_id in
    let target = get_segment m.segments target_id in
    after_one-IsPartition rest others (compact_into src_id target_id m src target) h
      (compact_into-Kept src_id target_id others m src target p full_ids (active target_id refl))

compaction_loop-IsPartition :
    (l : List ℕ) (m : SegmentManager) → Kept l m → IsPartition (compaction_loop l m).2
unfolding get_active_segment
compaction_loop-IsPartition [] m kept = kept.0
compaction_loop-IsPartition (src_id ∷ others) m kept =
    with_active-IsPartition (compaction_loop others) src_id others (active_loop m.appending_set m)
      (compaction_loop-IsPartition others) (active_loop-IsPartition m.appending_set m kept.0)
      (λ x. omega (arith, kept.1 x, active_loop-full m.appending_set m x))
      (λ id h. active_loop-active m.appending_set m id kept.0 (λ x. omega arith) h)

candidates-AreFull :
    (reaches : ℕ → ℕ → Bool) (m : SegmentManager) (l : List ℕ) (x : ℕ)
    → count x (candidates reaches m l) ≤ count x l
candidates-AreFull reaches m [] x = omega arith
candidates-AreFull reaches m (id ∷ l) x = ground (arith, candidates-AreFull reaches m l x)

-- Compacting keeps each segment in exactly one of the three sets and the order of the full ones,
-- whatever the compactions of the candidates answer and wherever the loop stops.
pub run_compaction-IsPartition :
    (reaches : ℕ → ℕ → Bool) (m : SegmentManager)
    → IsPartition m
    → IsPartition (run_compaction reaches m).2
unfolding run_compaction
run_compaction-IsPartition reaches m p =
    compaction_loop-IsPartition (candidates reaches m m.full_set) m
      (p, candidates-AreFull reaches m m.full_set)
