-- ===== src/Segment/Manager/Pairs.antt =====
-- The pairs that encoded offsets name in a manager's segments
-- (parakv/core/segment/segment_manager.cc, parakv/core/index/offset.h).
use mathlib.Core.Path.{subst}
use para_kv.Prelude.{
  ℕ, ◌≡◌, refl, sym, ap, ◌∙◌, inl, inr, false, some, List, [], ◌∷◌, arith, ◌==◌, ==_iff,
  if◌then◌else◌, Bool-cases,
}
use para_kv.Prelude.Bytes.{Bytes}
use para_kv.Index.Offset.{get_segment_id, get_slot_id}
use para_kv.Segment.Base.{Segment}
use para_kv.Segment.File.Stored.{IsStored}
use para_kv.Segment.File.Kept.{IsUsable}
use para_kv.Segment.Manager.{
  SegmentManager, get_segment, put_back, mark_segment_full, promote_idle_segment, promote_from,
  active_loop, get_active_segment,
}

pub get_segment-id :
    (ss : List Segment) (id : ℕ) (s : Segment) → get_segment ss id ≡ some s → s.segment_id ≡ id
get_segment-id [] id s e = cc
get_segment-id (t ∷ ss) id s e = elim (Bool-cases (id == t.segment_id)) [
  | inl here ↦
      let same : t ≡ s = injected t s (simp here at e) in
      ap (λ (u : Segment). u.segment_id) (sym same) ∙ sym ((==_iff _ _).0 here)
  | inr there ↦ get_segment-id ss id s (simp there at e)
]
  where
    injected : (a b : Segment) → some a ≡ some b → a ≡ b
    injected a b h = cc

-- Putting a segment back replaces it, and no other.
pub get_segment-put_back :
    (ss : List Segment) (t s : Segment)
    → get_segment ss t.segment_id ≡ some s
    → get_segment (put_back ss t) t.segment_id ≡ some t
get_segment-put_back [] t s e = cc
get_segment-put_back (u ∷ ss) t s e = elim (Bool-cases (u.segment_id == t.segment_id)) [
  | inl here ↦ let self = (==_iff t.segment_id t.segment_id).1 refl in simp (here, self) refl
  | inr there ↦
      let there' : (t.segment_id == u.segment_id) ≡ false = ground (arith, there) in
      simp (there, there') (get_segment-put_back ss t s (simp there' at e))
]

pub get_segment-put_back_other :
    (ss : List Segment) (t : Segment) (id : ℕ)
    → (id == t.segment_id) ≡ false
    → get_segment (put_back ss t) id ≡ get_segment ss id
get_segment-put_back_other [] t id e = refl
get_segment-put_back_other (u ∷ ss) t id e = elim (Bool-cases (u.segment_id == t.segment_id)) [
  | inl here ↦
      let e' : (id == u.segment_id) ≡ false = ground (arith, here, e) in simp here (rw (e, e') refl)
  | inr there ↦ simp there (λ i.
      let rest = get_segment-put_back_other ss t id e i in
      if id == u.segment_id then some u else rest)
]

-- An encoded offset names a slot that holds this pair.
abbrev pub Holds : List Segment → ℕ → Bytes → Bytes → Type 0
Holds ss enc key value =
    (s : Segment) × (get_segment ss (get_segment_id enc) ≡ some s)
    × IsStored s (get_slot_id enc) key value

abbrev pub AllUsable : ℕ → ℕ → List Segment → Type 0
AllUsable k v ss = (id : ℕ) (s : Segment) → get_segment ss id ≡ some s → IsUsable k v s

-- Two encoded offsets name one slot.
abbrev pub SameSlot : ℕ → ℕ → Type 0
SameSlot a b = (get_segment_id a ≡ get_segment_id b) × (get_slot_id a ≡ get_slot_id b)

-- What `GetActiveSegment` does to the sets, it does to no segment.
pub mark_segment_full-segments :
    (m : SegmentManager) (id : ℕ) → (mark_segment_full m id).1.segments ≡ m.segments
unfolding mark_segment_full
mark_segment_full-segments m id = ground arith

active_loop-segments :
    (xs : List ℕ) (m : SegmentManager) → (active_loop xs m).1.segments ≡ m.segments
unfolding active_loop promote_idle_segment
active_loop-segments [] m = promoted m.idle_set
  where
    promoted : (xs : List ℕ) → (promote_from m xs).1.segments ≡ m.segments
    promoted [] = refl
    promoted (x ∷ xs) = refl
active_loop-segments (x ∷ xs) m =
    let rest = active_loop-segments xs (mark_segment_full m x).1 in
    let full_same = mark_segment_full-segments m x in ground (arith, rest, full_same)

pub get_active_segment-segments :
    (m : SegmentManager) → (get_active_segment m).1.segments ≡ m.segments
unfolding get_active_segment
get_active_segment-segments m = active_loop-segments m.appending_set m

-- After a segment is put back: the usable segments, and the pairs.
module _ (k v : ℕ) (ss : List Segment) (s t : Segment)
    (found : get_segment ss t.segment_id ≡ some s) where
  pub put_back-AllUsable : AllUsable k v ss → IsUsable k v t → AllUsable k v (put_back ss t)
  put_back-AllUsable all u id w e = elim (Bool-cases (id == t.segment_id)) [
    | inl here ↦
        let same : id ≡ t.segment_id = (==_iff _ _).0 here in
        let back : some t ≡ some w =
          sym (get_segment-put_back ss t s found)
          ∙ ap (get_segment (put_back ss t)) (sym same)
          ∙ e in
        subst (IsUsable k v) (injected t w back) u
    | inr there ↦ all id w (sym (get_segment-put_back_other ss t id there) ∙ e)
  ]
    where
      injected : (a b : Segment) → some a ≡ some b → a ≡ b
      injected a b h = cc

  pub put_back-Holds :
      (enc : ℕ) (key value : Bytes)
      → (get_segment_id enc ≡ t.segment_id
          → IsStored s (get_slot_id enc) key value
          → IsStored t (get_slot_id enc) key value)
      → Holds ss enc key value
      → Holds (put_back ss t) enc key value
  put_back-Holds enc key value keep (w, e, stored) =
      elim (Bool-cases (get_segment_id enc == t.segment_id)) [
        | inl here ↦
            let same : get_segment_id enc ≡ t.segment_id = (==_iff _ _).0 here in
            let both : some w ≡ some s = sym e ∙ ap (get_segment ss) same ∙ found in
            (
              t,
              ap (get_segment (put_back ss t)) same ∙ get_segment-put_back ss t s found,
              keep same (
                  subst (λ (u : Segment). IsStored u (get_slot_id enc) key value)
                    (injected w s both) stored),
            )
        | inr there ↦ (w, get_segment-put_back_other ss t (get_segment_id enc) there ∙ e, stored)
      ]
    where
      injected : (a b : Segment) → some a ≡ some b → a ≡ b
      injected a b h = cc
