-- ===== src/Index/Store/Freed.antt =====
-- What `FreeSlot` of `Index` does to the pairs in the segments (parakv/core/index/index.cc).
use para_kv.Prelude.{
  ℕ, ◌≡◌, refl, sym, ap, ◌∙◌, inl, inr, false, Option, none, some, List, ◌==◌, ==_iff, Bool-cases,
}
use para_kv.Prelude.Bytes.{Bytes}
use para_kv.Index.Offset.{get_flag, get_segment_id, get_slot_id, flag_value, segment_slot}
use para_kv.Segment.Base.{Segment}
use para_kv.Segment.File.{delete}
use para_kv.Segment.File.Kept.{delete-IsLater, delete-IsUsable, delete-keeps-IsStored}
use para_kv.Segment.Manager.{SegmentManager, get_segment}
use para_kv.Segment.Manager.Pairs.{
  Holds, AllUsable, SameSlot, get_segment-id, put_back-AllUsable, put_back-Holds,
}
use para_kv.Index.Store.Access.{free_found, free_slot}

module _ (k v : ℕ) where
  -- The segments stay usable, and a pair in another slot stays.
  pub record Freed (ss : List Segment) (enc : ℕ) (ss' : List Segment) : Type 0 where
    pub usable : AllUsable k v ss'
    pub keeps : (a : ℕ) (q w : Bytes) → (SameSlot a enc → ⊥) → Holds ss a q w → Holds ss' a q w

  free_found-Freed :
      (m : SegmentManager) (enc : ℕ) (found : Option Segment)
      → get_segment m.segments (get_segment_id enc) ≡ found
      → AllUsable k v m.segments
      → Freed m.segments enc (free_found m (get_slot_id enc) found).1.segments
  free_found-Freed m enc none e all = record { usable = all; keeps = λ a q w other h. h }
  free_found-Freed m enc (some s) e all =
      let id = get_segment_id enc in
      let slot = get_slot_id enc in
      let u = all id s e in
      let t = (delete s slot).1 in
      let t_id : t.segment_id ≡ id =
        (delete-IsLater s slot).id ∙ get_segment-id m.segments id s e in
      let found = ap (get_segment m.segments) t_id ∙ e in
      record {
        usable = put_back-AllUsable k v m.segments s t found all (delete-IsUsable k v s slot u);
        keeps = λ a q w other h.
            put_back-Holds k v m.segments s t found a q w
              (λ same st.
                delete-keeps-IsStored s slot (get_slot_id a) q w u.valid u.layout
                  (different a (same ∙ t_id) other) st)
              h;
      }
    where
      different :
          (a : ℕ)
          → get_segment_id a ≡ get_segment_id enc
          → (SameSlot a enc → ⊥)
          → (get_slot_id enc == get_slot_id a) ≡ false
      different a same other = elim (Bool-cases (get_slot_id enc == get_slot_id a)) [
        | inl here ↦ absurd (other (same, sym ((==_iff _ _).0 here)))
        | inr there ↦ there
      ]

  pub free_slot-Freed :
      (m : SegmentManager) (enc : ℕ)
      → AllUsable k v m.segments
      → Freed m.segments enc (free_slot m enc).1.segments
  unfolding free_slot
  free_slot-Freed m enc all = elim (Bool-cases (get_flag enc == flag_value segment_slot)) [
    | inr other ↦ simp other (record { usable = all; keeps = λ a q w _ h. h })
    | inl here ↦
        simp here (free_found-Freed m enc (get_segment m.segments (get_segment_id enc)) refl all)
  ]
