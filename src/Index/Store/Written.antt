-- ===== src/Index/Store/Written.antt =====
-- What `WriteToSegment` and `FreeSlot` of `Index` do to the pairs in the segments
-- (parakv/core/index/index.cc).
use mathlib.Core.Path.{subst}
use para_kv.Prelude.{
  ℕ, ◌<◌, ◌≡◌, ◌≢◌, refl, sym, ap, ◌∙◌, inl, inr, true, false, Option, none, some, List, length,
  arith,
}
use para_kv.Prelude.Bytes.{Bytes}
use para_kv.Status.{Status, ok, io_error, no_space, full}
use para_kv.Index.Offset.{
  get_flag, get_segment_id, get_slot_id, encode_segment_slot, flag_value, segment_slot,
}
use para_kv.Index.Offset.RoundTrip.{encode_segment_slot_fields}
use para_kv.Segment.Bitmap.{is_slot_occupied}
use para_kv.Segment.Base.{Segment}
use para_kv.Segment.File.{insert}
use para_kv.Segment.File.Valid.{insert-cases}
use para_kv.Segment.File.Stored.{IsStored, insert-IsStored, insert-keeps-IsStored}
use para_kv.Segment.File.Kept.{insert-IsLater, insert-IsUsable}
use para_kv.Segment.Manager.{
  SegmentManager, get_segment, put_back, mark_segment_full, get_active_segment,
}
use para_kv.Segment.Manager.Pairs.{
  Holds, AllUsable, SameSlot, get_segment-id, get_segment-put_back, put_back-AllUsable,
  put_back-Holds, get_active_segment-segments, mark_segment_full-segments,
}
use para_kv.Index.Store.Access.{
  insert_found, insert_at, addressed, insert_again, insert_first, write_active, write_to_segment,
}

unwrapped : (a b : Segment) → some a ≡ some b → a ≡ b
unwrapped a b h = cc

occupied_free :
    (s t : Segment) (j : ℕ)
    → t ≡ s
    → is_slot_occupied t.bitmap j ≡ true
    → is_slot_occupied s.bitmap j ≡ false
    → ⊥
occupied_free s t j same on off =
    let on' : is_slot_occupied s.bitmap j ≡ true =
      ap (λ (u : Segment). is_slot_occupied u.bitmap j) (sym same) ∙ on in
    cc

module _ (k v : ℕ) (key value : Bytes) (lk : length key ≡ k) (lv : length value ≡ v) where
  -- What a write has done to the segments `ss`: they stay usable and keep their pairs, and where the
  -- status is `kOk` the pair is in a slot that no pair was in.
  pub record Wrote (ss : List Segment) (e : Status) (enc : ℕ) (ss' : List Segment) : Type 0 where
    pub usable : AllUsable k v ss'
    pub keeps : (a : ℕ) (q w : Bytes) → Holds ss a q w → Holds ss' a q w
    pub stores : e ≡ ok → Holds ss' enc key value
    pub flagged : e ≡ ok → get_flag enc ≡ flag_value segment_slot
    pub fresh : e ≡ ok → (a : ℕ) (q w : Bytes) → Holds ss a q w → SameSlot a enc → ⊥

  Wrote-failed :
      (ss : List Segment) (e : Status) (enc : ℕ) → e ≢ ok → AllUsable k v ss → Wrote ss e enc ss
  Wrote-failed ss e enc failed all = record {
    usable = all;
    keeps = λ a q w h. h;
    stores = λ f. absurd (failed f);
    flagged = λ f. absurd (failed f);
    fresh = λ f. absurd (failed f);
  }

  -- An insertion into a segment of the manager, with its slot encoded.
  module _ (ss : List Segment) (id : ℕ) (s : Segment) (found : get_segment ss id ≡ some s)
      (all : AllUsable k v ss) where
    abbrev out : Status × ℕ × Segment
    out = insert s (some key) (some value)

    found_again : get_segment ss out.2.segment_id ≡ some s
    found_again =
        ap (get_segment ss) ((insert-IsLater s key value).id ∙ get_segment-id ss id s found) ∙ found

    fields :
        (slot : ℕ)
        → slot < s.total_slots
        → (get_flag (encode_segment_slot id slot) ≡ flag_value segment_slot)
          × (get_segment_id (encode_segment_slot id slot) ≡ id)
          × (get_slot_id (encode_segment_slot id slot) ≡ slot)
    fields slot h =
        let u = all id s found in
        encode_segment_slot_fields id slot (omega (arith, u.id_fits, get_segment-id ss id s found))
          (omega (arith, u.slots_fit))

    insert_done :
        out.0 ≡ ok
        → (out.1 ≡ s.append_cursor)
          × IsStored out.2 s.append_cursor key value
          × (s.append_cursor < s.total_slots)
    insert_done done =
        let u = all id s found in
        let (slot, stored) =
          insert-IsStored s u.valid u.layout key value (lk ∙ sym u.key_size) (lv ∙ sym u.value_size)
            done in
        (
          slot,
          stored,
          elim (insert-cases s key value) [
            | inl (_, failed) ↦ absurd (failed done)
            | inr (room, _) ↦ room
          ],
        )

    inserted-Wrote : Wrote ss out.0 (encode_segment_slot id out.1) (put_back ss out.2)
    inserted-Wrote =
        let u = all id s found in
        record {
          usable =
              put_back-AllUsable k v ss s out.2 found_again all (insert-IsUsable k v s key value u);
          keeps = λ a q w h.
              put_back-Holds k v ss s out.2 found_again a q w
                (λ _ st.
                  insert-keeps-IsStored s u.valid u.layout (some key) (some value) (get_slot_id a) q
                    w st)
                h;
          stores = λ done.
              let (slot, stored, room) = insert_done done in
              let f = fields out.1 (omega (arith, slot, room)) in
              let place =
                f.1 ∙ sym (get_segment-id ss id s found) ∙ sym (insert-IsLater s key value).id in
              (
                out.2,
                ap (get_segment (put_back ss out.2)) place
                    ∙ get_segment-put_back ss out.2 s found_again,
                subst (λ (j : ℕ). IsStored out.2 j key value) (sym (f.2 ∙ slot)) stored,
              );
          flagged = λ done.
              let (slot, _, room) = insert_done done in
              (fields out.1 (omega (arith, slot, room))).0;
          fresh = λ done a q w (t, e, (on, _)) same.
              let (slot, _, room) = insert_done done in
              let f = fields out.1 (omega (arith, slot, room)) in
              let t_s : some t ≡ some s = sym e ∙ ap (get_segment ss) (same.0 ∙ f.1) ∙ found in
              occupied_free s t (get_slot_id a) (unwrapped t s t_s) on (
                ap (is_slot_occupied s.bitmap) (same.1 ∙ f.2 ∙ slot)
                ∙ u.valid.fresh s.append_cursor (omega arith));
        }

  insert_found-Wrote :
      (m : SegmentManager) (id : ℕ) (found : Option Segment)
      → get_segment m.segments id ≡ found
      → AllUsable k v m.segments
      → let r = insert_found m key value found in
        Wrote m.segments r.0 (encode_segment_slot id r.1) r.2.segments
  insert_found-Wrote m id none e all = Wrote-failed m.segments io_error _ differs all
    where
      differs : io_error ≢ ok
      differs f = cc
  insert_found-Wrote m id (some s) e all = inserted-Wrote m.segments id s e all

  insert_at-Wrote :
      (m : SegmentManager) (id : ℕ)
      → AllUsable k v m.segments
      → let r = insert_at m id key value in
        Wrote m.segments r.0 (encode_segment_slot id r.1) r.2.segments
  insert_at-Wrote m id all = insert_found-Wrote m id (get_segment m.segments id) refl all

  addressed-Wrote :
      (ss : List Segment) (id : ℕ) (e : Status) (slot : ℕ) (m : SegmentManager)
      → Wrote ss e (encode_segment_slot id slot) m.segments
      → let r = addressed id (e, slot, m) in Wrote ss r.0 r.1 r.2.segments
  addressed-Wrote ss id ok slot m w = w
  addressed-Wrote ss id e slot m w = record {
    usable = w.usable;
    keeps = w.keeps;
    stores = λ f. cc;
    flagged = λ f. cc;
    fresh = λ f. cc;
  }

  no_space_differs : no_space ≢ ok
  no_space_differs e = cc

  insert_again-Wrote :
      (ss : List Segment) (active : Option ℕ) (m : SegmentManager)
      → m.segments ≡ ss
      → AllUsable k v ss
      → let r = insert_again key value (active, m) in Wrote ss r.0 r.1 r.2.segments
  insert_again-Wrote ss none m same all = rw same (Wrote-failed ss no_space 0 no_space_differs all)
  insert_again-Wrote ss (some id) m same all =
      let r = insert_at m id key value in
      subst
        (λ (x : List Segment).
          Wrote x (addressed id r).0 (addressed id r).1 (addressed id r).2.segments)
        same
        (addressed-Wrote m.segments id r.0 r.1 r.2
          (insert_at-Wrote m id (subst (AllUsable k v) (sym same) all)))

  -- The second try follows a first that has changed what it has to.
  Wrote-then :
      (ss ss' ss'' : List Segment) (e e' : Status) (enc enc' : ℕ)
      → Wrote ss e enc ss'
      → Wrote ss' e' enc' ss''
      → Wrote ss e' enc' ss''
  Wrote-then ss ss' ss'' e e' enc enc' a b = record {
    usable = b.usable;
    keeps = λ x q w h. b.keeps x q w (a.keeps x q w h);
    stores = b.stores;
    flagged = b.flagged;
    fresh = λ f x q w h. b.fresh f x q w (a.keeps x q w h);
  }

  insert_first-Wrote :
      (ss : List Segment) (id : ℕ) (e : Status) (slot : ℕ) (m : SegmentManager)
      → Wrote ss e (encode_segment_slot id slot) m.segments
      → let r = insert_first key value id (e, slot, m) in Wrote ss r.0 r.1 r.2.segments
  insert_first-Wrote ss id full slot m w =
      let m' = (mark_segment_full m id).1 in
      let a = get_active_segment m' in
      let r = insert_again key value a in
      Wrote-then ss m.segments r.2.segments full r.0 _ r.1 w (
        insert_again-Wrote m.segments a.0 a.1
          (get_active_segment-segments m' ∙ mark_segment_full-segments m id) w.usable)
  insert_first-Wrote ss id e slot m w = addressed-Wrote ss id e slot m w

  write_active-Wrote :
      (ss : List Segment) (active : Option ℕ) (m : SegmentManager)
      → m.segments ≡ ss
      → AllUsable k v ss
      → let r = write_active key value (active, m) in Wrote ss r.0 r.1 r.2.segments
  write_active-Wrote ss none m same all = rw same (Wrote-failed ss no_space 0 no_space_differs all)
  write_active-Wrote ss (some id) m same all =
      let w = insert_at m id key value in
      let r = insert_first key value id w in
      subst (λ (x : List Segment). Wrote x r.0 r.1 r.2.segments) same
        (insert_first-Wrote m.segments id w.0 w.1 w.2
          (insert_at-Wrote m id (subst (AllUsable k v) (sym same) all)))

  -- `WriteToSegment`.
  pub write_to_segment-Wrote :
      (m : SegmentManager)
      → AllUsable k v m.segments
      → let r = write_to_segment m key value in Wrote m.segments r.0 r.1 r.2.segments
  unfolding write_to_segment
  write_to_segment-Wrote m all =
      let a = get_active_segment m in
      write_active-Wrote m.segments a.0 a.1 (get_active_segment-segments m) all
