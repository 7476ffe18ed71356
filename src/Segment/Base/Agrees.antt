-- ===== src/Segment/Base/Agrees.antt =====
-- What the counters of a segment say of its bitmap, and how single bits change that
-- (parakv/core/segment/segment_base.cc).
use para_kv.Prelude.{
  ℕ, suc, ◌+◌, ◌*◌, ◌^◌, ◌≤◌, ◌<◌, ◌≡◌, refl, sym, ap, ◌∙◌, true, false, length, arith, ◌==◌,
  ==_iff,
}
use para_kv.Prelude.Bytes.{Bytes, AreBytes}
use para_kv.Segment.Bitmap.{
  set_slot_bit, clear_slot_bit, is_slot_occupied, set_slot_bit-AreBytes, clear_slot_bit-AreBytes,
  occupied-set, occupied-clear, length-set_slot_bit, length-clear_slot_bit,
}
use para_kv.Segment.Base.{SegmentState, increment, decrement, state_for}
use para_kv.Segment.Base.Counting.{
  count_below, count_below-le, count_below-ext, count_below-add, count_below-suc_off,
}

-- What the counters say of the bitmap.
pub record Agrees (bitmap : Bytes) (total used deleted cursor : ℕ) (state : SegmentState)
    : Type 0 where
  pub bytes : AreBytes bitmap
  pub bits : total ≤ 8 * length bitmap
  pub small : total < 2 ^ 32
  pub within : cursor ≤ total
  -- no slot from the cursor on is occupied
  pub fresh : (j : ℕ) → cursor ≤ j → is_slot_occupied bitmap j ≡ false
  pub counted : used ≡ count_below (is_slot_occupied bitmap) cursor
  pub split : deleted + used ≡ cursor
  pub state_right : state ≡ state_for used cursor total

module _ {bm : Bytes} {total used deleted cursor : ℕ} {state : SegmentState} where
  occupied_set_self :
      Agrees bm total used deleted cursor state
      → cursor < total
      → is_slot_occupied (set_slot_bit bm cursor) cursor ≡ true
  occupied_set_self a room =
      ground (arith, occupied-set bm cursor a.bytes cursor (omega (arith, a.bits)))

  taken_counted :
      Agrees bm total used deleted cursor state
      → cursor < total
      → suc used ≡ count_below (is_slot_occupied (set_slot_bit bm cursor)) (suc cursor)
  taken_counted a room =
      let p = is_slot_occupied bm in
      let off = a.fresh cursor (omega arith) in
      ap suc (a.counted ∙ sym (count_below-suc_off p cursor off))
      ∙ sym (
          count_below-add p (is_slot_occupied (set_slot_bit bm cursor)) (suc cursor) cursor
            (omega arith) off (occupied_set_self a room)
            (λ j other.
              ground (arith, occupied-set bm cursor a.bytes j (omega (arith, a.bits)), other)))

  -- Taking the slot at the cursor.
  pub Agrees-insert :
      Agrees bm total used deleted cursor state
      → cursor < total
      → Agrees
          (set_slot_bit bm cursor)
          total
          (increment used)
          deleted
          (increment cursor)
          (state_for (increment used) (increment cursor) total)
  Agrees-insert a room =
      let occ = λ (j : ℕ). occupied-set bm cursor a.bytes j (omega (arith, a.bits)) in
      let up : increment cursor ≡ suc cursor = omega (arith, a.small) in
      let n = count_below-le (is_slot_occupied bm) cursor in
      let up' : increment used ≡ suc used = omega (arith, a.small, a.counted, n) in
      record {
        bytes = set_slot_bit-AreBytes bm cursor a.bytes;
        bits = omega (arith, a.bits, length-set_slot_bit bm cursor);
        small = a.small;
        within = omega (arith, up);
        fresh = λ j h. ground (arith, occ j, a.fresh j, up);
        counted = rw (up, up') (taken_counted a room);
        split = omega (arith, a.split, up, up');
        state_right = refl;
      }

  -- Bitmaps that read alike.
  pub Agrees-ext :
      (bm' : Bytes)
      → Agrees bm total used deleted cursor state
      → AreBytes bm'
      → length bm' ≡ length bm
      → ((j : ℕ) → is_slot_occupied bm' j ≡ is_slot_occupied bm j)
      → Agrees bm' total used deleted cursor state
  Agrees-ext bm' a bytes len same = record {
    bytes = bytes;
    bits = omega (arith, a.bits, len);
    small = a.small;
    within = a.within;
    fresh = λ j h. same j ∙ a.fresh j h;
    counted =
        a.counted
        ∙ sym (count_below-ext (is_slot_occupied bm') (is_slot_occupied bm) cursor (λ j _. same j));
    split = a.split;
    state_right = a.state_right;
  }

  -- Setting a free bit and clearing it again.
  pub Agrees-set_clear :
      (i : ℕ)
      → Agrees bm total used deleted cursor state
      → i < total
      → is_slot_occupied bm i ≡ false
      → Agrees (clear_slot_bit (set_slot_bit bm i) i) total used deleted cursor state
  Agrees-set_clear i a h off =
      let b = set_slot_bit-AreBytes bm i a.bytes in
      let n = length-set_slot_bit bm i in
      Agrees-ext (clear_slot_bit (set_slot_bit bm i) i) a
        (clear_slot_bit-AreBytes (set_slot_bit bm i) i b)
        (length-clear_slot_bit (set_slot_bit bm i) i ∙ n)
        (λ j. ground (
          arith,
          occupied-clear (set_slot_bit bm i) i b j (omega (arith, a.bits, n)),
          occupied-set bm i a.bytes j (omega (arith, a.bits)),
          same_slot i j off,
        ))
    where
      same_slot :
          (i j : ℕ)
          → is_slot_occupied bm i ≡ false
          → (i == j) ≡ true
          → is_slot_occupied bm j ≡ false
      same_slot i j off e = ap (is_slot_occupied bm) (sym ((==_iff i j).0 e)) ∙ off

  pub Agrees-clear_set :
      (i : ℕ)
      → Agrees bm total used deleted cursor state
      → i < total
      → is_slot_occupied bm i ≡ true
      → Agrees (set_slot_bit (clear_slot_bit bm i) i) total used deleted cursor state
  Agrees-clear_set i a h on =
      let b = clear_slot_bit-AreBytes bm i a.bytes in
      let n = length-clear_slot_bit bm i in
      Agrees-ext (set_slot_bit (clear_slot_bit bm i) i) a
        (set_slot_bit-AreBytes (clear_slot_bit bm i) i b)
        (length-set_slot_bit (clear_slot_bit bm i) i ∙ n)
        (λ j. ground (
          arith,
          occupied-set (clear_slot_bit bm i) i b j (omega (arith, a.bits, n)),
          occupied-clear bm i a.bytes j (omega (arith, a.bits)),
          same_slot i j on,
        ))
    where
      same_slot :
          (i j : ℕ) → is_slot_occupied bm i ≡ true → (i == j) ≡ true → is_slot_occupied bm j ≡ true
      same_slot i j on e = ap (is_slot_occupied bm) (sym ((==_iff i j).0 e)) ∙ on

  -- An occupied slot lies below the cursor.
  pub occupied-lt :
      (i : ℕ)
      → Agrees bm total used deleted cursor state
      → is_slot_occupied bm i ≡ true
      → i < cursor
  occupied-lt i a on = ground (arith, a.fresh i)

  -- Giving up an occupied slot.
  pub Agrees-delete :
      (i : ℕ)
      → Agrees bm total used deleted cursor state
      → is_slot_occupied bm i ≡ true
      → Agrees
          (clear_slot_bit bm i)
          total
          (decrement used)
          (increment deleted)
          cursor
          (state_for (decrement used) cursor total)
  Agrees-delete i a on =
      let below = occupied-lt i a on in
      let occ = λ (j : ℕ). occupied-clear bm i a.bytes j (omega (arith, a.bits, a.within)) in
      let one : count_below (is_slot_occupied bm) cursor
          ≡ suc (count_below (is_slot_occupied (clear_slot_bit bm i)) cursor) =
        count_below-add (is_slot_occupied (clear_slot_bit bm i)) (is_slot_occupied bm) cursor i
          below (ground (arith, occ i)) on (λ j other. ground (arith, occ j, other)) in
      let n = count_below-le (is_slot_occupied bm) cursor in
      record {
        bytes = clear_slot_bit-AreBytes bm i a.bytes;
        bits = omega (arith, a.bits, length-clear_slot_bit bm i);
        small = a.small;
        within = a.within;
        fresh = λ j h. ground (arith, occ j, a.fresh j);
        counted = omega (arith, one, a.counted, n, a.small, a.within);
        split = omega (arith, one, a.counted, n, a.small, a.within, a.split);
        state_right = refl;
      }
