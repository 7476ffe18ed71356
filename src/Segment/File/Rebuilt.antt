-- ===== src/Segment/File/Rebuilt.antt =====
-- The counters that `Open` rebuilds from a bitmap (parakv/core/segment/segment_file.cc).
use para_kv.Prelude.{
  ℕ, zero, suc, ◌+◌, ◌-◌, ◌*◌, ◌^◌, ◌≤◌, ◌<◌, ◌≡◌, refl, ap, ◌∙◌, false, Bool-cases, inl, inr,
  length, arith, ltb, if◌then◌else◌,
}
use para_kv.Prelude.Bytes.{Bytes, AreBytes}
use para_kv.Segment.Bitmap.{is_slot_occupied}
use para_kv.Segment.Base.{Segment, update_state}
use para_kv.Segment.Base.Counting.{count_below, count_below-le, count_below-stop}
use para_kv.Segment.File.{rebuild, rebuilt}
use para_kv.Segment.File.Valid.{IsValid}

count_below-next :
    (bm : Bytes) (i : ℕ)
    → count_below (is_slot_occupied bm) (i + 1) ≡ (
        if is_slot_occupied bm i
        then count_below (is_slot_occupied bm) i + 1
        else count_below (is_slot_occupied bm) i)
unfolding count_below
count_below-next bm i = ap (count_below (is_slot_occupied bm)) (the_next i) ∙ ground arith
  where
    the_next : (n : ℕ) → n + 1 ≡ suc n
    the_next n = omega arith

-- The counters below `i`: the used slots are counted, and none is occupied from the cursor on.
record Counted (bm : Bytes) (i used cursor : ℕ) : Type 0 where
  counted : used ≡ count_below (is_slot_occupied bm) i
  within : cursor ≤ i
  free : (j : ℕ) → cursor ≤ j → j < i → is_slot_occupied bm j ≡ false

Counted-next :
    (bm : Bytes) (i used cursor : ℕ)
    → Counted bm i used cursor
    → Counted bm
        (i + 1)
        (if is_slot_occupied bm i then used + 1 else used)
        (if is_slot_occupied bm i then i + 1 else cursor)
Counted-next bm i used cursor c = elim (Bool-cases (is_slot_occupied bm i)) [
  | inl on ↦ rw on (record {
    counted = ground (arith, c.counted, count_below-next bm i, on);
    within = omega arith;
    free = λ j from to. absurd (omega arith);
  })
  | inr off ↦ rw off (record {
    counted = ground (arith, c.counted, count_below-next bm i, off);
    within = omega (arith, c.within);
    free = λ j from to. elim (Bool-cases (ltb j i)) [
      | inl below ↦ c.free j from (ground (arith, below))
      | inr above ↦ ap (is_slot_occupied bm) (ground (arith, above)) ∙ off
    ];
  })
]

rebuild-Counted :
    (bm : Bytes) (n i used cursor : ℕ)
    → Counted bm i used cursor
    → Counted bm (i + n) (rebuild bm n i used cursor).0 (rebuild bm n i used cursor).1
unfolding rebuild
rebuild-Counted bm zero i used cursor c = record {
  counted = c.counted ∙ ap (count_below (is_slot_occupied bm)) (omega arith);
  within = omega (arith, c.within);
  free = λ j from to. c.free j from (omega arith);
}
rebuild-Counted bm (suc n) i used cursor c =
    let on = is_slot_occupied bm i in
    let r =
      rebuild-Counted bm n (i + 1) (if on then used + 1 else used) (if on then i + 1 else cursor)
        (Counted-next bm i used cursor c) in
    record {
      counted = r.counted ∙ ap (count_below (is_slot_occupied bm)) (omega arith);
      within = omega (arith, r.within);
      free = λ j from to. r.free j from (omega arith);
    }

-- For a bitmap of bytes with a bit for each slot and clear bits behind them, the counters and the
-- state that `Open` rebuilds agree with the bitmap.
pub rebuilt-IsValid :
    (s : Segment)
    → AreBytes s.bitmap
    → s.total_slots ≤ 8 * length s.bitmap
    → s.total_slots < 2 ^ 32
    → ((j : ℕ) → s.total_slots ≤ j → is_slot_occupied s.bitmap j ≡ false)
    → IsValid (rebuilt s)
unfolding rebuilt update_state
rebuilt-IsValid s bytes bits small clear =
    let p = is_slot_occupied s.bitmap in
    let r = rebuild s.bitmap s.total_slots 0 0 0 in
    let c : Counted s.bitmap (0 + s.total_slots) r.0 r.1 =
      rebuild-Counted s.bitmap s.total_slots 0 0 0 (record {
        counted = unfold count_below in refl;
        within = omega arith;
        free = λ j from to. absurd (omega arith);
      }) in
    let fresh : (j : ℕ) → r.1 ≤ j → p j ≡ false = λ j from.
      elim (Bool-cases (ltb j s.total_slots)) [
        | inl below ↦ c.free j from (ground (arith, below))
        | inr above ↦ clear j (ground (arith, above))
      ] in
    let used : r.0 ≡ count_below p r.1 =
      c.counted
      ∙ ap (count_below p) (omega (arith, c.within))
      ∙ count_below-stop p r.1 (s.total_slots - r.1) fresh in
    record {
      bytes = bytes;
      bits = bits;
      small = small;
      within = omega (arith, c.within);
      fresh = fresh;
      counted = used;
      split = omega (arith, used, count_below-le p r.1);
      state_right = refl;
    }
