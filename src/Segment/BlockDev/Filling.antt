-- ===== src/Segment/BlockDev/Filling.antt =====
-- A segment on a block device takes as many pairs as it has slots left, and then no more
-- (parakv/core/segment/segment_block_dev.cc).
use mathlib.Core.Path.{subst}
use para_kv.Prelude.{
  ℕ, zero, suc, ◌+◌, ◌-◌, ◌^◌, ◌≤◌, ◌≡◌, refl, sym, ap, ◌∙◌, true, false, some, List, [], ◌∷◌,
  length, arith, ltb,
}
use para_kv.Prelude.Bytes.{Bytes}
use para_kv.Status.{Status, ok, full}
use para_kv.Segment.Base.{find_free_slot, update_state, increment}
use para_kv.Segment.BlockDev.{
  BlockDeviceIo, SegmentBlockDev, flush_bitmap, then_value, write_payload, insert_flushed,
  insert_payload, insert,
}
use para_kv.Segment.BlockDev.Insertion.{with_bit}

-- The writes of the device answer `kOk`.
abbrev pub WritesSucceed : BlockDeviceIo → Type 0
WritesSucceed io = (d : io.Device) (buf : Bytes) (off : ℕ) → (io.write d buf off).0 ≡ ok

-- The statuses of insertions, one after the other.
unfoldable pub insert_each :
    (io : BlockDeviceIo) → SegmentBlockDev → io.Device → List (Bytes × Bytes) → List Status
unfolding insert
insert_each io s d [] = []
insert_each io s d ((key, value) ∷ pairs) =
    let out = insert io s d (some key) (some value) in out.0 ∷ insert_each io out.2 out.3 pairs

-- `kOk` for the first `room` of `n`, and `kFull` for the others.
abbrev pub until_full : ℕ → ℕ → List Status
until_full room zero = []
until_full zero (suc n) = full ∷ until_full zero n
until_full (suc room) (suc n) = ok ∷ until_full room n

-- What the insertions look at: the segment is open, and its cursor and number of slots.
record IsAt (s : SegmentBlockDev) (room : ℕ) : Type 0 where
  opened : s.opened ≡ true
  left : s.base.append_cursor + room ≡ s.base.total_slots
  small : s.base.total_slots ≤ 2 ^ 31

module _ (io : BlockDeviceIo) (never : WritesSucceed io) where
  then_value-ok :
      (s : SegmentBlockDev) (value : Bytes) (off : ℕ) (e : Status) (d : io.Device)
      → e ≡ ok
      → (then_value io s value off (e, d)).0 ≡ ok
  then_value-ok s value off ok d fine = never d _ _
  then_value-ok s value off e d fine = cc

  write_payload-ok :
      (s : SegmentBlockDev) (d : io.Device) (slot : ℕ) (key value : Bytes)
      → (write_payload io s d slot key value).0 ≡ ok
  unfolding write_payload
  write_payload-ok s d slot key value = then_value-ok s value _ _ _ (never d _ _)

  -- A successful insertion moves the cursor on.
  abbrev Taken : SegmentBlockDev → Status × ℕ × SegmentBlockDev × io.Device → Type 0
  Taken s out =
      (out.0 ≡ ok)
      × (out.2.opened ≡ s.opened)
      × (out.2.base.append_cursor ≡ increment s.base.append_cursor)
      × (out.2.base.total_slots ≡ s.base.total_slots)

  insert_flushed-Taken :
      (s : SegmentBlockDev) (slot : ℕ) (e : Status) (d : io.Device)
      → e ≡ ok
      → Taken s (insert_flushed io (with_bit s slot) slot (e, d))
  unfolding update_state
  insert_flushed-Taken s slot ok d fine = (refl, refl, refl, refl)
  insert_flushed-Taken s slot e d fine = cc

  insert_payload-Taken :
      (s : SegmentBlockDev) (slot : ℕ) (e : Status) (d : io.Device)
      → e ≡ ok
      → Taken s (insert_payload io s slot (e, d))
  unfolding flush_bitmap
  insert_payload-Taken s slot ok d fine = insert_flushed-Taken s slot _ _ (never d _ _)
  insert_payload-Taken s slot e d fine = cc

  insert-room :
      (s : SegmentBlockDev) (d : io.Device) (room : ℕ) (key value : Bytes)
      → IsAt s (suc room)
      → insert io s d (some key) (some value)
        ≡ insert_payload io s s.base.append_cursor
            (write_payload io s d s.base.append_cursor key value)
  unfolding insert find_free_slot
  insert-room s d room key value a =
      let below : ltb s.base.append_cursor s.base.total_slots ≡ true = ground (arith, a.left) in
      let positive : ltb s.base.append_cursor (2 ^ 31) ≡ true = ground (arith, a.left, a.small) in
      simp (a.opened, below, positive) refl

  insert-Taken :
      (s : SegmentBlockDev) (d : io.Device) (room : ℕ) (key value : Bytes)
      → IsAt s (suc room)
      → Taken s (insert io s d (some key) (some value))
  insert-Taken s d room key value a = subst (Taken s) (sym (insert-room s d room key value a)) (
      insert_payload-Taken s s.base.append_cursor _ _
        (write_payload-ok s d s.base.append_cursor key value))

  insert-full :
      (s : SegmentBlockDev) (d : io.Device) (key value : Bytes)
      → IsAt s zero
      → insert io s d (some key) (some value) ≡ (full, 0, s, d)
  unfolding insert find_free_slot
  insert-full s d key value a =
      let above : ltb s.base.append_cursor s.base.total_slots ≡ false = ground (arith, a.left) in
      simp (a.opened, above) refl

  insert_each-IsAt :
      (pairs : List (Bytes × Bytes)) (s : SegmentBlockDev) (d : io.Device) (room : ℕ)
      → IsAt s room
      → insert_each io s d pairs ≡ until_full room (length pairs)
  unfolding insert_each
  insert_each-IsAt [] s d room a = refl
  insert_each-IsAt ((key, value) ∷ pairs) s d zero a =
      let e = insert-full s d key value a in
      (λ i. (e i).0 ∷ insert_each io (e i).2 (e i).3 pairs)
      ∙ ap (λ (x : List Status). full ∷ x) (insert_each-IsAt pairs s d zero a)
  insert_each-IsAt ((key, value) ∷ pairs) s d (suc room) a =
      let out = insert io s d (some key) (some value) in
      let (done, still, cursor, total) = insert-Taken s d room key value a in
      let next : IsAt out.2 room = record {
        opened = still ∙ a.opened;
        left = omega (arith, a.left, a.small, cursor, total);
        small = omega (arith, a.small, total);
      } in
      (λ i. done i ∷ insert_each-IsAt pairs out.2 out.3 room next i)

-- While the device's writes answer `kOk`: of any number of insertions into an open segment with a
-- cursor within its slots, at most 2^31 of them, exactly as many answer `kOk` as the segment has slots
-- from the cursor on, in order, and each further one answers `kFull`.
pub insert_each-until_full :
    (io : BlockDeviceIo) (s : SegmentBlockDev) (d : io.Device) (pairs : List (Bytes × Bytes))
    → WritesSucceed io
    → s.opened ≡ true
    → s.base.append_cursor ≤ s.base.total_slots
    → s.base.total_slots ≤ 2 ^ 31
    → insert_each io s d pairs
      ≡ until_full (s.base.total_slots - s.base.append_cursor) (length pairs)
insert_each-until_full io s d pairs never opened within small =
    insert_each-IsAt io never pairs s d (s.base.total_slots - s.base.append_cursor)
      (record { opened = opened; left = omega arith; small = small })
