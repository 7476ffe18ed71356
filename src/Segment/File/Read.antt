-- ===== src/Segment/File/Read.antt =====
-- `Read` returns what is stored (parakv/core/segment/segment_file.cc).
use para_kv.Prelude.{
  ℕ, ◌+◌, ◌*◌, ◌%◌, ◌^◌, ◌≤◌, ◌<◌, ◌≡◌, ap, ◌∙◌, true, false, some, [], arith, leb,
}
use para_kv.Prelude.Bytes.{Bytes}
use para_kv.Status.{ok}
use para_kv.Io.{PRead, NoFailure, read_range, pread_all}
use para_kv.Io.Loops.{pread_all-ok, pread_all-NoFailure}
use para_kv.Segment.Base.{Segment, get_slot_offset}
use para_kv.Segment.Base.Agrees.{occupied-lt}
use para_kv.Segment.File.{read_value, read}
use para_kv.Segment.File.Valid.{IsValid}
use para_kv.Segment.File.Payload.{
  HasLayout, HoldsPayload, slot_start, slots_apart, get_slot_offset-eq,
}
use para_kv.Segment.File.Stored.{IsStored}

read_value-ok :
    (s : Segment) (off : ℕ) (k : PRead)
    → k.status ≡ ok
    → (pread_all k.script s.file ((off + s.config.key_size) % 2 ^ 64) s.config.value_size []).status
      ≡ ok
    → ((read_value s off k).0 ≡ ok)
      × ((read_value s off k).1 ≡ some k.buf)
      × ((read_value s off k).2
          ≡ some
              (pread_all k.script s.file
                ((off + s.config.key_size) % 2 ^ 64)
                s.config.value_size
                []).buf)
read_value-ok s off k first second = ground arith

module _ (s : Segment) (v : IsValid s) (l : HasLayout s) where
  read_value-held :
      (slot : ℕ) (key value : Bytes)
      → slot < s.append_cursor
      → NoFailure s.script
      → s.slot_data_offset + s.total_slots * s.slot_size ≤ s.file.size
      → HoldsPayload s.file (slot_start s slot) s.config.key_size s.config.value_size key value
      → let r =
          read_value s
            (get_slot_offset s slot)
            (pread_all s.script s.file (get_slot_offset s slot) s.config.key_size []) in
        (r.0 ≡ ok) × (r.1 ≡ some key) × (r.2 ≡ some value)
  read_value-held slot key value below ns fits held =
      let c = s.config in
      let off = get_slot_offset s slot in
      let room = v.within in
      let e = get_slot_offset-eq s slot l (omega arith) in
      let end = slots_apart s.slot_size slot s.total_slots (omega arith) in
      let k = pread_all s.script s.file off c.key_size [] in
      let k_ok =
        pread_all-NoFailure s.script s.file off c.key_size [] ns
          (omega (arith, e, end, l.slot_width)) in
      let at = (off + c.key_size) % 2 ^ 64 in
      let at_eq : at ≡ slot_start s slot + c.key_size =
        omega (arith, e, end, l.slot_width, l.no_wrap) in
      let w_ok =
        pread_all-NoFailure k.script s.file at c.value_size [] k_ok.1
          (omega (arith, at_eq, end, l.slot_width)) in
      let (done, first, second) = read_value-ok s off k k_ok.0 w_ok.0 in
      (
        done,
        first
            ∙ ap some (
                pread_all-ok s.script s.file off c.key_size [] k_ok.0
                ∙ ap (λ (o : ℕ). read_range s.file o c.key_size) e
                ∙ held.0),
        second
            ∙ ap some (
                pread_all-ok k.script s.file at c.value_size [] w_ok.0
                ∙ ap (λ (o : ℕ). read_range s.file o c.value_size) at_eq
                ∙ held.1),
      )

  -- For an open segment whose counters agree with its bitmap, with its slots behind the bitmap, each
  -- as wide as a key and a value together, and with its last slot's end below 2^64 and within its file:
  -- `Read` of a slot that stores a pair, with calls that may be short or interrupted but do not fail,
  -- returns `kOk`, the key and the value.
  pub read-IsStored :
      (slot : ℕ) (key value : Bytes)
      → s.is_open ≡ true
      → NoFailure s.script
      → s.slot_data_offset + s.total_slots * s.slot_size ≤ s.file.size
      → IsStored s slot key value
      → ((read s slot).0 ≡ ok) × ((read s slot).1 ≡ some key) × ((read s slot).2 ≡ some value)
  unfolding read
  read-IsStored slot key value open_ ns fits (on, held) =
      let below = occupied-lt slot v on in
      let within : leb s.total_slots slot ≡ false = ground (arith, v.within, below) in
      simp (within, open_, on) (read_value-held slot key value below ns fits held)
