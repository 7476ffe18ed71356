-- ===== src/Segment/File/Payload.antt =====
-- What the writes of an insertion leave in the segment's file (parakv/core/segment/segment_file.cc).
use native.Mathlib.Nat.{mod-eq_of_lt, le_trans, le_refl}
use mathlib.Core.Path.{subst}
use para_kv.Prelude.{
  append-nil, take-append, ℕ, ◌+◌, ◌*◌, ◌%◌, ◌^◌, ◌≤◌, ◌<◌, ◌≡◌, refl, sym, ap, ◌∙◌, ◌⊎◌, inl, List,
  [], ◌∷◌, length, take, min, arith, length-take, drop,
}
use para_kv.Prelude.Bytes.{Bytes}
use para_kv.Status.{Status, ok}
use para_kv.Io.{File, Transfer, moved, interrupted, failed, read_range, write_range, pwrite_all}
use para_kv.Io.Ranges.{read-write_self}
use para_kv.Io.Loops.{pwrite_all-ok, read-pwrite_all_apart}
use para_kv.Segment.Base.{Segment, get_slot_offset}
use para_kv.Segment.File.{pwrite, write_payload, then_value}

-- The offset of a slot, without wrapping.
abbrev pub slot_start : Segment → ℕ → ℕ
slot_start s slot = s.slot_data_offset + slot * s.slot_size

-- The data area follows the bitmap, slots hold a key and a value, and offsets do not wrap.
pub record HasLayout (s : Segment) : Type 0 where
  pub data_start : s.slot_data_offset ≡ length s.bitmap
  pub slot_width : s.slot_size ≡ s.config.key_size + s.config.value_size
  pub no_wrap : s.slot_data_offset + s.total_slots * s.slot_size < 2 ^ 64

pub slots_apart : (width i j : ℕ) → i < j → i * width + width ≤ j * width
slots_apart width i j h = grind arith

pub slot_end :
    (s : Segment) (slot : ℕ)
    → HasLayout s
    → slot < s.total_slots
    → slot_start s slot + s.slot_size < 2 ^ 64
slot_end s slot l h = omega (arith, slots_apart s.slot_size slot s.total_slots h, l.no_wrap)

pub get_slot_offset-eq :
    (s : Segment) (slot : ℕ)
    → HasLayout s
    → slot < s.total_slots
    → get_slot_offset s slot ≡ slot_start s slot
unfolding get_slot_offset
get_slot_offset-eq s slot l h = mod-eq_of_lt (omega (arith, slot_end s slot l h))

size-write_range : (f : File) (off : ℕ) (buf : Bytes) → f.size ≤ (write_range f off buf).size
unfolding write_range
size-write_range f off [] = le_refl _
size-write_range f off (b ∷ buf) = ground arith

-- A write does not shrink the file.
pub size-pwrite_all :
    (sc : List Transfer) (f : File) (buf : Bytes) (off : ℕ)
    → f.size ≤ (pwrite_all sc f buf off).file.size
unfolding pwrite_all
size-pwrite_all [] f buf off = size-write_range f off buf
size-pwrite_all (t ∷ sc) f [] off = le_refl _
size-pwrite_all (failed ∷ sc) f (b ∷ buf) off = le_refl _
size-pwrite_all (interrupted ∷ sc) f (b ∷ buf) off = size-pwrite_all sc f (b ∷ buf) off
size-pwrite_all (moved m ∷ sc) f (b ∷ buf) off =
    let n = min m (length (b ∷ buf)) in
    le_trans (size-write_range f off (take n (b ∷ buf)))
      (size-pwrite_all sc (write_range f off (take n (b ∷ buf))) (drop n (b ∷ buf)) (off + n))

-- A successful write of a whole buffer is read back.
written_back :
    (sc : List Transfer) (f : File) (n : ℕ) (buf : Bytes) (off : ℕ)
    → length buf ≡ n
    → (pwrite_all sc f (take n buf) off).status ≡ ok
    → read_range (pwrite_all sc f (take n buf) off).file off n ≡ buf
written_back sc f n buf off len done =
    ap (λ (g : File). read_range g off n) (pwrite_all-ok sc f (take n buf) off done)
    ∙ ap (λ (b : Bytes). read_range (write_range f off b) off n) whole
    ∙ ap (read_range (write_range f off buf) off) (sym len)
    ∙ read-write_self f off buf
  where
    whole : take n buf ≡ buf
    whole = ap (take n) (sym (append-nil buf)) ∙ take-append n buf [] len

-- The payload of a slot, in a file.
abbrev pub HoldsPayload : File → ℕ → ℕ → ℕ → Bytes → Bytes → Type 0
HoldsPayload f off k v key value = (read_range f off k ≡ key) × (read_range f (off + k) v ≡ value)

module _ (s : Segment) (f : File) (sc : List Transfer) (value : Bytes) (off : ℕ) where
  then_value-apart :
      (e : Status) (at n : ℕ)
      → off + s.config.key_size < 2 ^ 64
      → (at + n ≤ off + s.config.key_size) ⊎ (off + s.config.key_size + s.config.value_size ≤ at)
      → read_range (then_value value off (e, record s { file = f; script = sc })).1.file at n
        ≡ read_range f at n
  unfolding pwrite
  then_value-apart ok at n small away =
      read-pwrite_all_apart sc f (take s.config.value_size value)
        ((off + s.config.key_size) % 2 ^ 64) at n
        (omega (arith, mod-eq_of_lt small, length-take s.config.value_size value))
  then_value-apart e at n small away = refl

  then_value-holds :
      (e : Status) (key : Bytes)
      → off + s.config.key_size < 2 ^ 64
      → length value ≡ s.config.value_size
      → (e ≡ ok → read_range f off s.config.key_size ≡ key)
      → (then_value value off (e, record s { file = f; script = sc })).0 ≡ ok
      → HoldsPayload
          (then_value value off (e, record s { file = f; script = sc })).1.file
          off
          s.config.key_size
          s.config.value_size
          key
          value
  unfolding pwrite
  then_value-holds ok key small len stored done =
      let same : (off + s.config.key_size) % 2 ^ 64 ≡ off + s.config.key_size =
        mod-eq_of_lt small in
      (
        then_value-apart ok off s.config.key_size small (inl (omega arith)) ∙ stored refl,
        ap
              (λ (o : ℕ).
                read_range
                  (pwrite_all sc f (take s.config.value_size value)
                    ((off + s.config.key_size) % 2 ^ 64)).file
                  o s.config.value_size)
              (sym same)
            ∙ written_back sc f s.config.value_size value ((off + s.config.key_size) % 2 ^ 64) len
                done,
      )
  then_value-holds e key small len stored done = cc

module _ (s : Segment) (slot : ℕ) (key value : Bytes) where
  module _ (at n : ℕ) (l : HasLayout s) (h : slot < s.total_slots) where
    -- Ranges outside the slot are left alone, also by writes that fail.
    pub write_payload-apart :
        (at + n ≤ slot_start s slot) ⊎ (slot_start s slot + s.slot_size ≤ at)
        → read_range (write_payload s slot key value).1.file at n ≡ read_range s.file at n
    unfolding write_payload
    write_payload-apart away =
        let off = get_slot_offset s slot in
        let e = get_slot_offset-eq s slot l h in
        let end = slot_end s slot l h in
        let r = pwrite_all s.script s.file (take s.config.key_size key) off in
        then_value-apart s r.file r.script value off r.status at n
          (omega (arith, e, end, l.slot_width)) (omega (arith, e, l.slot_width))
        ∙ read-pwrite_all_apart s.script s.file (take s.config.key_size key) off at n
            (omega (arith, e, l.slot_width, length-take s.config.key_size key))

  -- Where both writes succeed, the slot holds the key and the value.
  pub write_payload-holds :
      HasLayout s
      → slot < s.total_slots
      → length key ≡ s.config.key_size
      → length value ≡ s.config.value_size
      → (write_payload s slot key value).0 ≡ ok
      → HoldsPayload
          (write_payload s slot key value).1.file
          (slot_start s slot)
          s.config.key_size
          s.config.value_size
          key
          value
  unfolding write_payload
  write_payload-holds l h lk lv done =
      let off = get_slot_offset s slot in
      let e = get_slot_offset-eq s slot l h in
      let r = pwrite_all s.script s.file (take s.config.key_size key) off in
      subst
        (λ (o : ℕ).
          HoldsPayload (write_payload s slot key value).1.file o s.config.key_size
            s.config.value_size key value)
        e
        (then_value-holds s r.file r.script value off r.status key
          (omega (arith, e, slot_end s slot l h, l.slot_width)) lv
          (λ fine. written_back s.script s.file s.config.key_size key off lk fine) done)
