-- ===== src/Segment/BlockDev/Compacted.antt =====
-- The loop of `Compact` and its end, for a target on the same block device
-- (parakv/core/segment/segment_block_dev.cc).
use native.Mathlib.Nat.{mod-eq_of_lt}
use mathlib.Core.Path.{subst}
use para_kv.Prelude.{
  ℕ, zero, suc, ◌+◌, ◌%◌, ◌^◌, ◌<◌, ◌≡◌, ◌≢◌, refl, sym, ap, ◌∙◌, inl, inr, true, false, none, some,
  length, arith, if◌then◌else◌, Bool-cases, ◌==◌, ==_iff,
}
use para_kv.Prelude.Bytes.{Bytes}
use para_kv.Status.{Status, ok}
use para_kv.Segment.Bitmap.{is_slot_occupied}
use para_kv.Segment.Base.Agrees.{occupied-lt}
use para_kv.Segment.BlockDev.{BlockDeviceIo, SegmentBlockDev, insert}
use para_kv.Segment.BlockDev.Batch.{
  Compacting, block_target, value_read, key_read, move_slot, compact_loop,
}
use para_kv.Segment.BlockDev.Device.{
  IsDevice, IsReady, extent, contents, pair_at, slot_at, slot_at-le, absolute_offset-slot,
}
use para_kv.Segment.BlockDev.Contents.{contents-on, contents-off}
use para_kv.Segment.BlockDev.Isolation.{AreApart, contents-agree}
use para_kv.Segment.BlockDev.Compaction.{
  Reached, Reached-failed, moved_slot-Reached, insert-Grown, Same,
}

module _ (io : BlockDeviceIo) (laws : IsDevice io) (s t : SegmentBlockDev) (d : io.Device)
    (rs : IsReady s) (rt : IsReady t) (apart : AreApart t s)
    (keys : s.base.config.key_size ≡ t.base.config.key_size)
    (values : s.base.config.value_size ≡ t.base.config.value_size) where
  abbrev State : Type 0
  State = Compacting SegmentBlockDev io.Device

  abbrev Inv : ℕ → State → Type 0
  Inv i c = Reached io laws s t d i c

  value_read-Reached :
      (i : ℕ) (c : State) (key : Bytes) (e : Status) (value : Bytes) (d3 : io.Device)
      → c.status ≡ ok
      → Inv i c
      → Same io laws s t d c.device d3
      → length key ≡ s.base.config.key_size
      → (e ≡ ok
          → (length value ≡ s.base.config.value_size)
            × (contents io laws s d i ≡ some (key, value)))
      → Inv (suc i) (value_read io (block_target io) s.base.segment_id i c key (e, value, d3))
  value_read-Reached i c key ok value d3 fine h same lk held =
      let out = insert io c.to d3 (some key) (some value) in
      moved_slot-Reached io laws s t d i c (key, value) out.0 out.1 out.2 out.3 (held refl).1 fine h
        (insert-Grown io laws s t d rs rt apart keys values i c d3 key value h same lk
          (held refl).0)
  value_read-Reached i c key e value d3 fine h same lk held =
      Reached-failed io laws s t d i (suc i) c e d3 h (λ f. cc) same

  -- The pair of an occupied slot, on the device as it is in the loop.
  source_pair :
      (i : ℕ) (c : State)
      → Inv i c
      → is_slot_occupied s.base.bitmap i ≡ true
      → contents io laws s d i ≡ some (pair_at io laws s c.device i)
  source_pair i c h on =
      sym (
        contents-agree io laws s d c.device t.base_lba_offset (t.base_lba_offset + extent t.base) i
          rs h.outside (omega arith))
      ∙ contents-on io laws s c.device i on

  slot_key_end :
      (i : ℕ)
      → is_slot_occupied s.base.bitmap i ≡ true
      → slot_at s i + s.base.config.key_size < 2 ^ 64
  slot_key_end i on =
      let below = occupied-lt i rs.valid on in
      omega (
        arith,
        slot_at-le s i (omega (arith, rs.valid.within)),
        rs.placed.no_wrap,
        rs.placed.layout.slot_width,
      )

  key_read-Reached :
      (i : ℕ) (c : State) (e : Status) (key : Bytes) (d2 : io.Device)
      → c.status ≡ ok
      → Inv i c
      → is_slot_occupied s.base.bitmap i ≡ true
      → Same io laws s t d c.device d2
      → (e ≡ ok → key ≡ laws.bytes_at c.device (slot_at s i) s.base.config.key_size)
      → Inv (suc i) (key_read io (block_target io) s i (slot_at s i) c (e, key, d2))
  key_read-Reached i c ok key d2 fine h on same held =
      let off = (slot_at s i + s.base.config.key_size) % 2 ^ 64 in
      let n = s.base.config.value_size in
      let v = io.read d2 n off in
      let e : off ≡ slot_at s i + s.base.config.key_size = mod-eq_of_lt (slot_key_end i on) in
      let stored = λ (done : v.0 ≡ ok).
        laws.read_ok d2 n off done ∙ same off n ∙ ap (λ (o : ℕ). laws.bytes_at c.device o n) e in
      value_read-Reached i c key v.0 v.1 v.2 fine h
        (λ at m. laws.read_keeps d2 n off at m ∙ same at m)
        (ap length (held refl) ∙ laws.length_bytes_at c.device (slot_at s i) s.base.config.key_size)
        (λ done. (
          ap length (stored done)
              ∙ laws.length_bytes_at c.device (slot_at s i + s.base.config.key_size) n,
          source_pair i c h on ∙ (λ k. some (sym (held refl) k, sym (stored done) k)),
        ))
  key_read-Reached i c e key d2 fine h on same held =
      Reached-failed io laws s t d i (suc i) c e d2 h (λ f. cc) same

  move_slot-Reached :
      (i : ℕ) (c : State)
      → c.status ≡ ok
      → Inv i c
      → is_slot_occupied s.base.bitmap i ≡ true
      → Inv (suc i) (move_slot io (block_target io) s i c)
  unfolding move_slot
  move_slot-Reached i c fine h on =
      let below = occupied-lt i rs.valid on in
      let e = absolute_offset-slot s i rs.placed (omega (arith, rs.valid.within)) in
      let n = s.base.config.key_size in
      let r = io.read c.device n (slot_at s i) in
      subst (λ (o : ℕ). Inv (suc i) (key_read io (block_target io) s i o c (io.read c.device n o)))
        (sym e)
        (key_read-Reached i c r.0 r.1 r.2 fine h on
          (λ at m. laws.read_keeps c.device n (slot_at s i) at m)
          (laws.read_ok c.device n (slot_at s i)))

  -- A free slot is passed over.
  Reached-free :
      (i : ℕ) (c : State) → Inv i c → is_slot_occupied s.base.bitmap i ≡ false → Inv (suc i) c
  Reached-free i c h off = record {
    ready = h.ready;
    place = h.place;
    outside = h.outside;
    kept = h.kept;
    moved = λ fine m p below held. elim (Bool-cases (i == m)) [
      | inl same ↦ absurd (
          none_some (
            sym (contents-off io laws s d i off)
            ∙ ap (contents io laws s d) ((==_iff i m).0 same)
            ∙ held))
      | inr other ↦ h.moved fine m p (ground arith) held
    ];
  }
    where
      none_some : {p : Bytes × Bytes} → none ≢ some p
      none_some e = cc

  next-Reached :
      (i : ℕ) (c : State)
      → c.status ≡ ok
      → Inv i c
      → Inv
          (suc i)
          (if is_slot_occupied s.base.bitmap i then move_slot io (block_target io) s i c else c)
  next-Reached i c fine h = elim (Bool-cases (is_slot_occupied s.base.bitmap i)) [
    | inl on ↦ simp on (move_slot-Reached i c fine h on)
    | inr off ↦ simp off (Reached-free i c h off)
  ]

  -- The early return.
  step-Reached :
      (e : Status) (m i : ℕ) (rest next : State)
      → next.status ≡ e
      → (e ≡ ok → Inv m rest)
      → Inv i next
      → Inv m (elim e as (λ _. State) [ ok ↦ rest | f ↦ next ])
  step-Reached ok m i rest next same go h = go refl
  step-Reached e m i rest next same go h = record {
    ready = h.ready;
    place = h.place;
    outside = h.outside;
    kept = h.kept;
    moved = λ done. cc;
  }

  pub loop-Reached :
      (n i : ℕ) (c : State)
      → c.status ≡ ok
      → Inv i c
      → Inv (n + i) (compact_loop io (block_target io) s n i c)
  unfolding compact_loop
  loop-Reached zero i c fine h = subst (λ (m : ℕ). Inv m c) (omega arith) h
  loop-Reached (suc n) i c fine h =
      let next =
        if is_slot_occupied s.base.bitmap i then move_slot io (block_target io) s i c else c in
      let stepped : Inv (i + 1) next =
        subst (λ (m : ℕ). Inv m next) (omega arith) (next-Reached i c fine h) in
      step-Reached next.status (suc n + i) (i + 1)
        (compact_loop io (block_target io) s n (i + 1) next) next refl
        (λ done.
          subst (λ (m : ℕ). Inv m (compact_loop io (block_target io) s n (i + 1) next))
            (omega arith) (loop-Reached n (i + 1) next done stepped))
        stepped
