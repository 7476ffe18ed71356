-- ===== src/Segment/BlockDev/Contents.antt =====
-- `Insert`, `Delete` and `Read` of a segment on a block device, as operations on the map that the
-- segment stores (parakv/core/segment/segment_block_dev.cc).
use mathlib.Core.Path.{subst}
use para_kv.Prelude.{
  ℕ, ◌+◌, ◌≤◌, ◌<◌, ◌≡◌, ◌≢◌, refl, sym, ap, ◌∙◌, ◌⊎◌, inl, inr, Bool, true, false, ◌&&◌, none,
  some, length, arith, ◌==◌, ==_iff, if◌then◌else◌, Bool-cases,
}
use para_kv.Prelude.Bytes.{Bytes}
use para_kv.Status.{Status, is_ok, ok}
use para_kv.Segment.Bitmap.{is_slot_occupied}
use para_kv.Segment.Base.Agrees.{occupied-lt}
use para_kv.Segment.File.Payload.{slots_apart}
use para_kv.Segment.BlockDev.{BlockDeviceIo, SegmentBlockDev, write_payload, insert_payload, insert}
use para_kv.Segment.BlockDev.Device.{
  IsDevice, IsPlaced, IsReady, contents, pair_at, slot_at, AgreeOutside, write_payload-AgreeOutside,
  write_payload-holds,
}
use para_kv.Segment.BlockDev.Place.{SamePlace-pair_at, SamePlace-IsReady}
use para_kv.Segment.BlockDev.Insertion.{Inserted, insert_payload-Inserted, insert-cases}

pub is_ok_sound : (e : Status) → is_ok e ≡ true → e ≡ ok
is_ok_sound ok h = refl
is_ok_sound _ h = cc

pub is_ok_complete : (e : Status) → e ≢ ok → is_ok e ≡ false
is_ok_complete ok h = absurd (h refl)
is_ok_complete _ h = refl

module _ (io : BlockDeviceIo) (laws : IsDevice io) where
  pub contents-on :
      (s : SegmentBlockDev) (d : io.Device) (j : ℕ)
      → is_slot_occupied s.base.bitmap j ≡ true
      → contents io laws s d j ≡ some (pair_at io laws s d j)
  unfolding contents
  contents-on s d j on = rw on refl

  pub contents-off :
      (s : SegmentBlockDev) (d : io.Device) (j : ℕ)
      → is_slot_occupied s.base.bitmap j ≡ false
      → contents io laws s d j ≡ none
  unfolding contents
  contents-off s d j off = rw off refl

  -- Devices that agree on a slot hold the same pair in it.
  pub pair_at-same :
      (s : SegmentBlockDev) (d d' : io.Device) (j from to : ℕ)
      → IsPlaced s
      → AgreeOutside io laws from to d d'
      → (slot_at s j + s.base.slot_size ≤ from) ⊎ (to ≤ slot_at s j)
      → pair_at io laws s d' j ≡ pair_at io laws s d j
  pair_at-same s d d' j from to r agree away =
      let w = r.layout.slot_width in
      λ i. (
        agree (slot_at s j) s.base.config.key_size (omega (arith, w)) i,
        agree (slot_at s j + s.base.config.key_size) s.base.config.value_size (omega (arith, w)) i,
      )

  module _ (s : SegmentBlockDev) (d : io.Device) (key value : Bytes) (r : IsReady s)
      (room : s.base.append_cursor < s.base.total_slots) where
    abbrev pub outcome : Status × ℕ × SegmentBlockDev × io.Device
    outcome =
        insert_payload io s s.base.append_cursor
          (write_payload io s d s.base.append_cursor key value)

    pub facts :
        Inserted io laws s
          (write_payload io s d s.base.append_cursor key value).0
          (write_payload io s d s.base.append_cursor key value).1
          outcome
    facts =
        let w = write_payload io s d s.base.append_cursor key value in
        insert_payload-Inserted io laws s w.0 w.1 r room

    -- The slots before the cursor keep their pairs.
    pair_before :
        (j : ℕ)
        → j < s.base.append_cursor
        → pair_at io laws outcome.2 outcome.3 j ≡ pair_at io laws s d j
    pair_before j below =
        let w = write_payload io s d s.base.append_cursor key value in
        let apart = slots_apart s.base.slot_size j s.base.append_cursor below in
        SamePlace-pair_at io laws outcome.2 s outcome.3 j facts.place
        ∙ pair_at-same s w.1 outcome.3 j _ _ r.placed facts.outside
            (inr (omega (arith, r.placed.layout.data_start)))
        ∙ pair_at-same s d w.1 j _ _ r.placed
            (write_payload-AgreeOutside io laws s d s.base.append_cursor key value r.placed room)
            (inl (omega arith))

    -- Where the status is `kOk`, the slot at the cursor holds the pair.
    pair_taken :
        length key ≡ s.base.config.key_size
        → length value ≡ s.base.config.value_size
        → outcome.0 ≡ ok
        → pair_at io laws outcome.2 outcome.3 s.base.append_cursor ≡ (key, value)
    pair_taken lk lv done =
        let c = s.base.append_cursor in
        let w = write_payload io s d c key value in
        SamePlace-pair_at io laws outcome.2 s outcome.3 c facts.place
        ∙ pair_at-same s w.1 outcome.3 c _ _ r.placed facts.outside
            (inr (omega (arith, r.placed.layout.data_start)))
        ∙ write_payload-holds io laws s d c key value r.placed room lk lv (facts.done done).0

    occupied_after :
        (j : ℕ) (b : Bool)
        → (if s.base.append_cursor == j then is_ok outcome.0 else is_slot_occupied s.base.bitmap j)
          ≡ b
        → is_slot_occupied outcome.2.base.bitmap j ≡ b
    occupied_after j b e = facts.occupied j ∙ e

    contents-cursor :
        (b : Bool)
        → is_ok outcome.0 ≡ b
        → length key ≡ s.base.config.key_size
        → length value ≡ s.base.config.value_size
        → contents io laws outcome.2 outcome.3 s.base.append_cursor
          ≡ (if b then some (key, value) else contents io laws s d s.base.append_cursor)
    contents-cursor true e lk lv =
        let c = s.base.append_cursor in
        contents-on outcome.2 outcome.3 c (occupied_after c true (ground (arith, e)))
        ∙ ap some (pair_taken lk lv (is_ok_sound outcome.0 e))
    contents-cursor false e lk lv =
        let c = s.base.append_cursor in
        contents-off outcome.2 outcome.3 c (occupied_after c false (ground (arith, e)))
        ∙ sym (contents-off s d c (r.valid.fresh c (omega arith)))

    contents-other :
        (j : ℕ)
        → (s.base.append_cursor == j) ≡ false
        → contents io laws outcome.2 outcome.3 j ≡ contents io laws s d j
    contents-other j other = elim (Bool-cases (is_slot_occupied s.base.bitmap j)) [
      | inl on ↦
          contents-on outcome.2 outcome.3 j (occupied_after j true (ground (arith, other, on)))
          ∙ ap some (pair_before j (occupied-lt j r.valid on))
          ∙ sym (contents-on s d j on)
      | inr off ↦
          contents-off outcome.2 outcome.3 j (occupied_after j false (ground (arith, other, off)))
          ∙ sym (contents-off s d j off)
    ]

    contents-outcome :
        (j : ℕ)
        → length key ≡ s.base.config.key_size
        → length value ≡ s.base.config.value_size
        → contents io laws outcome.2 outcome.3 j ≡ (
            if is_ok outcome.0 && (s.base.append_cursor == j)
            then some (key, value)
            else contents io laws s d j)
    contents-outcome j lk lv = elim (Bool-cases (s.base.append_cursor == j)) [
      | inr other ↦ contents-other j other ∙ ground (arith, other)
      | inl here ↦
          subst
            (λ (k : ℕ). contents io laws outcome.2 outcome.3 k ≡ (
              if is_ok outcome.0 && (s.base.append_cursor == k)
              then some (key, value)
              else contents io laws s d k))
            ((==_iff _ _).0 here) (contents-cursor (is_ok outcome.0) refl lk lv ∙ ground arith)
    ]

  -- From a ready segment, `Insert` of a key and a value of the configured sizes changes the stored
  -- map at the slot at the cursor, to the pair, where it answers `kOk`, and nowhere where it fails,
  -- whatever failed; the segment is ready again.
  pub contents-insert :
      (s : SegmentBlockDev) (d : io.Device) (key value : Bytes)
      → IsReady s
      → length key ≡ s.base.config.key_size
      → length value ≡ s.base.config.value_size
      → let out = insert io s d (some key) (some value) in
        IsReady out.2
        × ((j : ℕ)
            → contents io laws out.2 out.3 j ≡ (
                if is_ok out.0 && (s.base.append_cursor == j)
                then some (key, value)
                else contents io laws s d j))
  contents-insert s d key value r lk lv = elim (insert-cases io laws s d key value) [
    | inl (same, dev, failed) ↦ (
      subst IsReady (sym same) r,
      λ j. (λ i. contents io laws (same i) (dev i) j) ∙ sym (rw (is_ok_complete _ failed) refl),
    )
    | inr (room, e) ↦
        subst
          (λ (out : Status × ℕ × SegmentBlockDev × io.Device).
            IsReady out.2
            × ((j : ℕ)
                → contents io laws out.2 out.3 j ≡ (
                    if is_ok out.0 && (s.base.append_cursor == j)
                    then some (key, value)
                    else contents io laws s d j)))
          (sym e)
          (
            SamePlace-IsReady io laws _ s (facts s d key value r room).place
                (facts s d key value r room).valid r,
            λ j. contents-outcome s d key value r room j lk lv,
          )
  ]

  -- The slot that a successful insertion assigns is the one at the cursor.
  pub insert-slot :
      (s : SegmentBlockDev) (d : io.Device) (key value : Bytes)
      → IsReady s
      → (insert io s d (some key) (some value)).0 ≡ ok
      → (insert io s d (some key) (some value)).1 ≡ s.base.append_cursor
  insert-slot s d key value r done = elim (insert-cases io laws s d key value) [
    | inl (_, _, failed) ↦ absurd (failed done)
    | inr (room, e) ↦
        ap (λ (out : Status × ℕ × SegmentBlockDev × io.Device). out.1) e
        ∙ ((facts s d key value r room).done
            (ap (λ (out : Status × ℕ × SegmentBlockDev × io.Device). out.0) (sym e) ∙ done)).1
  ]

  module _ (s : SegmentBlockDev) (d : io.Device) (key value : Bytes) (r : IsReady s)
      (lk : length key ≡ s.base.config.key_size)
      (lv : length value ≡ s.base.config.value_size) where
    -- A stored pair survives any insertion.
    pub insert-keeps :
        (j : ℕ) (p : Bytes × Bytes)
        → contents io laws s d j ≡ some p
        → let out = insert io s d (some key) (some value) in contents io laws out.2 out.3 j ≡ some p
    insert-keeps j p held = elim (Bool-cases (s.base.append_cursor == j)) [
      | inl here ↦ absurd (
          none_stored (
            sym (
              contents-off s d s.base.append_cursor
                (r.valid.fresh s.base.append_cursor (omega arith)))
            ∙ ap (contents io laws s d) ((==_iff _ _).0 here)
            ∙ held))
      | inr other ↦ (contents-insert s d key value r lk lv).1 j ∙ ground (arith, other) ∙ held
    ]
      where
        none_stored : none ≢ some p
        none_stored e = cc

    -- The pair that a successful insertion was given is stored at the slot that it assigns.
    pub insert-stores :
        let out = insert io s d (some key) (some value) in
        out.0 ≡ ok → contents io laws out.2 out.3 out.1 ≡ some (key, value)
    insert-stores done =
        let out = insert io s d (some key) (some value) in
        ap (contents io laws out.2 out.3) (insert-slot s d key value r done)
        ∙ (contents-insert s d key value r lk lv).1 s.base.append_cursor
        ∙ ground (arith, done)
