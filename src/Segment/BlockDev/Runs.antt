-- ===== src/Segment/BlockDev/Runs.antt =====
-- Segments that share a block device do not disturb each other
-- (parakv/core/segment/segment_block_dev.cc).
use para_kv.Prelude.{
  ℕ, zero, suc, ◌+◌, ◌-◌, ◌%◌, ◌^◌, ◌≤◌, refl, ◌∙◌, inl, inr, Bool, true, false, Option, none, some,
  List, [], take, drop, arith, ltb, leb, if◌then◌else◌, Bool-cases, not,
}
use para_kv.Prelude.Bytes.{Bytes}
use para_kv.Status.{Status, ok}
use para_kv.Segment.Bitmap.{is_slot_occupied}
use para_kv.Segment.Base.{update_state, get_slot_offset}
use para_kv.Segment.File.Batch.{set_bits}
use para_kv.Segment.BlockDev.{
  BlockDeviceIo, SegmentBlockDev, flush_bitmap, write_payload, read_into, read_value, read,
  absolute_offset,
}
use para_kv.Segment.BlockDev.Batch.{
  then_slot, write_batch, batch_flushed, batch_written, batch_insert,
}
use para_kv.Segment.BlockDev.Device.{IsDevice, AgreeOutside, extent}
use para_kv.Segment.BlockDev.Place.{SamePlace-refl}
use para_kv.Segment.BlockDev.Confined.{
  IsBounded, Confined, Confined-refl, flush-outside, payload-outside,
}
use para_kv.Segment.BlockDev.Steps.{length-set_bits}

module _ (io : BlockDeviceIo) (laws : IsDevice io) (s : SegmentBlockDev) (d : io.Device)
    (b : IsBounded s) where
  abbrev Range : io.Device → Type 0
  Range = AgreeOutside io laws s.base_lba_offset (s.base_lba_offset + extent s.base) d

  -- `Read`.
  read_into-Range :
      (want : Bool) (n off : ℕ) (d' : io.Device) → Range d' → Range (read_into io want d' n off).2
  unfolding read_into
  read_into-Range true n off d' range at m away = laws.read_keeps d' n off at m ∙ range at m away
  read_into-Range false n off d' range at m away = range at m away

  read_value-Range :
      (want : Bool) (off : ℕ) (e : Status) (key : Option Bytes) (d' : io.Device)
      → Range d'
      → Range (read_value io s want off (e, key, d')).3
  read_value-Range want off ok key d' range =
      read_into-Range want s.base.config.value_size ((off + s.base.config.key_size) % 2 ^ 64) d'
        range
  read_value-Range want off e key d' range = range

  same-Range : Range d
  same-Range at n away = refl

  either-Range :
      (c : Bool) (x y : Status × Option Bytes × Option Bytes × io.Device)
      → Range x.3
      → Range y.3
      → Range (if c then x else y).3
  either-Range true x y h k = h
  either-Range false x y h k = k

  pub read-Range :
      (slot : ℕ) (want_key want_value : Bool) → Range (read io s d slot want_key want_value).3
  unfolding read
  read-Range slot want_key want_value =
      let off = absolute_offset s (get_slot_offset s.base slot) in
      let k = read_into io want_key d s.base.config.key_size off in
      either-Range (leb s.base.total_slots slot) _ _ same-Range (
        either-Range (not s.opened) _ _ same-Range (
          either-Range (not (is_slot_occupied s.base.bitmap slot)) _ _ same-Range (
            read_value-Range want_value off k.0 k.1 k.2
              (read_into-Range want_key s.base.config.key_size off d same-Range))))

  -- `BatchInsert`.
  step-Range :
      (sid : ℕ) (e : Status) (x : Status × List ℕ × io.Device) (d' : io.Device)
      → Range x.2
      → Range d'
      → Range
          (elim e as (λ _. Status × List ℕ × io.Device) [
            | ok ↦ then_slot io sid x
            | f ↦ (f, [], d')
          ]).2
  step-Range sid ok x d' h k = h
  step-Range sid _ x d' h k = k

  write_batch-Range :
      (n sid : ℕ) (keys values : Bytes) (e : Status) (d' : io.Device)
      → sid + n ≤ s.base.total_slots
      → Range d'
      → Range (write_batch io s n sid keys values (e, d')).2
  unfolding write_batch
  write_batch-Range zero sid keys values e d' h range = range
  write_batch-Range (suc n) sid keys values ok d' h range =
      let c = s.base.config in
      let w = write_payload io s d' sid (take c.key_size keys) (take c.value_size values) in
      let after : Range w.1 = λ at m away.
        payload-outside io laws s d' b sid (take c.key_size keys) (take c.value_size values)
          (omega arith) at m away
        ∙ range at m away in
      let rest =
        write_batch-Range n ((sid + 1) % 2 ^ 32) (drop c.key_size keys) (drop c.value_size values)
          w.0 w.1 (omega (arith, b.small)) after in
      step-Range sid w.0 _ w.1 rest after
  write_batch-Range (suc n) sid keys values e d' h range = range

  batch_flushed-Confined :
      (count : ℕ) (sids : List ℕ) (e : Status) (d' : io.Device)
      → s.base.append_cursor + count ≤ s.base.total_slots
      → Range d'
      → let t = record s { base = record s.base { bitmap = set_bits sids s.base.bitmap } } in
        let out = batch_flushed io t count sids (e, d') in Confined io laws s d out.2 out.3
  unfolding update_state
  batch_flushed-Confined count sids ok d' h range = record {
    place = record {
      config = refl;
      data_start = refl;
      width = refl;
      slots = refl;
      lba = refl;
      size = refl;
      id = refl;
      bits = length-set_bits sids s.base.bitmap;
    };
    within = omega (arith, b.small);
    outside = range;
  }
  batch_flushed-Confined count sids e d' h range = record {
    place = record {
      config = refl;
      data_start = refl;
      width = refl;
      slots = refl;
      lba = refl;
      size = refl;
      id = refl;
      bits = length-set_bits sids s.base.bitmap;
    };
    within = b.within;
    outside = range;
  }

  batch_written-Confined :
      (count : ℕ) (e : Status) (sids : List ℕ) (d' : io.Device)
      → s.base.append_cursor + count ≤ s.base.total_slots
      → Range d'
      → let out = batch_written io s count (e, sids, d') in Confined io laws s d out.2 out.3
  batch_written-Confined count ok sids d' h range =
      let bm = set_bits sids s.base.bitmap in
      let f = flush_bitmap io (record s { base = record s.base { bitmap = bm } }) d' in
      batch_flushed-Confined count sids f.0 f.1 h (λ at n away.
        flush-outside io laws s d' bm b (length-set_bits sids s.base.bitmap) at n away
        ∙ range at n away)
  batch_written-Confined count e sids d' h range = record {
    place = SamePlace-refl s;
    within = b.within;
    outside = range;
  }

  pub batch_insert-Confined :
      (keys values : Option Bytes) (n : ℕ)
      → let out = batch_insert io s d keys values n in Confined io laws s d out.2 out.3
  unfolding batch_insert
  batch_insert-Confined (some keys) (some values) (suc n) = elim (Bool-cases s.opened) [
    | inr closed ↦ simp closed (Confined-refl io laws s d b)
    | inl open_ ↦
        elim (Bool-cases
          (ltb ((s.base.total_slots + 2 ^ 32 - s.base.append_cursor) % 2 ^ 32) (suc n))) [
            | inl many ↦ simp (open_, many) (Confined-refl io laws s d b)
            | inr fit ↦
                let room : s.base.append_cursor + suc n ≤ s.base.total_slots =
                  ground (arith, b.within, b.small, fit) in
                let w = write_batch io s (suc n) s.base.append_cursor keys values (ok, d) in
                simp (open_, fit)
                  (batch_written-Confined (suc n) w.0 w.1 w.2 room (
                    write_batch-Range (suc n) s.base.append_cursor keys values ok d room
                      same-Range))
          ]
  ]
  batch_insert-Confined (some keys) (some values) zero = Confined-refl io laws s d b
  batch_insert-Confined (some keys) none n = Confined-refl io laws s d b
  batch_insert-Confined none values n = Confined-refl io laws s d b
