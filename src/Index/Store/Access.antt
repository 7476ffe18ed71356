-- ===== src/Index/Store/Access.antt =====
-- The data path of `Index` (parakv/core/index/index.cc): `Put`, `Get`, `Delete`, their raw forms,
-- and what compaction calls. The segment that a pointer points to is in the manager; where the
-- source would follow a null pointer of its own tables, the model answers `kIOError`.
use para_kv.Prelude.{ℕ, not, Option, none, some, take, ◌==◌, if◌then◌else◌}
use para_kv.Prelude.Bytes.{Bytes}
use para_kv.Status.{Status, ok, io_error, invalid_argument, not_found, no_space, full}
use para_kv.Index.Offset.{
  flag_value, segment_slot, encode_segment_slot, get_flag, get_segment_id, get_slot_id,
}
use para_kv.Index.Table.{MapCalls}
use para_kv.Index.Wal.Record.{WalRecord, k_insert, k_update, k_delete}
use para_kv.Index.Store.{Options, Index, CheckpointCalls, append_wal}
use para_kv.Segment.Base.{Segment}
use para_kv.Segment.File.{insert, delete, read}
use para_kv.Segment.Manager.{
  with_segment, SegmentManager, get_segment, mark_segment_full, get_active_segment,
}

abbrev pub insert_found :
    SegmentManager → Bytes → Bytes → Option Segment → Status × ℕ × SegmentManager
insert_found m key value none = (io_error, 0, m)
insert_found m key value (some s) =
    let (e, slot, s') = insert s (some key) (some value) in (e, slot, with_segment m s')

abbrev pub insert_at : SegmentManager → ℕ → Bytes → Bytes → Status × ℕ × SegmentManager
insert_at m id key value = insert_found m key value (get_segment m.segments id)

abbrev pub addressed : ℕ → Status × ℕ × SegmentManager → Status × ℕ × SegmentManager
addressed id (ok, slot, m) = (ok, encode_segment_slot id slot, m)
addressed id (e, slot, m) = (e, 0, m)

abbrev pub insert_again : Bytes → Bytes → Option ℕ × SegmentManager → Status × ℕ × SegmentManager
insert_again key value (none, m) = (no_space, 0, m)
insert_again key value (some id, m) = addressed id (insert_at m id key value)

abbrev pub insert_first :
    Bytes → Bytes → ℕ → Status × ℕ × SegmentManager → Status × ℕ × SegmentManager
insert_first key value id (full, slot, m) =
    insert_again key value (get_active_segment (mark_segment_full m id).1)
insert_first key value id r = addressed id r

abbrev pub write_active : Bytes → Bytes → Option ℕ × SegmentManager → Status × ℕ × SegmentManager
write_active key value (none, m) = (no_space, 0, m)
write_active key value (some id, m) = insert_first key value id (insert_at m id key value)

-- `WriteToSegment`.
unfoldable pub write_to_segment : SegmentManager → Bytes → Bytes → Status × ℕ × SegmentManager
write_to_segment m key value = write_active key value (get_active_segment m)

abbrev pub free_found : SegmentManager → ℕ → Option Segment → Status × SegmentManager
free_found m slot none = (not_found, m)
free_found m slot (some s) = let (e, s') = delete s slot in (e, with_segment m s')

unfoldable pub free_slot : SegmentManager → ℕ → Status × SegmentManager
free_slot m encoded =
    if not (get_flag encoded == flag_value segment_slot)
    then (ok, m)
    else free_found m (get_slot_id encoded) (get_segment m.segments (get_segment_id encoded))

module _ (o : MapCalls) (opts : Options) where
  unfoldable pub lookup : Index o → Bytes → Option ℕ
  lookup ix key = o.find ix.map key

  abbrev freed : Index o → ℕ → Index o
  freed ix encoded = record ix { manager = (free_slot ix.manager encoded).1 }

  -- The end of `Put`, by what the key mapped to before and the result of `AppendWal`.
  abbrev pub put_logged : Bytes → ℕ → Option ℕ → Status × Index o → Status × Index o
  put_logged key new_enc none (ok, ix) = (ok, ix)
  put_logged key new_enc (some old_enc) (ok, ix) = (ok, freed ix old_enc)
  put_logged key new_enc none (e, ix) = (e, freed (record ix { map = o.erase ix.map key }) new_enc)
  put_logged key new_enc (some old_enc) (e, ix) =
      (e, freed (record ix { map = o.assign ix.map key old_enc }) new_enc)

  abbrev pub put_record : Bytes → ℕ → Option ℕ → WalRecord
  put_record key new_enc none = record {
    type = k_insert;
    key = key;
    disk_addr = new_enc;
    old_disk_addr = 0;
  }
  put_record key new_enc (some old_enc) = record {
    type = k_update;
    key = key;
    disk_addr = new_enc;
    old_disk_addr = old_enc;
  }

  -- `Put` from the installation in the map on.
  unfoldable pub install : CheckpointCalls → Index o → Bytes → ℕ → Status × Index o
  install c ix key new_enc =
      let old = o.find ix.map key in
      put_logged key new_enc old (
        append_wal o opts c (record ix { map = o.assign ix.map key new_enc })
          (put_record key new_enc old))

  abbrev pub put_written :
      CheckpointCalls → Index o → Bytes → Status × ℕ × SegmentManager → Status × Index o
  put_written c ix key (ok, new_enc, m) = install c (record ix { manager = m }) key new_enc
  put_written c ix key (e, new_enc, m) = (e, record ix { manager = m })

  -- `Put`: the value's buffer and its size; the segment manager is taken to be there.
  unfoldable pub put : CheckpointCalls → Index o → Bytes → Option Bytes → ℕ → Status × Index o
  unfolding install
  put c ix key none value_size = (invalid_argument, ix)
  put c ix key (some value) value_size =
      if not (value_size == opts.value_size)
      then (invalid_argument, ix)
      else put_written c ix key (write_to_segment ix.manager key value)

  abbrev pub read_found : Index o → ℕ → Option Segment → Status × Option Bytes × Index o
  read_found ix encoded none = (not_found, none, ix)
  read_found ix encoded (some s) =
      let (e, key, value, s') = read s (get_slot_id encoded) in
      (e, value, record ix { manager = with_segment ix.manager s' })

  abbrev pub read_at : Index o → ℕ → Status × Option Bytes × Index o
  read_at ix encoded =
      read_found ix encoded (get_segment ix.manager.segments (get_segment_id encoded))

  -- `Get` into a buffer that is there: the status, the value where it was filled, the state.
  unfoldable pub get : Index o → Bytes → ℕ → Status × Option Bytes × Index o
  get ix key value_size =
      if not (value_size == opts.value_size)
      then (invalid_argument, none, ix)
      else elim (o.find ix.map key) [
        | none ↦ (not_found, none, ix)
        | some enc ↦
            if not (get_flag enc == flag_value segment_slot)
            then (not_found, none, ix)
            else read_at ix enc
      ]

  abbrev pub delete_logged : Bytes → ℕ → Status × Index o → Status × Index o
  delete_logged key old_enc (ok, ix) = (ok, freed ix old_enc)
  delete_logged key old_enc (e, ix) = (e, record ix { map = o.assign ix.map key old_enc })

  abbrev pub delete_record : Bytes → ℕ → WalRecord
  delete_record key old_enc = record {
    type = k_delete;
    key = key;
    disk_addr = 0;
    old_disk_addr = old_enc;
  }

  abbrev pub delete_found : CheckpointCalls → Index o → Bytes → Option ℕ → Status × Index o
  delete_found c ix key none = (not_found, ix)
  delete_found c ix key (some old_enc) =
      delete_logged key old_enc
        (append_wal o opts c (record ix { map = o.erase ix.map key }) (delete_record key old_enc))

  -- `Delete`.
  unfoldable pub delete_key : CheckpointCalls → Index o → Bytes → Status × Index o
  delete_key c ix key = delete_found c ix key (o.find ix.map key)

  -- `RemapIfEquals`.
  unfoldable pub remap_if_equals : Index o → Bytes → ℕ → ℕ → Status × Index o
  remap_if_equals ix key old_off new_off = elim (o.find ix.map key) [
    | none ↦ (not_found, ix)
    | some v ↦
        if v == old_off
        then (ok, record ix { map = o.assign ix.map key new_off })
        else (not_found, ix)
  ]

  -- The callback that `AttachToSegmentManager` sets: its log record comes before the map.
  unfoldable pub on_slot_moved : CheckpointCalls → Index o → Bytes → ℕ → ℕ → ℕ → ℕ → Index o
  unfolding remap_if_equals
  on_slot_moved c ix key old_seg old_slot new_seg new_slot =
      let old_enc = encode_segment_slot old_seg old_slot in
      let new_enc = encode_segment_slot new_seg new_slot in
      let logged =
        append_wal o opts c ix
          (record { type = k_update; key = key; disk_addr = new_enc; old_disk_addr = old_enc }) in
      (remap_if_equals logged.1 key old_enc new_enc).1

  -- `PutRaw`, `GetRaw` and `DeleteRaw`: the key's buffer and its size.
  unfoldable pub put_raw :
      CheckpointCalls → Index o → Option Bytes → ℕ → Option Bytes → ℕ → Status × Index o
  unfolding put
  put_raw c ix none key_size value value_size = (invalid_argument, ix)
  put_raw c ix (some key_input) key_size value value_size =
      if not (key_size == opts.key_size)
      then (invalid_argument, ix)
      else put c ix (take opts.key_size key_input) value value_size

  unfoldable pub get_raw : Index o → Option Bytes → ℕ → ℕ → Status × Option Bytes × Index o
  unfolding get
  get_raw ix none key_size value_size = (invalid_argument, none, ix)
  get_raw ix (some key_input) key_size value_size =
      if not (key_size == opts.key_size)
      then (invalid_argument, none, ix)
      else get ix (take opts.key_size key_input) value_size

  unfoldable pub delete_raw : CheckpointCalls → Index o → Option Bytes → ℕ → Status × Index o
  unfolding delete_key
  delete_raw c ix none key_size = (invalid_argument, ix)
  delete_raw c ix (some key_input) key_size =
      if not (key_size == opts.key_size)
      then (invalid_argument, ix)
      else delete_key c ix (take opts.key_size key_input)

  unfoldable pub lookup_raw : Index o → Option Bytes → ℕ → Status × Option ℕ
  unfolding lookup
  lookup_raw ix none key_size = (invalid_argument, none)
  lookup_raw ix (some key_input) key_size =
      if not (key_size == opts.key_size)
      then (invalid_argument, none)
      else elim (lookup ix (take opts.key_size key_input)) [
        | none ↦ (not_found, none)
        | some enc ↦ (ok, some enc)
      ]
