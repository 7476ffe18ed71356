-- ===== src/Index/Store/Durable/Writes.antt =====
-- `Put` and `Delete` that succeed are in the log or in the snapshot
-- (parakv/core/index/index.cc).
use mathlib.Core.Path.{subst}
use para_kv.Prelude.{
  ℕ, ◌<◌, ◌^◌, ◌≡◌, refl, sym, ap, ◌∙◌, inl, inr, true, Option, none, some, length, arith,
  Bool-cases, ◌==◌,
}
use para_kv.Prelude.Bytes.{Bytes}
use para_kv.Status.{Status, ok, invalid_argument}
use para_kv.Index.Table.{MapCalls, IsMap}
use para_kv.Index.Wal.Record.{WalRecord, IsRecord}
use para_kv.Index.Wal.Writer.{WalWriter, append_record, open_writer, close_writer}
use para_kv.Index.Store.{
  Options, Index, CheckpointCalls, rotate_wal, rotated, checkpoint, append_wal, appended,
  apply_record,
}
use para_kv.Index.Store.Access.{
  put, put_written, install, put_logged, put_record, delete_key, delete_found, delete_record,
  delete_logged, write_to_segment,
}
use para_kv.Index.Store.Durable.{IsDurable, append_wal-IsDurable}
use para_kv.Segment.Manager.{SegmentManager}

module _ (o : MapCalls) (laws : IsMap o) (opts : Options) (c : CheckpointCalls) where
  rotated-map : (ix : Index o) (r : Status × WalWriter) → (rotated o ix r).1.map ≡ ix.map
  rotated-map ix (ok, w) = refl
  rotated-map ix (e, w) = refl

  rotate_wal-map : (ix : Index o) → (rotate_wal o c ix).1.map ≡ ix.map
  unfolding rotate_wal
  rotate_wal-map ix =
      ground (arith, rotated-map ix (open_writer (close_writer ix.wal).1 true c.reopened c.stated))

  checkpoint-map : (ix : Index o) → (checkpoint o opts c ix).1.map ≡ ix.map
  unfolding checkpoint
  checkpoint-map ix =
      ground (arith, rotate_wal-map (record ix { snapshot = some (o.phmap_dump ix.map) }))

  appended-map : (ix : Index o) (r : Status × WalWriter) → (appended o opts c ix r).1.map ≡ ix.map
  appended-map ix (ok, w) =
      ground (arith, checkpoint-map (record ix { wal = w; wal_bytes = w.bytes_written }))
  appended-map ix (e, w) = refl

  pub append_wal-map :
      (ix : Index o) (rec : WalRecord) → (append_wal o opts c ix rec).1.map ≡ ix.map
  unfolding append_wal
  append_wal-map ix rec = ground (arith, appended-map ix (append_record opts.key_size ix.wal rec))

  put_logged-IsDurable :
      (key : Bytes) (new_enc : ℕ) (old : Option ℕ) (r : Status × Index o) (m : o.Map)
      → (r.0 ≡ ok → r.1.logging ≡ true → IsDurable o laws opts.key_size r.1 m)
      → r.1.map ≡ m
      → (put_logged o opts key new_enc old r).0 ≡ ok
      → (put_logged o opts key new_enc old r).1.logging ≡ true
      → IsDurable o laws opts.key_size (put_logged o opts key new_enc old r).1 m
        × ((put_logged o opts key new_enc old r).1.map ≡ m)
  put_logged-IsDurable key new_enc none (ok, ix) m d e done still = (d refl still, e)
  put_logged-IsDurable key new_enc (some old_enc) (ok, ix) m d e done still =
      let v = d refl still in
      (
        record {
          base = v.base;
          recs = v.recs;
          based = v.based;
          fine = v.fine;
          logged = v.logged;
          ends = v.ends;
          same = v.same;
        },
        e,
      )
  put_logged-IsDurable key new_enc none (s, ix) m d e done still = cc
  put_logged-IsDurable key new_enc (some old_enc) (s, ix) m d e done still = cc

  delete_logged-IsDurable :
      (key : Bytes) (old_enc : ℕ) (r : Status × Index o) (m : o.Map)
      → (r.0 ≡ ok → r.1.logging ≡ true → IsDurable o laws opts.key_size r.1 m)
      → r.1.map ≡ m
      → (delete_logged o opts key old_enc r).0 ≡ ok
      → (delete_logged o opts key old_enc r).1.logging ≡ true
      → IsDurable o laws opts.key_size (delete_logged o opts key old_enc r).1 m
        × ((delete_logged o opts key old_enc r).1.map ≡ m)
  delete_logged-IsDurable key old_enc (ok, ix) m d e done still =
      let v = d refl still in
      (
        record {
          base = v.base;
          recs = v.recs;
          based = v.based;
          fine = v.fine;
          logged = v.logged;
          ends = v.ends;
          same = v.same;
        },
        e,
      )
  delete_logged-IsDurable key old_enc (s, ix) m d e done still = cc

  put_record-assigns :
      (m : o.Map) (key : Bytes) (new_enc : ℕ) (old : Option ℕ)
      → apply_record o m (put_record o opts key new_enc old) ≡ o.assign m key new_enc
  unfolding apply_record
  put_record-assigns m key new_enc none = refl
  put_record-assigns m key new_enc (some old_enc) = refl

  put_record-IsRecord :
      (key : Bytes) (new_enc : ℕ) (old : Option ℕ)
      → length key ≡ opts.key_size
      → new_enc < 2 ^ 64
      → ((v : ℕ) → old ≡ some v → v < 2 ^ 64)
      → IsRecord opts.key_size (put_record o opts key new_enc old)
  put_record-IsRecord key new_enc none len new_fits old_fits = record {
    type_fits = omega arith;
    key_fits = len;
    addr_fits = new_fits;
    old_addr_fits = omega arith;
  }
  put_record-IsRecord key new_enc (some v) len new_fits old_fits = record {
    type_fits = omega arith;
    key_fits = len;
    addr_fits = new_fits;
    old_addr_fits = old_fits v refl;
  }

  install-IsDurable :
      (ix : Index o) (key : Bytes) (new_enc : ℕ)
      → ix.logging ≡ true
      → IsDurable o laws opts.key_size ix ix.map
      → length key ≡ opts.key_size
      → new_enc < 2 ^ 64
      → ((v : ℕ) → o.find ix.map key ≡ some v → v < 2 ^ 64)
      → (install o opts c ix key new_enc).0 ≡ ok
      → (install o opts c ix key new_enc).1.logging ≡ true
      → IsDurable o laws opts.key_size
          (install o opts c ix key new_enc).1
          (o.assign ix.map key new_enc)
        × ((install o opts c ix key new_enc).1.map ≡ o.assign ix.map key new_enc)
  unfolding install
  install-IsDurable ix key new_enc on d len new_fits old_fits =
      let old = o.find ix.map key in
      let rec = put_record o opts key new_enc old in
      let written = record ix { map = o.assign ix.map key new_enc } in
      put_logged-IsDurable key new_enc old (append_wal o opts c written rec)
        (o.assign ix.map key new_enc)
        (append_wal-IsDurable o laws opts c written ix.map rec on
          (record {
            base = d.base;
            recs = d.recs;
            based = d.based;
            fine = d.fine;
            logged = d.logged;
            ends = d.ends;
            same = d.same;
          })
          (put_record-IsRecord key new_enc old len new_fits old_fits)
          (λ q. ap (λ (n : o.Map). o.find n q) (put_record-assigns ix.map key new_enc old)))
        (append_wal-map written rec)

  put_written-IsDurable :
      (ix : Index o) (key : Bytes) (w : Status × ℕ × SegmentManager)
      → ix.logging ≡ true
      → IsDurable o laws opts.key_size ix ix.map
      → length key ≡ opts.key_size
      → w.1 < 2 ^ 64
      → ((v : ℕ) → o.find ix.map key ≡ some v → v < 2 ^ 64)
      → (put_written o opts c ix key w).0 ≡ ok
      → (put_written o opts c ix key w).1.logging ≡ true
      → IsDurable o laws opts.key_size
          (put_written o opts c ix key w).1
          (put_written o opts c ix key w).1.map
        × (o.find (put_written o opts c ix key w).1.map key ≡ some w.1)
  put_written-IsDurable ix key (ok, new_enc, m) on d len new_fits old_fits done still =
      let (v, e) =
        install-IsDurable (record ix { manager = m }) key new_enc on
          (record {
            base = d.base;
            recs = d.recs;
            based = d.based;
            fine = d.fine;
            logged = d.logged;
            ends = d.ends;
            same = d.same;
          })
          len new_fits old_fits done still in
      (
        subst
            (λ (n : o.Map).
              IsDurable o laws opts.key_size
                (install o opts c (record ix { manager = m }) key new_enc).1 n)
            (sym e) v,
        ap (λ (n : o.Map). o.find n key) e ∙ laws.find-assign ix.map key new_enc,
      )
  put_written-IsDurable ix key (s, new_enc, m) on d len new_fits old_fits done still = cc

  -- A `Put` that returns `kOk` on an index whose snapshot and log stand for its map, and that
  -- leaves a log (it does where a checkpoint that falls due reopens the log): the key then maps to
  -- the address of the written slot, and the snapshot and the log stand for the new map.
  -- Keys have the configured size, and addresses fit 64 bits.
  pub put-IsDurable :
      (ix : Index o) (key value : Bytes) (value_size : ℕ)
      → ix.logging ≡ true
      → IsDurable o laws opts.key_size ix ix.map
      → length key ≡ opts.key_size
      → (write_to_segment ix.manager key value).1 < 2 ^ 64
      → ((v : ℕ) → o.find ix.map key ≡ some v → v < 2 ^ 64)
      → (put o opts c ix key (some value) value_size).0 ≡ ok
      → (put o opts c ix key (some value) value_size).1.logging ≡ true
      → IsDurable o laws opts.key_size
          (put o opts c ix key (some value) value_size).1
          (put o opts c ix key (some value) value_size).1.map
        × (o.find (put o opts c ix key (some value) value_size).1.map key
            ≡ some (write_to_segment ix.manager key value).1)
  unfolding put
  put-IsDurable ix key value value_size on d len new_fits old_fits =
      elim (Bool-cases (value_size == opts.value_size)) [
        | inr other ↦ simp other (λ done. absurd (invalid_is_not_ok done))
        | inl same ↦ simp same (
            put_written-IsDurable ix key (write_to_segment ix.manager key value) on d len new_fits
              old_fits)
      ]
    where
      invalid_is_not_ok : invalid_argument ≡ ok → ⊥
      invalid_is_not_ok e = cc

  delete_found-IsDurable :
      (ix : Index o) (key : Bytes) (old_enc : ℕ)
      → ix.logging ≡ true
      → IsDurable o laws opts.key_size ix ix.map
      → length key ≡ opts.key_size
      → old_enc < 2 ^ 64
      → let r = delete_logged o opts key old_enc (
          append_wal o opts c
            (record ix { map = o.erase ix.map key })
            (delete_record o opts key old_enc)) in
        r.0 ≡ ok
        → r.1.logging ≡ true
        → IsDurable o laws opts.key_size r.1 r.1.map × (o.find r.1.map key ≡ none)
  delete_found-IsDurable ix key old_enc on d len fits done still =
      let rec = delete_record o opts key old_enc in
      let erased = record ix { map = o.erase ix.map key } in
      let r = append_wal o opts c erased rec in
      let removes : apply_record o ix.map rec ≡ o.erase ix.map key = unfold apply_record in refl in
      let (v, e) =
        delete_logged-IsDurable key old_enc r (o.erase ix.map key)
          (append_wal-IsDurable o laws opts c erased ix.map rec on
            (record {
              base = d.base;
              recs = d.recs;
              based = d.based;
              fine = d.fine;
              logged = d.logged;
              ends = d.ends;
              same = d.same;
            })
            (record {
              type_fits = omega arith;
              key_fits = len;
              addr_fits = omega arith;
              old_addr_fits = fits;
            })
            (λ q. ap (λ (n : o.Map). o.find n q) removes))
          (append_wal-map erased rec) done still in
      (
        subst
            (λ (n : o.Map). IsDurable o laws opts.key_size (delete_logged o opts key old_enc r).1 n)
            (sym e) v,
        ap (λ (n : o.Map). o.find n key) e ∙ laws.find-erase ix.map key,
      )

  -- A `Delete` that returns `kOk` on an index whose snapshot and log stand for its map, and that
  -- leaves a log: the key is then absent, and the snapshot and the log stand for the new map.
  -- Keys have the configured size, and addresses fit 64 bits.
  pub delete_key-IsDurable :
      (ix : Index o) (key : Bytes) (old_enc : ℕ)
      → ix.logging ≡ true
      → IsDurable o laws opts.key_size ix ix.map
      → length key ≡ opts.key_size
      → o.find ix.map key ≡ some old_enc
      → old_enc < 2 ^ 64
      → (delete_key o opts c ix key).0 ≡ ok
      → (delete_key o opts c ix key).1.logging ≡ true
      → IsDurable o laws opts.key_size
          (delete_key o opts c ix key).1
          (delete_key o opts c ix key).1.map
        × (o.find (delete_key o opts c ix key).1.map key ≡ none)
  unfolding delete_key
  delete_key-IsDurable ix key old_enc on d len found fits =
      subst
        (λ (x : Option ℕ).
          (delete_found o opts c ix key x).0 ≡ ok
          → (delete_found o opts c ix key x).1.logging ≡ true
          → IsDurable o laws opts.key_size (delete_found o opts c ix key x).1
              (delete_found o opts c ix key x).1.map
            × (o.find (delete_found o opts c ix key x).1.map key ≡ none))
        (sym found) (delete_found-IsDurable ix key old_enc on d len fits)
