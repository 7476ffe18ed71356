-- ===== src/Index/Store/Durable.antt =====
-- The snapshot and the log determine the map of the index (parakv/core/index/index.cc).
pub mod Writes
pub mod Recovery
use mathlib.Core.Path.{subst}
use para_kv.Prelude.{
  ℕ, Bool, ◌+◌, ◌≤◌, ◌<◌, ◌≡◌, ◌≢◌, refl, sym, ap, ◌∙◌, inl, inr, true, false, Option, none, some,
  List, [], ◌∷◌, ◌++◌, length, arith, Bool-cases, ltb, leb, ◌==◌, ◌&&◌, not, append_assoc,
  append-nil,
}
use para_kv.Prelude.Bytes.{Bytes, Bytes-cases}
use para_kv.Status.{Status, ok, io_error, invalid_argument}
use para_kv.Io.{read_range}
use para_kv.Index.Table.{MapCalls, IsMap}
use para_kv.Index.Wal.Record.{
  WalRecord, IsRecord, encode, encoded_size, k_insert, k_update, k_delete,
}
use para_kv.Index.Wal.Writer.{WalWriter, append_record, open_writer, close_writer}
use para_kv.Index.Wal.Writer.Log.{log}
use para_kv.Index.Wal.Writer.Appended.{append_record-log}
use para_kv.Index.Wal.Reader.Recovery.{encode_log, AreRecords}
use para_kv.Index.Store.{
  Options, Index, CheckpointCalls, rotate_wal, rotated, checkpoint, append_wal, appended,
  apply_record, apply_records,
}

module _ (o : MapCalls) (laws : IsMap o) where
  -- Two maps that answer alike.
  abbrev pub SameMap : o.Map → o.Map → Type 0
  SameMap a b = (key : Bytes) → o.find a key ≡ o.find b key

  find-assign_eq :
      (a b : o.Map) (k : Bytes) (v : ℕ) → SameMap a b → SameMap (o.assign a k v) (o.assign b k v)
  find-assign_eq a b k v same key = elim (Bytes-cases key k) [
    | inl e ↦ rw e (laws.find-assign a k v ∙ sym (laws.find-assign b k v))
    | inr n ↦
        laws.find-assign_other a k key v n ∙ same key ∙ sym (laws.find-assign_other b k key v n)
  ]

  find-erase_eq : (a b : o.Map) (k : Bytes) → SameMap a b → SameMap (o.erase a k) (o.erase b k)
  find-erase_eq a b k same key = elim (Bytes-cases key k) [
    | inl e ↦ rw e (laws.find-erase a k ∙ sym (laws.find-erase b k))
    | inr n ↦ laws.find-erase_other a k key n ∙ same key ∙ sym (laws.find-erase_other b k key n)
  ]

  pub apply_record-SameMap :
      (rec : WalRecord) (a b : o.Map)
      → SameMap a b
      → SameMap (apply_record o a rec) (apply_record o b rec)
  unfolding apply_record
  apply_record-SameMap rec a b same key = ground (
    arith,
    find-assign_eq a b rec.key rec.disk_addr same key,
    find-erase_eq a b rec.key same key,
    same key,
  )

  apply_records-snoc :
      (recs : List WalRecord) (rec : WalRecord) (m : o.Map)
      → apply_records o m (recs ++ rec ∷ []) ≡ apply_record o (apply_records o m recs) rec
  apply_records-snoc [] rec m = refl
  apply_records-snoc (r ∷ recs) rec m = apply_records-snoc recs rec (apply_record o m r)

  -- What recovery starts from.
  abbrev pub IsBase : Option o.Archive → o.Map → Type 0
  IsBase none base = base ≡ o.empty
  IsBase (some file) base = o.phmap_load file ≡ some base

  -- The records of the log, applied to the map of the snapshot, give a map like `m`, and the
  -- log's file ends behind them.
  pub record IsDurable (k : ℕ) (ix : Index o) (m : o.Map) : Type 0 where
    pub base : o.Map
    pub recs : List WalRecord
    pub based : IsBase ix.snapshot base
    pub fine : AreRecords k recs
    pub logged : log ix.wal ≡ encode_log k recs
    pub ends : ix.wal.file.size ≡ ix.wal.bytes_written
    pub same : SameMap (apply_records o base recs) m

encode_log-snoc :
    (k : ℕ) (recs : List WalRecord) (rec : WalRecord)
    → encode_log k (recs ++ rec ∷ []) ≡ encode_log k recs ++ encode k rec
encode_log-snoc k [] rec = append-nil (encode k rec)
encode_log-snoc k (r ∷ recs) rec =
    ap (λ (bs : Bytes). encode k r ++ bs) (encode_log-snoc k recs rec)
    ∙ sym (append_assoc (encode k r) (encode_log k recs) (encode k rec))

AreRecords-snoc :
    (k : ℕ) (recs : List WalRecord) (rec : WalRecord)
    → AreRecords k recs
    → IsRecord k rec
    → AreRecords k (recs ++ rec ∷ [])
AreRecords-snoc k [] rec all one = (one, tt)
AreRecords-snoc k (r ∷ recs) rec (first, all) one = (first, AreRecords-snoc k recs rec all one)

-- A log that is closed and opened again to be truncated is empty.
reopened_empty :
    (w : WalWriter) (opened stated : Bool)
    → (open_writer (close_writer w).1 true opened stated).0 ≡ ok
    → ((open_writer (close_writer w).1 true opened stated).1.bytes_written ≡ 0)
      × ((open_writer (close_writer w).1 true opened stated).1.file.size ≡ 0)
unfolding open_writer close_writer
reopened_empty w opened stated done = ground arith

module _ (o : MapCalls) (laws : IsMap o) (opts : Options) (c : CheckpointCalls) where
  rotated-IsDurable :
      (ix : Index o) (r : Status × WalWriter)
      → IsBase o laws ix.snapshot ix.map
      → (r.0 ≡ ok → (r.1.bytes_written ≡ 0) × (r.1.file.size ≡ 0))
      → (rotated o ix r).1.logging ≡ true
      → IsDurable o laws opts.key_size (rotated o ix r).1 ix.map
  rotated-IsDurable ix (ok, w) based empty still = record {
    base = ix.map;
    recs = [];
    based = based;
    fine = tt;
    logged = ap (read_range w.file 0) (empty refl).0 ∙ unfold read_range in refl;
    ends = (empty refl).1 ∙ sym (empty refl).0;
    same = λ key. refl;
  }
  rotated-IsDurable ix (e, w) based empty still = cc

  rotate_wal-IsDurable :
      (ix : Index o)
      → ix.logging ≡ true
      → IsBase o laws ix.snapshot ix.map
      → (rotate_wal o c ix).1.logging ≡ true
      → IsDurable o laws opts.key_size (rotate_wal o c ix).1 ix.map
  unfolding rotate_wal
  rotate_wal-IsDurable ix on based still =
      let r = open_writer (close_writer ix.wal).1 true c.reopened c.stated in
      let e : rotate_wal o c ix ≡ rotated o ix r = rw on refl in
      subst (λ (s : Status × Index o). IsDurable o laws opts.key_size s.1 ix.map) (sym e)
        (rotated-IsDurable ix r based (reopened_empty ix.wal c.reopened c.stated)
          (ap (λ (s : Status × Index o). s.1.logging) (sym e) ∙ still))

  checkpoint-IsDurable :
      (ix : Index o)
      → ix.logging ≡ true
      → IsDurable o laws opts.key_size ix ix.map
      → (checkpoint o opts c ix).1.logging ≡ true
      → IsDurable o laws opts.key_size (checkpoint o opts c ix).1 ix.map
  unfolding checkpoint
  checkpoint-IsDurable ix on d = elim (Bool-cases opts.has_snapshot_dir) [
    | inr none_given ↦ simp none_given (λ still. d)
    | inl given ↦ elim (Bool-cases c.dumped) [
      | inr failed ↦ simp (given, failed) (λ still. d)
      | inl dumped ↦ elim (Bool-cases c.renamed) [
        | inr failed ↦ simp (given, dumped, failed) (λ still. d)
        | inl renamed ↦
            simp (given, dumped, renamed)
              (rotate_wal-IsDurable (record ix { snapshot = some (o.phmap_dump ix.map) }) on
                (laws.load-dump ix.map))
      ]
    ]
  ]

  appended-IsDurable :
      (ix : Index o) (r : Status × WalWriter)
      → ix.logging ≡ true
      → (r.0 ≡ ok
          → (b : ℕ)
          → IsDurable o laws opts.key_size (record ix { wal = r.1; wal_bytes = b }) ix.map)
      → (appended o opts c ix r).0 ≡ ok
      → (appended o opts c ix r).1.logging ≡ true
      → IsDurable o laws opts.key_size (appended o opts c ix r).1 ix.map
  appended-IsDurable ix (ok, w) on d done =
      elim (Bool-cases (
        ltb 0 opts.wal_checkpoint_bytes
        && (leb opts.wal_checkpoint_bytes w.bytes_written && opts.has_snapshot_dir))) [
          | inl due ↦ simp due (
              checkpoint-IsDurable (record ix { wal = w; wal_bytes = w.bytes_written }) on
                (d refl w.bytes_written))
          | inr not_due ↦ simp not_due (λ still. d refl w.bytes_written)
        ]
  appended-IsDurable ix (e, w) on d done = cc

  -- `AppendWal` that succeeds and leaves a log, for a record that takes the map that the files
  -- stand for to one like the index's: the files then stand for the index's map.
  pub append_wal-IsDurable :
      (ix : Index o) (m : o.Map) (rec : WalRecord)
      → ix.logging ≡ true
      → IsDurable o laws opts.key_size ix m
      → IsRecord opts.key_size rec
      → SameMap o laws (apply_record o m rec) ix.map
      → (append_wal o opts c ix rec).0 ≡ ok
      → (append_wal o opts c ix rec).1.logging ≡ true
      → IsDurable o laws opts.key_size (append_wal o opts c ix rec).1 ix.map
  unfolding append_wal
  append_wal-IsDurable ix m rec on d fine reaches =
      let k = opts.key_size in
      let r = append_record k ix.wal rec in
      let e : append_wal o opts c ix rec ≡ appended o opts c ix r = rw on refl in
      subst
        (λ (s : Status × Index o). s.0 ≡ ok → s.1.logging ≡ true → IsDurable o laws k s.1 ix.map)
        (sym e)
        (appended-IsDurable ix r on (λ done b.
          let (grown, ends) = append_record-log k ix.wal rec fine (omega (arith, d.ends)) done in
          record {
            base = d.base;
            recs = d.recs ++ rec ∷ [];
            based = d.based;
            fine = AreRecords-snoc k d.recs rec d.fine fine;
            logged =
                grown
                ∙ ap (λ (bs : Bytes). bs ++ encode k rec) d.logged
                ∙ sym (encode_log-snoc k d.recs rec);
            ends = ends;
            same = λ key.
                ap (λ (n : o.Map). o.find n key) (apply_records-snoc o laws d.recs rec d.base)
                ∙ apply_record-SameMap o laws rec (apply_records o d.base d.recs) m d.same key
                ∙ reaches key;
          }))
