-- ===== src/Index/Store/Durable/Recovery.antt =====
-- `Open` after a crash: the snapshot and the log give the map back (parakv/core/index/index.cc).
use mathlib.Core.Path.{subst}
use para_kv.Prelude.{
  ℕ, ◌+◌, ◌*◌, ◌<◌, ◌≤◌, ◌≡◌, refl, sym, ap, ◌∙◌, inl, true, false, Option, none, some, List, [],
  ◌∷◌, length, length-append, arith, ◌==◌, ==_iff,
}
use para_kv.Prelude.Bytes.{Bytes}
use para_kv.Status.{Status, ok}
use para_kv.Io.{NoFailure, read_range}
use para_kv.Io.Ranges.{length-read_range}
use para_kv.Index.Table.{MapCalls, IsMap}
use para_kv.Index.Wal.Record.{WalRecord, encode, encoded_size}
use para_kv.Index.Wal.Record.RoundTrip.{length-encode}
use para_kv.Index.Wal.Writer.{open_writer}
use para_kv.Index.Wal.Reader.{replay}
use para_kv.Index.Wal.Reader.Recovery.{encode_log, AreRecords, replay-encode_log}
use para_kv.Index.Store.{
  Options, Index, OpenCalls, open_index, open_snapshot, replay_wal, start_writer, load_snapshot,
  apply_records,
}
use para_kv.Index.Store.Durable.{IsDurable, SameMap, IsBase}

length-encode_log :
    (k : ℕ) (recs : List WalRecord)
    → AreRecords k recs
    → length (encode_log k recs) ≡ length recs * encoded_size k
length-encode_log k [] fine = omega arith
length-encode_log k (rec ∷ recs) fine = grind (
  arith,
  length-append {0} (encode k rec) (encode_log k recs),
  length-encode k rec fine.0,
  length-encode_log k recs fine.1,
)

le_mul : (a b : ℕ) → 0 < b → a ≤ a * b
le_mul a b h = grind arith

-- All calls of `Open` succeed, with reads that may be short or interrupted.
pub record AllGood (c : OpenCalls) : Type 0 where
  pub there : c.wal_exists ≡ true
  pub readable : c.reader_opened ≡ true
  pub reads_fine : NoFailure c.reads
  pub cuts : c.truncated ≡ true
  pub writable : c.writer_opened ≡ true
  pub sized : c.writer_stated ≡ true

-- What a crash leaves: the files.
abbrev pub crashed : (o : MapCalls) → Index o → Index o
crashed o ix = record ix { map = o.empty; logging = false; wal_bytes = 0; opened = false }

module _ (o : MapCalls) (laws : IsMap o) (opts : Options) (c : OpenCalls) where
  replayed_log :
      (ix : Index o) (m : o.Map)
      → NoFailure c.reads
      → (d : IsDurable o laws opts.key_size ix m)
      → replay opts.key_size (ix.wal.file.size + 1) c.reads ix.wal.file 0 0
        ≡ some (record { status = ok; records = d.recs; last_good_offset = ix.wal.file.size })
  replayed_log ix m ns d =
      let k = opts.key_size in
      let f = ix.wal.file in
      let whole : f.size ≡ length d.recs * encoded_size k =
        d.ends
        ∙ sym (length-read_range f 0 ix.wal.bytes_written)
        ∙ ap (λ (bs : Bytes). length bs) d.logged
        ∙ length-encode_log k d.recs d.fine in
      let logged : read_range f 0 (length d.recs * encoded_size k) ≡ encode_log k d.recs =
        ap (read_range f 0) (sym whole ∙ d.ends) ∙ d.logged in
      replay-encode_log k d.recs (f.size + 1) c.reads f 0 0 ns d.fine logged
        (omega (arith, whole), inl (omega (arith, whole)))
        (omega (arith, whole, le_mul (length d.recs) (encoded_size k) (omega arith)))
      ∙ ap (λ (n : ℕ). some (record { status = ok; records = d.recs; last_good_offset = n }))
          (omega (arith, whole))

  load_snapshot-some :
      (ix : Index o) (file : o.Archive) (base : o.Map)
      → o.phmap_load file ≡ some base
      → load_snapshot o ix file ≡ (ok, record ix { map = base })
  unfolding load_snapshot
  load_snapshot-some ix file base b = rw (b, load_snapshot) refl

  snapshot_loaded :
      (ix : Index o) (file : Option o.Archive) (base : o.Map)
      → opts.has_snapshot_dir ≡ true
      → ix.map ≡ o.empty
      → IsBase o laws file base
      → open_snapshot o opts ix file ≡ (ok, record ix { map = base })
  snapshot_loaded ix none base dir e b = ap (λ (n : o.Map). (ok, record ix { map = n })) (e ∙ sym b)
  snapshot_loaded ix (some file) base dir e b = rw (dir, load_snapshot-some ix file base b) refl

  log_replayed :
      (ix : Index o) (m : o.Map)
      → AllGood c
      → opts.has_wal_path ≡ true
      → (d : IsDurable o laws opts.key_size ix m) → ix.map ≡ d.base
      → replay_wal o opts c (ok, ix) ≡ (ok, record ix { map = apply_records o d.base d.recs })
  unfolding replay_wal
  log_replayed ix m good path d e =
      rw (path, good.there, good.readable, replayed_log ix m good.reads_fine d, good.cuts, e) refl

  writer_opened :
      (ix : Index o)
      → AllGood c
      → opts.has_wal_path ≡ true
      → ((start_writer o opts c (ok, ix)).0 ≡ ok)
        × ((start_writer o opts c (ok, ix)).1.map ≡ ix.map)
  unfolding start_writer open_writer
  writer_opened ix good path = rw (path, good.writable, good.sized) (refl, refl)

  -- For an index whose snapshot and log stand for its map, with both paths configured and calls
  -- that succeed (reads may be short or interrupted): opening it again from the files that a crash
  -- leaves returns `kOk`, and every key has the address that it had.
  pub open_index-crashed :
      (ix : Index o)
      → AllGood c
      → opts.segment_key_size ≡ opts.key_size
      → opts.has_wal_path ≡ true
      → opts.has_snapshot_dir ≡ true
      → IsDurable o laws opts.key_size ix ix.map
      → ((open_index o opts c (crashed o ix)).0 ≡ ok)
        × SameMap o laws (open_index o opts c (crashed o ix)).1.map ix.map
  unfolding open_index
  open_index-crashed ix good sizes path dir d =
      let start = record (crashed o ix) { opened = true } in
      let loaded = record start { map = d.base } in
      let d' : IsDurable o laws opts.key_size loaded ix.map = record {
        base = d.base;
        recs = d.recs;
        based = d.based;
        fine = d.fine;
        logged = d.logged;
        ends = d.ends;
        same = d.same;
      } in
      let applied = record loaded { map = apply_records o d.base d.recs } in
      let e : replay_wal o opts c (open_snapshot o opts start ix.snapshot) ≡ (ok, applied) =
        ap (replay_wal o opts c) (snapshot_loaded start ix.snapshot d.base dir refl d.based)
        ∙ log_replayed loaded ix.map good path d' refl in
      let (done, map) = writer_opened applied good path in
      let sizes_test : (opts.segment_key_size == opts.key_size) ≡ true = (==_iff _ _).1 sizes in
      simp sizes_test (
        subst
          (λ (r : Status × Index o).
            ((start_writer o opts c r).0 ≡ ok)
            × SameMap o laws (start_writer o opts c r).1.map ix.map)
          (sym e) (done, λ key. ap (λ (n : o.Map). o.find n key) map ∙ d.same key))
