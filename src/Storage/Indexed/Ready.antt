-- ===== src/Storage/Indexed/Ready.antt =====
-- `CreateContext` in an empty directory gives an index that serves
-- (parakv/core/kvcache_storage/index_kvcache_storage_backend.cc).
use mathlib.Core.Path.{subst}
use para_kv.Prelude.{
  ℕ, ◌≡◌, ◌≢◌, refl, sym, ap, ◌∙◌, inl, inr, Bool, true, false, not, Option, none, some, List, [],
  length, arith, if◌then◌else◌, Bool-cases, ◌==◌,
}
use para_kv.Prelude.Bytes.{Bytes}
use para_kv.Status.{Status}
use para_kv.Index.Table.{MapCalls, IsMap}
use para_kv.Index.Store.{
  Index, Options, OpenCalls, open_index, start_writer, replay_wal, open_snapshot, writer_started,
}
use para_kv.Index.Wal.Writer.{WalWriter}
use para_kv.Index.Store.Served.{IsServed}
use para_kv.Segment.Manager.{SegmentManager}
use para_kv.Segment.Manager.Pairs.{AllUsable}
use para_kv.Segment.Manager.State.{load_state}
use para_kv.Storage.{BackendCode}
use para_kv.Storage.Indexed.{CacheCalls, Context, IndexedStorage, ensure_valid_options}
use para_kv.Storage.Indexed.Opening.{
  segment_config, open_each, no_segments, ContextCalls, create_context, unless_created,
  options_checked, segments_opened, index_opened, new_index, filled, fill,
}
use para_kv.Storage.Indexed.Created.{FitsOffsets, AllNew, Good, open_each-Good}

-- Without a snapshot and a log, `Open` changes neither the map nor the segments.
module _ (o : MapCalls) (opts : Options) (calls : OpenCalls)
    (no_wal : calls.wal_exists ≡ false) where
  abbrev Same : Index o → Status × Index o → Type 0
  Same ix r = (r.1.map ≡ ix.map) × (r.1.manager ≡ ix.manager)

  writer_started-Same :
      (ix : Index o) (r : Status × WalWriter) → Same ix (writer_started o opts ix r)
  writer_started-Same ix (Status.ok, w) = (refl, refl)
  writer_started-Same ix (e, w) = (refl, refl)

  either-Same :
      (ix : Index o) (b : Bool) (x y : Status × Index o)
      → Same ix x
      → Same ix y
      → Same ix (if b then x else y)
  either-Same ix true x y h k = h
  either-Same ix false x y h k = k

  replay_wal-same : (ix : Index o) → replay_wal o opts calls (Status.ok, ix) ≡ (Status.ok, ix)
  unfolding replay_wal
  replay_wal-same ix = elim (Bool-cases opts.has_wal_path) [
    | inl on ↦ simp (on, no_wal) refl
    | inr off ↦ simp off refl
  ]

  start_writer-Same : (ix : Index o) → Same ix (start_writer o opts calls (Status.ok, ix))
  unfolding start_writer
  start_writer-Same ix =
      either-Same ix (not opts.has_wal_path) _ _ (refl, refl) (writer_started-Same ix _)

  open_index-Same : (ix : Index o) → ix.snapshot ≡ none → Same ix (open_index o opts calls ix)
  unfolding open_index
  open_index-Same ix no_snapshot =
      let opened : Index o = record ix { opened = true } in
      either-Same ix ix.opened _ _ (refl, refl)
        (either-Same ix (not (opts.segment_key_size == opts.key_size)) _ _ (refl, refl)
          (subst
            (λ (r : Option o.Archive).
              Same ix (
                start_writer o opts calls
                  (replay_wal o opts calls (open_snapshot o opts opened r))))
            (sym no_snapshot)
            (subst (λ (r : Status × Index o). Same ix (start_writer o opts calls r))
              (sym (replay_wal-same opened)) (start_writer-Same opened))))

module _ (o : MapCalls) (laws : IsMap o) (cache : CacheCalls) (opts : Options)
    (c : ContextCalls o cache opts) (b : IndexedStorage o cache opts) where
  -- The backend has a context, whose index has no keys and serves them from usable segments.
  abbrev pub HasServed : Option (Context o cache opts) → Type 0
  HasServed none = ⊥
  HasServed (some ctx) = IsServed o opts ctx.index × (ctx.index.map ≡ o.empty)

  abbrev Created : BackendCode × IndexedStorage o cache opts → Type 0
  Created r = r.0 ≡ BackendCode.ok → HasServed r.1.context

  -- The directory is new: neither segments, nor a state file, a snapshot or a log are there.
  pub record IsNew : Type 0 where
    pub no_context : b.context ≡ none
    pub new_files : AllNew c.segments
    pub no_state : b.state_file ≡ none
    pub no_snapshot : c.snapshot ≡ none
    pub no_wal : c.index_calls.wal_exists ≡ false
    pub no_keys : c.keys_of o.empty ≡ []
    pub fits : FitsOffsets (segment_config o cache opts c) (length c.segments)

  module _ (new : IsNew) where
    filled-HasServed :
        (ix : Index o) (lfu : Option cache.Cache)
        → IsServed o opts ix
        → ix.map ≡ o.empty
        → HasServed (filled o cache opts c b ix lfu).context
    filled-HasServed ix none served empty = (served, empty)
    filled-HasServed ix (some lfu) served empty =
        subst
          (λ (ks : List Bytes).
            HasServed
              (fill o cache opts ks b (some (record { index = ix; lfu = some lfu }))).context)
          (sym (ap c.keys_of empty ∙ new.no_keys)) (served, empty)

    index_opened-Created :
        (e : Status) (ix : Index o)
        → IsServed o opts ix
        → ix.map ≡ o.empty
        → Created (index_opened o cache opts c b (e, ix))
    index_opened-Created Status.ok ix served empty done =
        filled-HasServed ix c.new_cache served empty
    index_opened-Created e ix served empty done = cc

    empty-IsServed :
        (ix : Index o) (m : SegmentManager)
        → ix.map ≡ o.empty
        → ix.manager ≡ m
        → AllUsable opts.key_size opts.value_size m.segments
        → IsServed o opts ix
    empty-IsServed ix m empty same all = record {
      usable = rw same all;
      mapped = λ q enc found. absurd (
          nothing enc
            (sym (laws.find-empty q) ∙ ap (λ (x : o.Map). o.find x q) (sym empty) ∙ found));
    }
      where
        nothing : (enc : ℕ) → none ≢ some enc
        nothing enc e = cc

    segments_opened-Created :
        (e : BackendCode) (m : SegmentManager)
        → (e ≡ BackendCode.ok → AllUsable opts.key_size opts.value_size m.segments)
        → Created (segments_opened o cache opts c b (e, m))
    unfolding load_state
    segments_opened-Created BackendCode.ok m all =
        subst
          (λ (f : Option Bytes). Created (
            index_opened o cache opts c b (
              open_index o opts c.index_calls
                (new_index o cache opts c (load_state m f c.state_opened c.state_read).1))))
          (sym new.no_state)
          (let ix = new_index o cache opts c m in
            let r = open_index o opts c.index_calls ix in
            let same = open_index-Same o opts c.index_calls new.no_wal ix new.no_snapshot in
            index_opened-Created r.0 r.1 (empty-IsServed r.1 m same.0 same.1 (all refl)) same.0)
    segments_opened-Created e m all = λ done. cc

    either-Created :
        (t : Bool) (x y : BackendCode × IndexedStorage o cache opts)
        → Created x
        → Created y
        → Created (if t then x else y)
    either-Created true x y h k = h
    either-Created false x y h k = k

    options_checked-Created : (e : BackendCode) → Created (options_checked o cache opts c b e)
    options_checked-Created BackendCode.ok =
        let r = open_each (segment_config o cache opts c) 0 c.segments no_segments in
        let good : Good (segment_config o cache opts c) (length c.segments) new.fits r =
          open_each-Good (segment_config o cache opts c) (length c.segments) new.fits c.segments 0
            no_segments (omega arith) new.new_files (λ id s e. cc) in
        either-Created (not c.root_dir_made) _ _ (λ done. cc) (segments_opened-Created r.0 r.1 good)
    options_checked-Created e = λ done. cc

  -- In a new directory, with sizes that fit: where `CreateContext` answers `kOk`, the backend has a
  -- context, whose index has no keys, and whose segments are all usable.
  pub create_context-HasServed :
      IsNew
      → (create_context o cache opts c b).0 ≡ BackendCode.ok
      → HasServed (create_context o cache opts c b).1.context
  unfolding create_context
  create_context-HasServed new =
      subst (λ (x : Option (Context o cache opts)). Created (unless_created o cache opts c b x))
        (sym new.no_context)
        (options_checked-Created new (ensure_valid_options opts.value_size (length c.segments)))
