-- ===== src/Storage/Indexed/Opening.antt =====
-- `CreateContext` and `EnsureDir` of the indexed backend
-- (parakv/core/kvcache_storage/index_kvcache_storage_backend.cc). What the file system answers is an
-- argument, and so are the order in which the map gives its keys, a new cache, and the capacity.
-- The keys of the map are taken before the cache is filled.
use para_kv.Prelude.{
  ℕ, ◌+◌, Bool, true, false, not, Option, none, some, List, [], ◌∷◌, ◌++◌, if◌then◌else◌, ◌==◌,
  length,
}
use para_kv.Prelude.Bytes.{Bytes}
use para_kv.Status.{Status}
use para_kv.Io.{File, Transfer}
use para_kv.Index.Table.{MapCalls}
use para_kv.Index.Wal.Writer.{WalWriter}
use para_kv.Index.Store.{Index, Options, OpenCalls, open_index}
use para_kv.Segment.Base.{SegmentConfig, create}
use para_kv.Segment.File.{open_segment}
use para_kv.Segment.Manager.{SegmentManager, add_segment}
use para_kv.Segment.Manager.State.{load_state}
use para_kv.Storage.{BackendCode}
use para_kv.Storage.Indexed.{
  to_backend_code, ensure_valid_options, CacheCalls, Context, IndexedStorage, evict,
}

-- `dir.find('/')` and `dir.substr`: the parts between the slashes; `part` is the one being read.
abbrev pub parts_from : Bytes → Bytes → List Bytes
parts_from part [] = part ∷ []
parts_from part (b ∷ bs) =
    let next = parts_from [] bs in
    let longer = parts_from (part ++ b ∷ []) bs in if b == 47 then part ∷ next else longer

-- `current` with a slash at its end, unless it is empty or has one.
abbrev pub ends_open : Bytes → Bool
ends_open [] = false
ends_open (b ∷ []) = not (b == 47)
ends_open (b ∷ c ∷ bs) = ends_open (c ∷ bs)

abbrev pub joined : Bytes → Bytes → Bytes
joined current part = (if ends_open current then current ++ 47 ∷ [] else current) ++ part

-- The loop of `EnsureDir`: `mkdir` is whether a directory was made or was there. The directories
-- that it has gone through, and the result.
abbrev pub make_parts : (Bytes → Bool) → Bytes → List Bytes → List Bytes × Bool
make_parts mkdir current [] = ([], true)
make_parts mkdir current ([] ∷ parts) = make_parts mkdir current parts
make_parts mkdir current ((b ∷ bs) ∷ parts) =
    let dir = joined current (b ∷ bs) in
    let (dirs, made) = make_parts mkdir dir parts in
    if mkdir dir then (dir ∷ dirs, made) else ([], false)

abbrev pub root_of : Bytes → Bytes
root_of [] = []
root_of (b ∷ bs) = if b == 47 then 47 ∷ [] else []

unfoldable pub ensure_dir : (Bytes → Bool) → Bool → Bytes → List Bytes × Bool
ensure_dir mkdir is_there [] = ([], false)
ensure_dir mkdir is_there (b ∷ bs) =
    if is_there then ([], true) else make_parts mkdir (root_of (b ∷ bs)) (parts_from [] (b ∷ bs))

-- The file of one segment, and what `Open` of the segment meets.
pub record SegmentCalls : Type 0 where
  pub file : File
  pub script : List Transfer
  pub file_exists : Bool
  pub opened : Bool
  pub truncated : Bool

-- The loop over the segments, from segment `i` on.
abbrev pub after_add :
    Status → SegmentManager → BackendCode × SegmentManager → BackendCode × SegmentManager
after_add Status.ok m rest = rest
after_add e m rest = (to_backend_code e, m)

abbrev pub after_open :
    Status → SegmentManager → BackendCode × SegmentManager → BackendCode × SegmentManager
after_open Status.ok m rest = rest
after_open e m rest = (to_backend_code e, m)

unfoldable pub open_each :
    SegmentConfig → ℕ → List SegmentCalls → SegmentManager → BackendCode × SegmentManager
unfolding open_segment create add_segment
open_each config i [] m = (BackendCode.ok, m)
open_each config i (c ∷ cs) m =
    let (opened, s) =
      open_segment (create i config c.file c.script) c.file_exists c.opened c.truncated in
    let (added, m') = add_segment m (some s) in
    let rest = open_each config (i + 1) cs m' in after_open opened m (after_add added m rest)

abbrev pub no_segments : SegmentManager
no_segments = record {
  segments = [];
  idle_set = [];
  appending_set = [];
  full_set = [];
  full_order = [];
  access_counters = [];
  hot_segments = [];
}

module _ (o : MapCalls) (cache : CacheCalls) (opts : Options) where
  -- What `CreateContext` meets, with one entry of `segments` for each of `segment_count`, and the
  -- options that are not the index's.
  pub record ContextCalls : Type 0 where
    pub segment_size : ℕ
    pub root_dir_made : Bool
    pub segments : List SegmentCalls
    pub state_opened : Bool
    pub state_read : Bool
    pub snapshot : Option o.Archive
    pub wal : WalWriter
    pub index_calls : OpenCalls
    -- the new cache, where `lfu_capacity_ratio` is positive
    pub new_cache : Option cache.Cache
    pub keys_of : o.Map → List Bytes

  -- The keys are 16 bytes in the source's only instance.
  abbrev pub segment_config : ContextCalls → SegmentConfig
  segment_config c = record {
    key_size = opts.key_size;
    value_size = opts.value_size;
    segment_size = c.segment_size;
    bitmap_alignment = 4096;
  }

  -- `ctx->lfu->insert(key, true, allow::insert)`. The index is called for what the cache gives up.
  abbrev pub fill_one :
      IndexedStorage o cache opts
      → Context o cache opts
      → Bytes
      → Option cache.Cache
      → IndexedStorage o cache opts
  fill_one b ctx key none = record b { context = some ctx }
  fill_one b ctx key (some lfu) =
      let (evicted, lfu') = cache.insert_new lfu key in
      evict o cache opts evicted b.used b (record ctx { lfu = some lfu' })

  -- The cache is filled with the index's keys; what it gives up is deleted from the index.
  abbrev pub fill :
      List Bytes
      → IndexedStorage o cache opts
      → Option (Context o cache opts)
      → IndexedStorage o cache opts
  fill [] b ctx = record b { context = ctx }
  fill (key ∷ keys) b none = record b { context = none }
  fill (key ∷ keys) b (some ctx) = let b' = fill_one b ctx key ctx.lfu in fill keys b' b'.context

  abbrev pub filled :
      ContextCalls
      → IndexedStorage o cache opts
      → Index o
      → Option cache.Cache
      → IndexedStorage o cache opts
  filled c b ix none = record b { context = some (record { index = ix; lfu = none }) }
  filled c b ix (some lfu) =
      fill (c.keys_of ix.map) b (some (record { index = ix; lfu = some lfu }))

  abbrev pub index_opened :
      ContextCalls
      → IndexedStorage o cache opts
      → Status × Index o
      → BackendCode × IndexedStorage o cache opts
  index_opened c b (Status.ok, ix) = (BackendCode.ok, filled c b ix c.new_cache)
  index_opened c b (e, ix) = (to_backend_code e, b)

  -- The index, over a manager.
  abbrev pub new_index : ContextCalls → SegmentManager → Index o
  new_index c m = record {
    map = o.empty;
    logging = false;
    wal = c.wal;
    wal_bytes = 0;
    snapshot = c.snapshot;
    opened = false;
    manager = m;
  }

  -- A state file that cannot be read is only logged.
  abbrev pub segments_opened :
      ContextCalls
      → IndexedStorage o cache opts
      → BackendCode × SegmentManager
      → BackendCode × IndexedStorage o cache opts
  segments_opened c b (BackendCode.ok, m) =
      let (_, loaded) = load_state m b.state_file c.state_opened c.state_read in
      index_opened c b (open_index o opts c.index_calls (new_index c loaded))
  segments_opened c b (e, m) = (e, b)

  abbrev pub options_checked :
      ContextCalls
      → IndexedStorage o cache opts
      → BackendCode
      → BackendCode × IndexedStorage o cache opts
  options_checked c b BackendCode.ok =
      if not c.root_dir_made
      then (BackendCode.io_error, b)
      else segments_opened c b (open_each (segment_config c) 0 c.segments no_segments)
  options_checked c b e = (e, b)

  abbrev pub unless_created :
      ContextCalls
      → IndexedStorage o cache opts
      → Option (Context o cache opts)
      → BackendCode × IndexedStorage o cache opts
  unless_created c b (some ctx) = (BackendCode.ok, b)
  unless_created c b none =
      options_checked c b (ensure_valid_options opts.value_size (length c.segments))

  -- `CreateContext`, of which a failure leaves the backend without a context.
  unfoldable pub create_context :
      ContextCalls → IndexedStorage o cache opts → BackendCode × IndexedStorage o cache opts
  unfolding open_each load_state open_index
  create_context c b = unless_created c b b.context
