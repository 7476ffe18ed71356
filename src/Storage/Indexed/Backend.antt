-- ===== src/Storage/Indexed/Backend.antt =====
-- The other operations of `IndexKVCacheStorageBackend`, and the backend
-- (parakv/core/kvcache_storage/index_kvcache_storage_backend.cc).
use para_kv.Prelude.{◌+◌, Option, none, some, [], replicate, if◌then◌else◌}
use para_kv.Prelude.Bytes.{Bytes}
use para_kv.Prelude.Text.{text}
use para_kv.Status.{Status}
use para_kv.Index.Table.{MapCalls}
use para_kv.Index.Store.{Index, Options, checkpoint, close_index}
use para_kv.Index.Store.Access
use para_kv.Segment.Manager.State.{save_state}
use para_kv.Storage.{BackendCode, ReadOptions, WriteResult, ReadResult, failed_read, StorageBackend}
use para_kv.Storage.Payload.{decode_payload}
use para_kv.Storage.Indexed.{
  to_backend_code, from_string, bad_key, CacheCalls, Context, IndexedStorage, with_index,
  next_calls, put,
}

module _ (o : MapCalls) (cache : CacheCalls) (opts : Options) where
  abbrev Ctx : Type 0
  Ctx = Context o cache opts

  abbrev Storage : Type 0
  Storage = IndexedStorage o cache opts

  -- `if (ctx->lfu) ctx->lfu->find(k)`
  abbrev pub touched : Ctx → Bytes → Option cache.Cache → Ctx
  touched ctx key none = ctx
  touched ctx key (some lfu) = record ctx { lfu = some (cache.find lfu key) }

  abbrev pub get_decoded :
      Storage
      → Ctx
      → Bytes
      → ReadOptions
      → BackendCode × Bytes × Bytes × Bytes
      → ReadResult × Storage
  get_decoded b ctx key ropts (BackendCode.ok, value, metadata, err) = (
    record {
      code = BackendCode.ok;
      message = [];
      value = if ropts.include_value then value else [];
      metadata = metadata;
      expiration_ms = 0;
    },
    record b { context = some (touched ctx key ctx.lfu) },
  )
  get_decoded b ctx key ropts (c, value, metadata, err) =
      (failed_read c err, record b { context = some ctx })

  -- The payload is zeros until it is filled.
  abbrev pub payload_of : Option Bytes → Bytes
  payload_of none = replicate opts.value_size 0
  payload_of (some payload) = payload

  abbrev pub miss_or : Status → Bytes → Bytes → Bytes
  miss_or Status.not_found miss other = miss
  miss_or _ miss other = other

  abbrev pub get_indexed :
      Storage → Ctx → Bytes → ReadOptions → Status × Option Bytes × Index o → ReadResult × Storage
  get_indexed b ctx key ropts (Status.ok, found, ix) =
      get_decoded b (record ctx { index = ix }) key ropts (decode_payload (payload_of found))
  get_indexed b ctx key ropts (e, found, ix) = (
    failed_read (to_backend_code e) (miss_or e (text "miss") (text "index get failed")),
    with_index o cache opts b ctx ix,
  )

  abbrev pub get_context : Storage → Bytes → ReadOptions → Option Ctx → ReadResult × Storage
  get_context b key ropts none =
      (failed_read BackendCode.unavailable (text "context not initialized"), b)
  get_context b key ropts (some ctx) =
      get_indexed b ctx key ropts (Access.get o opts ctx.index key opts.value_size)

  abbrev pub get_key : Storage → ReadOptions → Option Bytes → ReadResult × Storage
  get_key b ropts none = (failed_read BackendCode.invalid_argument (bad_key o cache opts), b)
  get_key b ropts (some key) = get_context b key ropts b.context

  unfoldable pub get : Storage → Bytes → ReadOptions → ReadResult × Storage
  get b key ropts = get_key b ropts (from_string key)

  -- `if (ctx->lfu) ctx->lfu->erase(k)`
  abbrev pub uncached : Ctx → Bytes → Option cache.Cache → Ctx
  uncached ctx key none = ctx
  uncached ctx key (some lfu) = record ctx { lfu = some (cache.erase lfu key) }

  abbrev pub delete_indexed : Storage → Ctx → Bytes → Status × Index o → WriteResult × Storage
  delete_indexed b ctx key (Status.ok, ix) = (
    record { code = BackendCode.ok; message = [] },
    record b {
      context = some (uncached (record ctx { index = ix }) key ctx.lfu);
      used = b.used + 1;
    },
  )
  delete_indexed b ctx key (e, ix) = (
    record {
      code = to_backend_code e;
      message = miss_or e (text "key not found") (text "index delete failed");
    },
    record (with_index o cache opts b ctx ix) { used = b.used + 1 },
  )

  abbrev pub delete_context : Storage → Bytes → Option Ctx → WriteResult × Storage
  delete_context b key none =
      (record { code = BackendCode.unavailable; message = text "context not initialized" }, b)
  delete_context b key (some ctx) =
      delete_indexed b ctx key (Access.delete_key o opts (next_calls o cache opts b) ctx.index key)

  abbrev pub delete_of : Storage → Option Bytes → WriteResult × Storage
  delete_of b none =
      (record { code = BackendCode.invalid_argument; message = (bad_key o cache opts) }, b)
  delete_of b (some key) = delete_context b key b.context

  unfoldable pub delete : Storage → Bytes → WriteResult × Storage
  delete b key = delete_of b (from_string key)

  -- `Close`: the context is dropped; what it leaves is the index's files, here the closed index,
  -- and the state file of the segment manager.
  abbrev pub close_context : Storage → Option Ctx → Option (Index o) × Storage
  close_context b none = (none, b)
  close_context b (some ctx) =
      let (checked, ix) = checkpoint o opts (next_calls o cache opts b) ctx.index in
      let s = b.save_calls in
      let (saved, file) =
        save_state ix.manager s.created s.written s.synced s.renamed b.state_file in
      (
        some (close_index o opts ix).1,
        record b { context = none; used = b.used + 1; state_file = file },
      )

  unfoldable pub close : Storage → Option (Index o) × Storage
  close b = close_context b b.context

  abbrev pub indexed_storage : StorageBackend
  indexed_storage = record {
    State = Storage;
    put = put o cache opts;
    get = get;
    delete = delete;
    close = λ b. (close b).1;
  }
