-- ===== src/Storage/Indexed.antt =====
-- `IndexKVCacheStorageBackend` (parakv/core/kvcache_storage/index_kvcache_storage_backend.h,
-- parakv/core/kvcache_storage/index_kvcache_storage_backend.cc) over an index and a cache. The
-- outcomes of the index's system calls are part of the state and are used up in order. The
-- thread that logs statistics and compacts is left out, and so is opening the context.
pub mod Backend
pub mod Opening
pub mod Created
pub mod Ready
pub mod Lfuda
pub mod Addresses
use para_kv.Prelude.{
  ℕ, ◌+◌, Bool, true, false, not, Option, none, some, List, [], ◌∷◌, length, leb, ◌==◌, replicate,
  if◌then◌else◌,
}
use para_kv.Prelude.Bytes.{Bytes}
use para_kv.Prelude.Text.{text}
use para_kv.Status.{Status}
use para_kv.Index.Table.{MapCalls}
use para_kv.Index.Store.{Index, Options, CheckpointCalls, checkpoint, close_index}
use para_kv.Index.Store.Access
use para_kv.Segment.Manager.State.{save_state}
use para_kv.Storage.{
  BackendCode, WriteOptions, ReadOptions, WriteResult, ReadResult, failed_read, StorageBackend,
}
use para_kv.Storage.Payload.{header_bytes, encode_payload, decode_payload}

abbrev pub to_backend_code : Status → BackendCode
to_backend_code Status.ok = BackendCode.ok
to_backend_code Status.not_found = BackendCode.not_found
to_backend_code Status.full = BackendCode.storage_full
to_backend_code Status.no_space = BackendCode.storage_full
to_backend_code Status.io_error = BackendCode.io_error
to_backend_code Status.invalid_argument = BackendCode.invalid_argument
to_backend_code Status.corruption = BackendCode.corrupted

abbrev pub ensure_valid_options : ℕ → ℕ → BackendCode
ensure_valid_options slot_value_size segment_count =
    if leb slot_value_size header_bytes
    then BackendCode.invalid_argument
    else if segment_count == 0
    then BackendCode.invalid_argument
    else BackendCode.ok

-- `Key128::FromString`: the raw bytes of the key, where there are 16.
abbrev pub from_string : Bytes → Option Bytes
from_string s = if length s == 16 then some s else none

-- What the backend calls of its cache; `insert` gives the keys that its eviction callback is
-- called with.
pub record CacheCalls : Type 1 where
  pub Cache : Type 0
  pub insert : Cache → Bytes → List Bytes × Cache
  -- with `allow::insert`
  pub insert_new : Cache → Bytes → List Bytes × Cache
  pub find : Cache → Bytes → Cache
  pub erase : Cache → Bytes → Cache

-- Whether the calls of `SaveState` succeed.
pub record SaveCalls : Type 0 where
  pub created : Bool
  pub written : Bool
  pub synced : Bool
  pub renamed : Bool

-- `opts.value_size` is `options_.slot_value_size`.
module _ (o : MapCalls) (cache : CacheCalls) (opts : Options) where
  pub record Context : Type 0 where
    pub index : Index o
    pub lfu : Option cache.Cache

  pub record IndexedStorage : Type 0 where
    pub context : Option Context
    pub calls : ℕ → CheckpointCalls
    pub used : ℕ
    pub save_calls : SaveCalls
    pub state_file : Option Bytes

  abbrev pub with_index : IndexedStorage → Context → Index o → IndexedStorage
  with_index b ctx ix = record b { context = some (record ctx { index = ix }) }

  -- The outcomes of the next call of the index.
  abbrev pub next_calls : IndexedStorage → CheckpointCalls
  next_calls b = b.calls b.used

  -- The eviction callback, for each key that the cache gives up.
  abbrev pub evict : List Bytes → ℕ → IndexedStorage → Context → IndexedStorage
  evict [] used b ctx = record b { context = some ctx; used = used }
  evict (key ∷ keys) used b ctx =
      evict keys (used + 1) b
        (record ctx { index = (Access.delete_key o opts (b.calls used) ctx.index key).1 })

  -- `if (ctx->lfu) ctx->lfu->insert(k, true)`
  abbrev pub cached : IndexedStorage → Context → Bytes → Option cache.Cache → IndexedStorage
  cached b ctx key none = record b { context = some ctx; used = b.used + 1 }
  cached b ctx key (some lfu) =
      let (evicted, lfu') = cache.insert lfu key in
      evict evicted (b.used + 1) b (record ctx { lfu = some lfu' })

  abbrev pub put_indexed :
      IndexedStorage → Context → Bytes → Status × Index o → WriteResult × IndexedStorage
  put_indexed b ctx key (Status.ok, ix) = (
    record { code = BackendCode.ok; message = [] },
    cached b (record ctx { index = ix }) key ctx.lfu,
  )
  put_indexed b ctx key (e, ix) = (
    record { code = to_backend_code e; message = text "index put failed" },
    record (with_index b ctx ix) { used = b.used + 1 },
  )

  abbrev pub put_encoded :
      IndexedStorage → Context → Bytes → BackendCode × Bytes × Bytes → WriteResult × IndexedStorage
  put_encoded b ctx key (BackendCode.ok, payload, err) =
      put_indexed b ctx key
        (Access.put o opts (next_calls b) ctx.index key (some payload) (length payload))
  put_encoded b ctx key (c, payload, err) =
      (record { code = c; message = err }, record b { context = some ctx })

  -- The probe for a key that must not be there, and what follows.
  abbrev pub put_probed :
      IndexedStorage
      → Context
      → Bytes
      → Bytes
      → Bytes
      → Status × Option Bytes × Index o
      → WriteResult × IndexedStorage
  put_probed b ctx key value metadata (Status.ok, found, ix) = (
    record { code = BackendCode.already_exists; message = text "key already exists" },
    with_index b ctx ix,
  )
  put_probed b ctx key value metadata (Status.not_found, found, ix) =
      put_encoded b (record ctx { index = ix }) key (encode_payload opts.value_size value metadata)
  put_probed b ctx key value metadata (e, found, ix) = (
    record { code = to_backend_code e; message = text "failed to probe existing key" },
    with_index b ctx ix,
  )

  abbrev pub put_context :
      IndexedStorage
      → Bytes
      → Bytes
      → Bytes
      → WriteOptions
      → Option Context
      → WriteResult × IndexedStorage
  put_context b key value metadata wopts none =
      (record { code = BackendCode.unavailable; message = text "context not initialized" }, b)
  put_context b key value metadata wopts (some ctx) =
      if not wopts.overwrite
      then put_probed b ctx key value metadata (Access.get o opts ctx.index key opts.value_size)
      else put_encoded b ctx key (encode_payload opts.value_size value metadata)

  abbrev pub bad_key : Bytes
  bad_key = text "key must be exactly 16 bytes (Key128)"

  abbrev pub put_key :
      IndexedStorage → Bytes → Bytes → WriteOptions → Option Bytes → WriteResult × IndexedStorage
  put_key b value metadata wopts none =
      (record { code = BackendCode.invalid_argument; message = bad_key }, b)
  put_key b value metadata wopts (some key) = put_context b key value metadata wopts b.context

  unfoldable pub put :
      IndexedStorage → Bytes → Bytes → Bytes → WriteOptions → WriteResult × IndexedStorage
  put b key value metadata wopts = put_key b value metadata wopts (from_string key)
