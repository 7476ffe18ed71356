-- ===== src/Storage/Memory.antt =====
-- `MockedInMemoryKVCacheStorage` (parakv/core/kvcache_storage/mocked_inmemory_kvcache_storage.h,
-- parakv/core/kvcache_storage/mocked_inmemory_kvcache_storage.cc). The clock is part of the
-- state: its readings, of which the first `taken` have been read.
pub mod Life
pub mod Expiry
use para_kv.Prelude.{
  ℕ, ◌+◌, ◌%◌, ◌^◌, Bool, true, false, not, ◌&&◌, Option, none, some, List, [], ltb, leb, length,
  if◌then◌else◌,
}
use para_kv.Prelude.Bytes.{Bytes}
use para_kv.Prelude.Text.{text}
use para_kv.Prelude.Maps.{lookup, assign, erase}
use para_kv.Storage.{
  BackendCode, ok, not_found, already_exists, value_too_large, WriteOptions, ReadOptions,
  WriteResult, ReadResult, failed_read, StorageBackend,
}

pub record Entry : Type 0 where
  pub value : Bytes
  pub metadata : Bytes
  pub expiration_ms : ℕ

pub record MemoryStorage : Type 0 where
  pub max_value_bytes : ℕ
  pub default_ttl_ms : ℕ
  pub store : List (Bytes × Entry)
  pub readings : ℕ → ℕ
  pub taken : ℕ

-- `NowMs`: the reading, and the state after it.
abbrev pub now_ms : MemoryStorage → ℕ
now_ms m = m.readings m.taken

abbrev pub tick : MemoryStorage → MemoryStorage
tick m = record m { taken = m.taken + 1 }

-- Whether an entry has run out at a reading of the clock.
abbrev pub expired : Entry → ℕ → Bool
expired e now = ltb 0 e.expiration_ms && leb e.expiration_ms now

abbrev pub stored : Bytes → Entry → MemoryStorage → WriteResult × MemoryStorage
stored key entry m =
    (record { code = ok; message = [] }, record m { store = assign key entry m.store })

-- `Put` under the lock, by the entry that is found. The clock is read for an entry that may expire.
abbrev pub put_entry :
    Bytes → Entry → Bool → MemoryStorage → Option Entry → WriteResult × MemoryStorage
put_entry key entry overwrite m none = stored key entry m
put_entry key entry overwrite m (some old) =
    let m' = if ltb 0 old.expiration_ms then tick m else m in
    if not overwrite && not (expired old (now_ms m))
    then (record { code = already_exists; message = text "key already exists" }, m')
    else stored key entry m'

abbrev pub ttl_of : MemoryStorage → WriteOptions → ℕ
ttl_of m opts = if ltb 0 opts.ttl_ms then opts.ttl_ms else m.default_ttl_ms

abbrev pub new_entry : MemoryStorage → Bytes → Bytes → ℕ → Entry
new_entry m value metadata ttl = record {
  value = value;
  metadata = metadata;
  expiration_ms = if ltb 0 ttl then (now_ms m + ttl) % 2 ^ 64 else 0;
}

unfoldable pub put :
    MemoryStorage → Bytes → Bytes → Bytes → WriteOptions → WriteResult × MemoryStorage
put m key value metadata opts =
    if ltb 0 m.max_value_bytes && ltb m.max_value_bytes (length value)
    then (record { code = value_too_large; message = text "value exceeds backend limit" }, m)
    else put_entry key (new_entry m value metadata (ttl_of m opts)) opts.overwrite
        (if ltb 0 (ttl_of m opts) then tick m else m) (lookup key m.store)

-- What `Get` returns of an entry.
abbrev pub found : Entry → ReadOptions → ReadResult
found e opts = record {
  code = ok;
  message = [];
  value = if opts.include_value then e.value else [];
  metadata = e.metadata;
  expiration_ms = e.expiration_ms;
}

-- The entry after a hit: `touch_on_hit` renews a limited life by the default.
abbrev pub touched : MemoryStorage → Entry → ReadOptions → Entry
touched m e opts =
    if opts.touch_on_hit && (ltb 0 e.expiration_ms && ltb 0 m.default_ttl_ms)
    then record e { expiration_ms = (now_ms m + m.default_ttl_ms) % 2 ^ 64 }
    else e

abbrev pub get_entry :
    Bytes → ReadOptions → MemoryStorage → Option Entry → ReadResult × MemoryStorage
get_entry key opts m none = (failed_read not_found (text "miss"), m)
get_entry key opts m (some e) =
    if expired e (now_ms m)
    then (failed_read not_found (text "expired"), record (tick m) { store = erase key m.store })
    else (
      found (touched m e opts) opts,
      record (tick m) { store = assign key (touched m e opts) m.store },
    )

unfoldable pub get : MemoryStorage → Bytes → ReadOptions → ReadResult × MemoryStorage
get m key opts = get_entry key opts m (lookup key m.store)

abbrev pub delete_entry : Bytes → MemoryStorage → Option Entry → WriteResult × MemoryStorage
delete_entry key m none = (record { code = not_found; message = text "key not found" }, m)
delete_entry key m (some e) =
    (record { code = ok; message = [] }, record m { store = erase key m.store })

unfoldable pub delete : MemoryStorage → Bytes → WriteResult × MemoryStorage
delete m key = delete_entry key m (lookup key m.store)

-- As a backend; `Close` is the interface's default.
abbrev pub memory_storage : StorageBackend
memory_storage = record {
  State = MemoryStorage;
  put = put;
  get = get;
  delete = delete;
  close = λ m. m;
}
