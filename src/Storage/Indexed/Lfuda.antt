-- ===== src/Storage/Indexed/Lfuda.antt =====
-- The cache of the indexed backend: `LFUCache`
-- (parakv/core/kvcache_storage/index_kvcache_storage_backend.h), which is an `lfuda_cache`
-- (parakv/core/cache/lfuda_cache.h) whose public operations read the clock.
use para_kv.Prelude.{ℕ, ◌+◌, Bool, true, false, List}
use para_kv.Prelude.Bytes.{Bytes}
use para_kv.Cache.{Allow, LfudaCache, insert_or_update, insert_update, do_find, erase_key}
use para_kv.Storage.Indexed.{CacheCalls}

-- A cache and the readings of the clock, of which the first `taken` have been read.
pub record LfuCache : Type 0 where
  pub entries : LfudaCache Bool
  pub readings : ℕ → ℕ
  pub taken : ℕ

-- `insert(k, true, allow)`, with the keys that are evicted.
abbrev pub lfu_insert : (ℕ → ℕ) → Allow → LfuCache → Bytes → List Bytes × LfuCache
lfu_insert aged_count allow c key =
    let (done, evicted, entries) =
      insert_update Bool aged_count c.entries key true (c.readings c.taken) allow in
    (evicted, record c { entries = entries; taken = c.taken + 1 })

-- `find(k)`
abbrev pub lfu_find : LfuCache → Bytes → LfuCache
lfu_find c key =
    let (found, entries) = do_find Bool c.entries key false (c.readings c.taken) in
    record c { entries = entries; taken = c.taken + 1 }

-- `erase(k)`
abbrev pub lfu_erase : LfuCache → Bytes → LfuCache
lfu_erase c key =
    let (erased, entries) = erase_key Bool c.entries key in record c { entries = entries }

abbrev pub lfu_calls : (ℕ → ℕ) → CacheCalls
lfu_calls aged_count = record {
  Cache = LfuCache;
  insert = lfu_insert aged_count insert_or_update;
  insert_new = lfu_insert aged_count Allow.insert;
  find = lfu_find;
  erase = lfu_erase;
}
