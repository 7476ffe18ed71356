-- ===== src/Tests/Caches.antt =====
-- Runs of the cache and of a backend with an index and a cache (parakv/core/cache,
-- parakv/core/kvcache_storage).
use mathlib.Core.Path.{sym, ◌∙◌}
use para_kv.Prelude.{
  ℕ, zero, suc, ◌+◌, ◌/◌, ◌≡◌, ◌≢◌, Bool, true, false, none, some, [], ◌∷◌, length, refl,
}
use para_kv.Prelude.Bytes.{Bytes, bytes_eq, bytes_eq_iff}
use para_kv.Index.Store.{Options}
use para_kv.Cache.{
  LfudaCache, Element, insert_or_update, insert_update, do_insert, do_prune, due_front, due,
  age_loop, do_dynamic_age,
}
use para_kv.Prelude.{◌==◌, if◌then◌else◌, arith, ◌≤◌}
use para_kv.Prelude.Sets.{count}
use para_kv.Cache.{capacity}
use para_kv.Cache.Counts.{entries}
use para_kv.Cache.Agreement.{Agrees, do_insert-Agrees}
use para_kv.Cache.Aging.{count_if, Done, do_dynamic_age-Done}
use para_kv.Storage.{WriteOptions}
use para_kv.Storage.Indexed.{IndexedStorage, put}
use para_kv.Storage.Indexed.Lfuda.{LfuCache, lfu_calls}
use para_kv.Storage.Indexed.Addresses.{address, victims, Apart, put-address}
use para_kv.Tests.Stores.{function_map, function_map-IsMap, fresh}

abbrev halved : ℕ → ℕ
halved n = n / 2

abbrev element : Bytes → ℕ → ℕ → Element Bool
element key use_count age = record {
  key = key;
  use_count = use_count;
  dynamic_age = age;
  value = true;
}

abbrev key16 : ℕ → Bytes
key16 n = n ∷ 0 ∷ 0 ∷ 0 ∷ 0 ∷ 0 ∷ 0 ∷ 0 ∷ 0 ∷ 0 ∷ 0 ∷ 0 ∷ 0 ∷ 0 ∷ 0 ∷ 0 ∷ []

abbrev elements_of : ℕ → Element Bool
elements_of zero = element (key16 1) 4 0
elements_of (suc zero) = element (key16 2) 2 5
elements_of (suc (suc n)) = element (key16 3) 1 20

-- Three elements in use, of which two are due at 30, and no open one.
abbrev full_cache : LfudaCache Bool
full_cache = record {
  used_size = 3;
  dynamic_age_tick = 15;
  keyed_elements = (key16 1, 0) ∷ (key16 2, 1) ∷ (key16 3, 2) ∷ [];
  lfu_list = (1, 2) ∷ (2, 1) ∷ (4, 0) ∷ [];
  used = 0 ∷ 1 ∷ 2 ∷ [];
  free = [];
  elements = elements_of;
}

do_dynamic_age-Done_example :
    let r = do_dynamic_age Bool halved full_cache 30 in
    (age_loop Bool halved (length full_cache.used + 1) full_cache 30 none 0 ≡ some r)
    × Done Bool halved 30 (count_if (due Bool halved full_cache 30) full_cache.used) 3 (some r)
do_dynamic_age-Done_example = do_dynamic_age-Done Bool halved full_cache 30

-- Both due elements are aged, and the insertion evicts the first of the least count.
evicted_key :
    (insert_update Bool halved full_cache (key16 4) true 30 insert_or_update).1 ≡ key16 3 ∷ []
unfolding insert_update do_insert do_prune do_dynamic_age due_front
evicted_key = refl

abbrev index_options : Options
index_options = record {
  key_size = 16;
  segment_key_size = 16;
  value_size = 16;
  has_wal_path = true;
  has_snapshot_dir = true;
  wal_checkpoint_bytes = 1000;
}

abbrev lfu : LfuCache
lfu = record { entries = full_cache; readings = λ n. 30; taken = 0 }

abbrev indexed : IndexedStorage function_map (lfu_calls halved) index_options
indexed = record {
  context = some (record { index = fresh; lfu = some lfu });
  calls = λ n. record { dumped = true; renamed = true; reopened = true; stated = true };
  used = 0;
  save_calls = record { created = true; written = true; synced = true; renamed = true };
  state_file = none;
}

abbrev any_write : WriteOptions
any_write = record { overwrite = true; durable = false; ttl_ms = 0 }

unequal : (j k : Bytes) → bytes_eq j k ≡ false → j ≢ k
unequal j k h e = false_is_not_true (sym h ∙ (bytes_eq_iff j k).1 e)
  where
    false_is_not_true : false ≡ true → ⊥
    false_is_not_true p = cc

not_evicted :
    Apart function_map
      (lfu_calls halved)
      index_options
      (key16 9)
      (victims function_map (lfu_calls halved) index_options indexed.context (key16 4))
unfolding insert_update do_insert do_prune do_dynamic_age due_front
not_evicted = (unequal (key16 9) (key16 3) refl, tt)

put-address_example :
    address function_map
      (lfu_calls halved)
      index_options
      (put function_map
        (lfu_calls halved)
        index_options
        indexed
        (key16 4)
        (5 ∷ [])
        []
        any_write).1.context
      (key16 9)
    ≡ address function_map (lfu_calls halved) index_options indexed.context (key16 9)
put-address_example =
    put-address function_map (lfu_calls halved) index_options function_map-IsMap indexed (key16 4)
      (5 ∷ []) [] any_write (key16 9) (unequal (key16 9) (key16 4) refl) not_evicted

full_cache-listed :
    (k n : ℕ)
    → entries k n full_cache.lfu_list
      ≡ (if (full_cache.elements n).use_count == k then count n full_cache.used else 0)
full_cache-listed k zero = ground arith
full_cache-listed k (suc zero) = ground arith
full_cache-listed k (suc (suc n)) = ground arith

full_cache-Agrees : Agrees Bool 3 full_cache
full_cache-Agrees = record {
  counted = refl;
  listed = full_cache-listed;
  once = λ n. ground arith;
  whole = refl;
}

do_insert-Agrees_example :
    let after = (do_insert Bool halved full_cache (key16 4) true 30).1 in
    Agrees Bool 3 after × (after.used_size ≤ 3) × (capacity Bool after ≡ 3)
do_insert-Agrees_example =
    do_insert-Agrees Bool halved 3 full_cache (key16 4) true 30 full_cache-Agrees
