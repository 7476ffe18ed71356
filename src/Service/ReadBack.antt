-- ===== src/Service/ReadBack.antt =====
-- From the service through a namespace to the in-memory backend and back
-- (parakv/service/kvcache_storage_service_impl.cc,
-- parakv/core/kvcache_storage/backend_namespace_manager.cc,
-- parakv/core/kvcache_storage/mocked_inmemory_kvcache_storage.cc).
use mathlib.Core.Path.{◌∙◌, ap}
use para_kv.Prelude.{
  ℕ, ◌+◌, if◌then◌else◌, Option, none, inl, inr, Bool-cases, ◌≡◌, ◌<◌, ◌^◌, ◌&&◌, ==_iff, Bool,
  true, false, some, [], ◌∷◌, ltb, length, refl, arith,
}
use para_kv.Prelude.Bytes.{Bytes}
use para_kv.Prelude.Maps.{lookup, bytes_eq_self}
use para_kv.Storage.{BackendCode, WriteOptions, ReadOptions}
use para_kv.Storage.Memory.{
  Entry, MemoryStorage, memory_storage, get_entry, put_entry, new_entry, ttl_of, now_ms, tick,
}
use para_kv.Storage.Memory
use para_kv.Storage.Memory.Expiry.{put-live, accepts, live}
use para_kv.Storage.Namespaces.{NamespaceManager, set_object}
use para_kv.Storage.Namespaces
use para_kv.Service.{
  StatusCode, ServiceOptions, BatchWriteRequest, BatchReadRequest, batch_write, batch_read,
  read_result, is_empty,
}
use para_kv.Service.Batches.{fits_word}

-- The entry of a value without a limit of its life.
abbrev lasting : Bytes → Bytes → Entry
lasting value metadata = record { value = value; metadata = metadata; expiration_ms = 0 }

put-lasting :
    (s : MemoryStorage) (key value metadata : Bytes) (overwrite durable : Bool)
    → s.default_ttl_ms ≡ 0
    → accepts overwrite (live s (now_ms s) key) ≡ true
    → ltb 0 s.max_value_bytes && ltb s.max_value_bytes (length value) ≡ false
    → lookup key
        (Memory.put s key value metadata
          (record { overwrite = overwrite; durable = durable; ttl_ms = 0 })).1.store
      ≡ some (lasting value metadata)
put-lasting s key value metadata overwrite durable forever free fits =
    let opts : WriteOptions = record { overwrite = overwrite; durable = durable; ttl_ms = 0 } in
    let same : s.readings (s.taken + 0) ≡ now_ms s = ap s.readings (omega arith) in
    (put-live s key value metadata opts key fits).1
    ∙ simp (bytes_eq_self key, forever, same, free) refl

get-lasting :
    (s : MemoryStorage) (key value metadata : Bytes) (opts : ReadOptions)
    → s.default_ttl_ms ≡ 0
    → lookup key s.store ≡ some (lasting value metadata)
    → (Memory.get s key opts).0 ≡ record {
      code = BackendCode.ok;
      message = [];
      value = if opts.include_value then value else [];
      metadata = metadata;
      expiration_ms = 0;
    }
unfolding Memory.get
get-lasting s key value metadata opts forever h = simp (h, forever) ground arith

shown_value :
    (key value metadata : Bytes) (opts : ReadOptions)
    → (read_result key opts (record {
      code = BackendCode.ok;
      message = [];
      value = if opts.include_value then value else [];
      metadata = metadata;
      expiration_ms = 0;
    })).0
      ≡ record {
        key = key;
        value = if opts.include_value then value else [];
        metadata = metadata;
        code = StatusCode.ok;
        message = [];
        expiration_ms = 0;
      }
shown_value key value metadata opts = ground arith

-- `Put` leaves the default life.
put_entry-default :
    (key : Bytes) (entry : Entry) (overwrite : Bool) (m : MemoryStorage) (old : Option Entry)
    → (put_entry key entry overwrite m old).1.default_ttl_ms ≡ m.default_ttl_ms
put_entry-default key entry overwrite m none = refl
put_entry-default key entry overwrite m (some old) = ground arith

put_entry_ticked-default :
    (key : Bytes) (entry : Entry) (overwrite b : Bool) (m : MemoryStorage) (old : Option Entry)
    → (put_entry key entry overwrite (if b then tick m else m) old).1.default_ttl_ms
      ≡ m.default_ttl_ms
put_entry_ticked-default key entry overwrite true m old =
    put_entry-default key entry overwrite (tick m) old
put_entry_ticked-default key entry overwrite false m old =
    put_entry-default key entry overwrite m old

put-default :
    (m : MemoryStorage) (key value metadata : Bytes) (opts : WriteOptions)
    → (Memory.put m key value metadata opts).1.default_ttl_ms ≡ m.default_ttl_ms
unfolding Memory.put
put-default m key value metadata opts =
    elim (Bool-cases (ltb 0 m.max_value_bytes && ltb m.max_value_bytes (length value))) [
      | inl large ↦ simp large refl
      | inr fits ↦
          let life = ttl_of m opts in
          simp fits (
            put_entry_ticked-default key (new_entry m value metadata life) opts.overwrite
              (ltb 0 life) m (lookup key m.store))
    ]

-- The namespace's object after a put, and the answer of a get.
put-state :
    (m : NamespaceManager memory_storage) (ns key value metadata : Bytes) (opts : WriteOptions)
    (i : ℕ)
    → lookup ns m.backends ≡ some i
    → (Namespaces.put memory_storage m ns key value metadata opts).1
      ≡ set_object memory_storage m i (Memory.put (m.objects i) key value metadata opts).1
unfolding Namespaces.put
put-state m ns key value metadata opts i h = simp (h) refl

get-result :
    (m : NamespaceManager memory_storage) (ns key : Bytes) (opts : ReadOptions) (i : ℕ)
    (s : MemoryStorage)
    → lookup ns m.backends ≡ some i
    → (Namespaces.get memory_storage (set_object memory_storage m i s) ns key opts).0
      ≡ (Memory.get s key opts).0
unfolding Namespaces.get
get-result m ns key opts i s h = simp (h, (==_iff i i).1 refl) refl

-- A request to write one item that lasts, and a request to read its key.
abbrev pub write_one : Bytes → Bytes → Bytes → Bytes → Bool → Bool → BatchWriteRequest
write_one ns key value metadata overwrite durable = record {
  namespace = ns;
  items = record { key = key; value = value; ttl_ms = 0; metadata = metadata } ∷ [];
  overwrite = overwrite;
  durable = durable;
}

abbrev pub read_one : Bytes → Bytes → ReadOptions → BatchReadRequest
read_one ns key opts = record {
  namespace = ns;
  keys = key ∷ [];
  include_value = opts.include_value;
  touch_on_hit = opts.touch_on_hit;
}

module _ (options : ServiceOptions) (word : options.max_batch_size < 2 ^ 32)
    (some_room : 0 < options.max_batch_size) (ns key : Bytes)
    (not_empty : is_empty key ≡ false) where
  one_written :
      (m : NamespaceManager memory_storage) (value metadata : Bytes) (overwrite durable : Bool)
      → ltb 0 options.max_value_bytes && ltb options.max_value_bytes (length value) ≡ false
      → (batch_write memory_storage options (write_one ns key value metadata overwrite durable) m).1
        ≡ (Namespaces.put memory_storage m ns key value metadata
            (record { overwrite = overwrite; durable = durable; ttl_ms = 0 })).1
  unfolding batch_write
  one_written m value metadata overwrite durable fits =
      simp
        (
          fits_word (write_one ns key value metadata overwrite durable).items options word
              (omega (arith, some_room)),
          not_empty,
          fits,
        )
        refl

  one_read :
      (m : NamespaceManager memory_storage) (opts : ReadOptions)
      → (batch_read memory_storage options (read_one ns key opts) m).0.results
        ≡ (read_result key opts (Namespaces.get memory_storage m ns key opts).0).0 ∷ []
  unfolding batch_read
  one_read m opts =
      simp (fits_word (key ∷ []) options word (omega (arith, some_room)), not_empty) refl

-- Over the in-memory backend without a default life, for a namespace with a backend, and limits on
-- a batch that admit one item and fit 32 bits: a batch that writes one item with a key, without a
-- limit of its life and within the limits on values, and that either overwrites or meets no visible
-- entry of the key, followed by a batch that reads the key in the namespace, answers `OK` with the
-- metadata that were written, and with the value that was written where values are asked for.
pub batch_read-batch_write :
    (options : ServiceOptions) (m : NamespaceManager memory_storage) (ns key value metadata : Bytes)
    (overwrite durable : Bool) (opts : ReadOptions) (i : ℕ)
    → options.max_batch_size < 2 ^ 32
    → 0 < options.max_batch_size
    → is_empty key ≡ false
    → lookup ns m.backends ≡ some i
    → (m.objects i).default_ttl_ms ≡ 0
    → accepts overwrite (live (m.objects i) (now_ms (m.objects i)) key) ≡ true
    → ltb 0 options.max_value_bytes && ltb options.max_value_bytes (length value) ≡ false
    → ltb 0 (m.objects i).max_value_bytes && ltb (m.objects i).max_value_bytes (length value)
      ≡ false
    → let written =
        batch_write memory_storage options (write_one ns key value metadata overwrite durable) m in
      (batch_read memory_storage options (read_one ns key opts) written.1).0.results
      ≡ record {
        key = key;
        value = if opts.include_value then value else [];
        metadata = metadata;
        code = StatusCode.ok;
        message = [];
        expiration_ms = 0;
      }
        ∷ []
batch_read-batch_write options m ns key value metadata overwrite durable opts i word some_room
      not_empty here forever free fits fits_backend =
    ap (λ n. (batch_read memory_storage options (read_one ns key opts) n).0.results)
      (one_written options word some_room ns key not_empty m value metadata overwrite durable fits
        ∙ put-state m ns key value metadata wopts i here)
    ∙ one_read options word some_room ns key not_empty (set_object memory_storage m i stored) opts
    ∙ ap (λ r. (read_result key opts r).0 ∷ [])
        (get-result m ns key opts i stored here
          ∙ get-lasting stored key value metadata opts
              (put-default (m.objects i) key value metadata wopts ∙ forever)
              (put-lasting (m.objects i) key value metadata overwrite durable forever free
                fits_backend))
    ∙ ap (λ r. r ∷ []) (shown_value key value metadata opts)
  where
    wopts : WriteOptions
    wopts = record { overwrite = overwrite; durable = durable; ttl_ms = 0 }

    stored : MemoryStorage
    stored = (Memory.put (m.objects i) key value metadata wopts).1
