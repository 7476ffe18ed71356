-- ===== src/Storage/Memory/Expiry.antt =====
-- The in-memory backend is a map of entries that run out
-- (parakv/core/kvcache_storage/mocked_inmemory_kvcache_storage.cc).
use para_kv.Prelude.{
  ℕ, ◌+◌, ◌≡◌, refl, Bool, true, false, ◌&&◌, Option, none, some, [], ltb, length, if◌then◌else◌,
  Bool-cases, inl, inr,
}
use mathlib.Core.Path.{subst}
use para_kv.Prelude.Bytes.{Bytes, bytes_eq, bytes_eq_iff}
use para_kv.Prelude.Maps.{lookup, lookup-assign, lookup-erase}
use para_kv.Storage.{BackendCode, ok, not_found, already_exists, WriteOptions, ReadOptions}
use para_kv.Storage.Memory.Life.{runs_out, readings_for, life-runs_out, tick-readings_for}
use para_kv.Storage.Memory.{
  Entry, MemoryStorage, now_ms, tick, expired, put_entry, new_entry, ttl_of, put, delete,
  delete_entry, stored,
}

-- What a client can see of a key at a time: the entry, if it has not run out.
abbrev pub live_entry : ℕ → Option Entry → Option Entry
live_entry t none = none
live_entry t (some e) = if expired e t then none else some e

abbrev pub live : MemoryStorage → ℕ → Bytes → Option Entry
live m t key = live_entry t (lookup key m.store)

-- What a read shows of the visible entry.
abbrev pub shown : ReadOptions → Option Entry → BackendCode × Bytes × Bytes
shown opts none = (not_found, [], [])
shown opts (some e) = (ok, if opts.include_value then e.value else [], e.metadata)

-- Whether an entry may be written, by the visible one.
abbrev pub accepts : Bool → Option Entry → Bool
accepts true e = true
accepts false none = true
accepts false (some e) = false

tick_if-store : (b : Bool) (m : MemoryStorage) → (if b then tick m else m).store ≡ m.store
tick_if-store true m = refl
tick_if-store false m = refl

-- Whether there is no entry.
abbrev pub absent : Option Entry → Bool
absent none = true
absent (some e) = false

-- `stored`, seen through the map.
stored-view :
    (key k : Bytes) (entry : Entry) (b : Bool) (m : MemoryStorage)
    → let r = stored key entry (if b then tick m else m) in
      (r.0.code ≡ ok)
      × (lookup k r.1.store ≡ (if bytes_eq key k then some entry else lookup k m.store))
stored-view key k entry true m = (refl, lookup-assign key k entry m.store)
stored-view key k entry false m = (refl, lookup-assign key k entry m.store)

put_entry-view :
    (key : Bytes) (entry : Entry) (overwrite : Bool) (m : MemoryStorage) (old : Option Entry)
    (k : Bytes)
    → let accepted = accepts overwrite (live_entry (now_ms m) old) in
      ((put_entry key entry overwrite m old).0.code ≡ (if accepted then ok else already_exists))
      × (lookup k (put_entry key entry overwrite m old).1.store
          ≡ (if accepted && bytes_eq key k then some entry else lookup k m.store))
put_entry-view key entry true m none k = (refl, lookup-assign key k entry m.store)
put_entry-view key entry false m none k = (refl, lookup-assign key k entry m.store)
put_entry-view key entry true m (some e) k = stored-view key k entry (ltb 0 e.expiration_ms) m
put_entry-view key entry false m (some e) k = elim (Bool-cases (expired e (now_ms m))) [
  | inl old ↦ simp (old) (stored-view key k entry (ltb 0 e.expiration_ms) m)
  | inr fresh ↦ simp (fresh) (refl, λ i. lookup k (tick_if-store (ltb 0 e.expiration_ms) m i))
]

put_entry_ticked :
    (key : Bytes) (entry : Entry) (overwrite b : Bool) (m : MemoryStorage) (k : Bytes)
    → let m' = if b then tick m else m in
      let accepted = accepts overwrite (live m (now_ms m') key) in
      ((put_entry key entry overwrite m' (lookup key m.store)).0.code
        ≡ (if accepted then ok else already_exists))
      × (lookup k (put_entry key entry overwrite m' (lookup key m.store)).1.store
          ≡ (if accepted && bytes_eq key k then some entry else lookup k m.store))
put_entry_ticked key entry overwrite true m k =
    put_entry-view key entry overwrite (tick m) (lookup key m.store) k
put_entry_ticked key entry overwrite false m k =
    put_entry-view key entry overwrite m (lookup key m.store) k

-- `Put` of a value that is not too large answers `ok` when it may overwrite or no entry of the key
-- is visible at its reading of the clock, and `already_exists` otherwise. In the first case the key
-- has an entry of the value and the metadata. Its `expiration_ms` is the request's `ttl_ms`, or where
-- that is 0 the backend's `default_ttl_ms`, after the first reading of the clock, modulo 2^64, and 0
-- where both are 0. The entries of the other keys, and in the second case that of the key, are what
-- they were.
pub put-live :
    (m : MemoryStorage) (key value metadata : Bytes) (opts : WriteOptions) (k : Bytes)
    → ltb 0 m.max_value_bytes && ltb m.max_value_bytes (length value) ≡ false
    → let r = put m key value metadata opts in
      let now = m.readings (m.taken + readings_for opts.ttl_ms m.default_ttl_ms) in
      let accepted = accepts opts.overwrite (live m now key) in
      let entry : Entry = record {
        value = value;
        metadata = metadata;
        expiration_ms = runs_out (m.readings m.taken) opts.ttl_ms m.default_ttl_ms;
      } in
      (r.0.code ≡ (if accepted then ok else already_exists))
      × (lookup k r.1.store ≡ (if accepted && bytes_eq key k then some entry else lookup k m.store))
unfolding put
put-live m key value metadata opts k fits =
    let life = ttl_of m opts in
    let done =
      put_entry_ticked key (new_entry m value metadata life) opts.overwrite (ltb 0 life) m k in
    let when = tick-readings_for m opts.ttl_ms m.default_ttl_ms in
    let until = life-runs_out (m.readings m.taken) opts.ttl_ms m.default_ttl_ms in
    let shape = λ (now : ℕ) (expiration : ℕ).
      let accepted = accepts opts.overwrite (live m now key) in
      let entry : Entry = record {
        value = value;
        metadata = metadata;
        expiration_ms = expiration;
      } in
      let out =
        put_entry key (new_entry m value metadata life) opts.overwrite
          (if ltb 0 life then tick m else m) (lookup key m.store) in
      (out.0.code ≡ (if accepted then ok else already_exists))
      × (lookup k out.1.store
          ≡ (if accepted && bytes_eq key k then some entry else lookup k m.store)) in
    simp (fits) (
      subst (shape (m.readings (m.taken + readings_for opts.ttl_ms m.default_ttl_ms))) until
        (subst (λ (now : ℕ). shape now (new_entry m value metadata life).expiration_ms) when done))

delete_entry-view :
    (key k : Bytes) (m : MemoryStorage) (e : Option Entry)
    → lookup key m.store ≡ e
    → ((delete_entry key m e).0.code ≡ (if absent e then not_found else ok))
      × (lookup k (delete_entry key m e).1.store
          ≡ (if bytes_eq key k then none else lookup k m.store))
delete_entry-view key k m (some e) h = (refl, lookup-erase key k m.store)
delete_entry-view key k m none h = elim (Bool-cases (bytes_eq key k)) [
  | inl same ↦
      simp (same) (refl, subst (λ j. lookup j m.store ≡ none) ((bytes_eq_iff key k).0 same) h)
  | inr other ↦ simp (other) (refl, refl)
]

-- `Delete` answers `ok` if and only if there is an entry of the key, and then takes it away and
-- leaves the other keys' entries.
pub delete-live :
    (m : MemoryStorage) (key k : Bytes)
    → ((delete m key).0.code ≡ (if absent (lookup key m.store) then not_found else ok))
      × (lookup k (delete m key).1.store ≡ (if bytes_eq key k then none else lookup k m.store))
unfolding delete
delete-live m key k = delete_entry-view key k m (lookup key m.store) refl
