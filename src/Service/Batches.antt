-- ===== src/Service/Batches.antt =====
-- What the frame of the handlers does with a batch (parakv/service/kvcache_storage_service_impl.cc).
use mathlib.Core.Path.{◌∙◌}
use para_kv.Prelude.{
  ℕ, ◌+◌, ◌%◌, ◌^◌, ◌≡◌, ◌≤◌, ◌<◌, Bool, true, false, List, [], ◌∷◌, ltb, length, map, refl, arith,
  if◌then◌else◌, Bool-cases, inl, inr,
}
use para_kv.Prelude.Bytes.{Bytes}
use para_kv.Storage.{BackendCode, StorageBackend}
use para_kv.Storage.Namespaces.{NamespaceManager}
use para_kv.Service.{
  StatusCode, ServiceOptions, KvItem, BatchWriteRequest, BatchReadRequest, BatchDeleteRequest,
  BatchResponse, batch_loop, batch, count, batch_write, batch_read, batch_delete, write_item,
  read_key, delete_item, to_proto_code, is_ok,
}

-- `StatusCode::OK`
abbrev pub succeeded : StatusCode → Bool
succeeded StatusCode.ok = true
succeeded _ = false

to_proto_code-ok : (c : BackendCode) → succeeded (to_proto_code c) ≡ is_ok c
to_proto_code-ok BackendCode.ok = refl
to_proto_code-ok BackendCode.not_found = refl
to_proto_code-ok BackendCode.already_exists = refl
to_proto_code-ok BackendCode.value_too_large = refl
to_proto_code-ok BackendCode.storage_full = refl
to_proto_code-ok BackendCode.io_error = refl
to_proto_code-ok BackendCode.unavailable = refl
to_proto_code-ok BackendCode.corrupted = refl
to_proto_code-ok BackendCode.invalid_argument = refl

-- How many results have the code `OK`.
abbrev pub successes : {R : Type 0} → (R → StatusCode) → List R → ℕ
successes code [] = 0
successes code (r ∷ results) =
    let rest = successes code results in if succeeded (code r) then rest + 1 else rest

successes-length :
    {R : Type 0} (code : R → StatusCode) (rs : List R) → successes code rs ≤ length rs
successes-length code [] = omega arith
successes-length code (r ∷ rs) = ground (arith, successes-length code rs)

pub small : (n : ℕ) → n < 2 ^ 32 → n % 2 ^ 32 ≡ n
small n h = omega (arith, h)

-- A batch that is processed: a result for each item, in the order of the items, and counts that
-- agree with the results' codes.
abbrev pub Processed :
    {I R : Type 0}
    → (I → Bytes)
    → (R → Bytes)
    → (R → StatusCode)
    → List I
    → BatchResponse R
    → Type 0
Processed item_key key code items r =
    (r.code ≡ StatusCode.ok)
    × (map key r.results ≡ map item_key items)
    × (r.success_count ≡ successes code r.results)
    × (r.success_count + r.failure_count ≡ length items)

pub fits_word :
    {I : Type 0} (items : List I) (options : ServiceOptions)
    → options.max_batch_size < 2 ^ 32
    → length items ≤ options.max_batch_size
    → ltb options.max_batch_size (length items % 2 ^ 32) ≡ false
fits_word items options word fits =
    simp (small (length items) (omega (arith, word, fits))) (ground (arith, fits))

module _ {M I R : Type 0} (step : I → M → (R × Bool) × M) (item_key : I → Bytes) (key : R → Bytes)
    (code : R → StatusCode) (step_key : (i : I) (m : M) → key (step i m).0.0 ≡ item_key i)
    (step_code : (i : I) (m : M) → succeeded (code (step i m).0.0) ≡ (step i m).0.1) where
  loop-keys :
      (items : List I) (counts : ℕ × ℕ) (m : M)
      → map key (batch_loop step items counts m).0.0 ≡ map item_key items
  loop-keys [] counts m = refl
  loop-keys (i ∷ items) counts m =
      λ i'. step_key i m i' ∷ loop-keys items (count (step i m).0.1 counts) (step i m).1 i'

  loop-successes :
      (items : List I) (s f : ℕ) (m : M)
      → s + f + length items < 2 ^ 32
      → let r = (batch_loop step items (s, f) m).0 in
        (r.1.0 ≡ s + successes code r.0) × (r.1.0 + r.1.1 ≡ s + f + length items)
  loop-successes [] s f m fits = (omega arith, omega arith)
  loop-successes (i ∷ items) s f m fits = elim (Bool-cases ((step i m).0.1)) [
    | inl e ↦
        let ih = loop-successes items (s + 1) f (step i m).1 (omega (arith, fits)) in
        simp (e, step_code i m ∙ e, small (s + 1) (omega (arith, fits)))
          (omega (arith, ih.0), omega (arith, ih.1))
    | inr e ↦
        let ih = loop-successes items s (f + 1) (step i m).1 (omega (arith, fits)) in
        simp (e, step_code i m ∙ e, small (f + 1) (omega (arith, fits)))
          (omega (arith, ih.0), omega (arith, ih.1))
  ]

  batch-Processed :
      (options : ServiceOptions) (items : List I) (m : M)
      → options.max_batch_size < 2 ^ 32
      → 0 < length items
      → length items ≤ options.max_batch_size
      → Processed item_key key code items (batch step options items m).0
  batch-Processed options [] m word some_items fits = absurd (omega (arith, some_items))
  batch-Processed options (i ∷ items) m word some_items fits =
      let counts = loop-successes (i ∷ items) 0 0 m (omega (arith, word, fits)) in
      simp (fits_word (i ∷ items) options word fits)
        (refl, loop-keys (i ∷ items) (0, 0) m, omega (arith, counts.0), omega (arith, counts.1))

module _ (b : StorageBackend) (options : ServiceOptions) where
  write_key :
      (request : BatchWriteRequest) (item : KvItem) (m : NamespaceManager b)
      → (write_item b options request item m).0.0.key ≡ item.key
  write_key request item m = ground arith

  write_code :
      (request : BatchWriteRequest) (item : KvItem) (m : NamespaceManager b)
      → let r = (write_item b options request item m).0 in succeeded r.0.code ≡ r.1
  write_code request item m = grind (arith, to_proto_code-ok)

  read_key_key :
      (request : BatchReadRequest) (k : Bytes) (m : NamespaceManager b)
      → (read_key b options request k m).0.0.key ≡ k
  read_key_key request k m = ground arith

  read_code :
      (request : BatchReadRequest) (k : Bytes) (m : NamespaceManager b)
      → let r = (read_key b options request k m).0 in succeeded r.0.code ≡ r.1
  read_code request k m = grind (arith, to_proto_code-ok)

  delete_key_key :
      (request : BatchDeleteRequest) (k : Bytes) (m : NamespaceManager b)
      → (delete_item b options request k m).0.0.key ≡ k
  delete_key_key request k m = ground arith

  delete_code :
      (request : BatchDeleteRequest) (k : Bytes) (m : NamespaceManager b)
      → let r = (delete_item b options request k m).0 in succeeded r.0.code ≡ r.1
  delete_code request k m = grind (arith, to_proto_code-ok)

-- A batch of at least one item, within the limit (a 32-bit number), is answered `OK` as a whole
-- with a result for each item, in the items' order and under their keys; the success count is the
-- number of results with the code `OK`, and the two counts make up the size of the batch.
pub batch_write-Processed :
    (b : StorageBackend) (options : ServiceOptions) (request : BatchWriteRequest)
    (m : NamespaceManager b)
    → options.max_batch_size < 2 ^ 32
    → 0 < length request.items
    → length request.items ≤ options.max_batch_size
    → Processed
        (λ i. i.key)
        (λ r. r.key)
        (λ r. r.code)
        request.items
        (batch_write b options request m).0
unfolding batch_write
batch_write-Processed b options request m word some_items fits =
    batch-Processed (write_item b options request) (λ i. i.key) (λ r. r.key) (λ r. r.code)
      (write_key b options request) (write_code b options request) options request.items m word
      some_items fits

-- A batch of reads of at least one key, within the limit (a 32-bit number), is answered `OK` as a
-- whole with a result for each key, in the keys' order; the hit count is the number of results with
-- the code `OK`, and hits and misses make up the size of the batch.
pub batch_read-Processed :
    (b : StorageBackend) (options : ServiceOptions) (request : BatchReadRequest)
    (m : NamespaceManager b)
    → options.max_batch_size < 2 ^ 32
    → 0 < length request.keys
    → length request.keys ≤ options.max_batch_size
    → Processed (λ k. k) (λ r. r.key) (λ r. r.code) request.keys (batch_read b options request m).0
unfolding batch_read
batch_read-Processed b options request m word some_items fits =
    batch-Processed (read_key b options request) (λ k. k) (λ r. r.key) (λ r. r.code)
      (read_key_key b options request) (read_code b options request) options request.keys m word
      some_items fits

-- A batch of deletions of at least one key, within the limit (a 32-bit number), is answered `OK` as
-- a whole with a result for each key, in the keys' order; the success count is the number of
-- results with the code `OK`, and the two counts make up the size of the batch.
pub batch_delete-Processed :
    (b : StorageBackend) (options : ServiceOptions) (request : BatchDeleteRequest)
    (m : NamespaceManager b)
    → options.max_batch_size < 2 ^ 32
    → 0 < length request.keys
    → length request.keys ≤ options.max_batch_size
    → Processed
        (λ k. k)
        (λ r. r.key)
        (λ r. r.code)
        request.keys
        (batch_delete b options request m).0
unfolding batch_delete
batch_delete-Processed b options request m word some_items fits =
    batch-Processed (delete_item b options request) (λ k. k) (λ r. r.key) (λ r. r.code)
      (delete_key_key b options request) (delete_code b options request) options request.keys m word
      some_items fits
