-- ===== src/Service/Splits.antt =====
-- Batches that are refused and batches that are split
-- (parakv/service/kvcache_storage_service_impl.cc).
use para_kv.Prelude.{
  ℕ, ◌+◌, ◌^◌, ◌≡◌, ◌≤◌, ◌<◌, ◌⊎◌, Bool, true, List, [], ◌∷◌, ◌++◌, ltb, length, length-append,
  refl, arith, inl, inr,
}
use mathlib.Core.Path.{sym, ◌∙◌}
use para_kv.Storage.{StorageBackend}
use para_kv.Storage.Namespaces.{NamespaceManager}
use para_kv.Service.{
  StatusCode, ServiceOptions, KvItem, ItemResult, BatchWriteRequest, batch_loop, batch, count,
  batch_write, write_item,
}
use para_kv.Service.Batches.{small, fits_word}

module _ {M I R : Type 0} (step : I → M → (R × Bool) × M) where
  -- The results and the state do not depend on the counts.
  loop-counts :
      (items : List I) (c d : ℕ × ℕ) (m : M)
      → (let r = batch_loop step items c m in
          ◌≡◌ {A = List R × M} (r.0.0, r.1) (let t = batch_loop step items d m in (t.0.0, t.1)))
  loop-counts [] c d m = refl
  loop-counts (i ∷ items) c d m =
      let rest = loop-counts items (count (step i m).0.1 c) (count (step i m).0.1 d) (step i m).1 in
      λ k. ((step i m).0.0 ∷ (rest k).0, (rest k).1)

  loop-append :
      (xs ys : List I) (c : ℕ × ℕ) (m : M)
      → let r = batch_loop step (xs ++ ys) c m in
        let r1 = batch_loop step xs c m in
        let r2 = batch_loop step ys (0, 0) r1.1 in
        ◌≡◌ {A = List R × M} (r.0.0, r.1) (r1.0.0 ++ r2.0.0, r2.1)
  loop-append [] ys c m = loop-counts ys c (0, 0) m
  loop-append (i ∷ xs) ys c m =
      let rest = loop-append xs ys (count (step i m).0.1 c) (step i m).1 in
      λ k. ((step i m).0.0 ∷ (rest k).0, (rest k).1)

  abbrev then_loop : List I → List R × M → List R × M
  then_loop ys p = let t = batch_loop step ys (0, 0) p.1 in (p.0 ++ t.0.0, t.1)

  batch_fits :
      (options : ServiceOptions) (items : List I) (m : M)
      → options.max_batch_size < 2 ^ 32
      → 0 < length items
      → length items ≤ options.max_batch_size
      → let r = batch step options items m in
        let t = batch_loop step items (0, 0) m in
        ◌≡◌ {A = List R × M} (r.0.results, r.1) (t.0.0, t.1)
  batch_fits options [] m word some_items fits = absurd (omega (arith, some_items))
  batch_fits options (i ∷ items) m word some_items fits =
      simp (fits_word (i ∷ items) options word fits) refl

  batch-append :
      (options : ServiceOptions) (xs ys : List I) (m : M)
      → options.max_batch_size < 2 ^ 32
      → 0 < length xs
      → 0 < length ys
      → length (xs ++ ys) ≤ options.max_batch_size
      → let r = batch step options (xs ++ ys) m in
        let r1 = batch step options xs m in
        let r2 = batch step options ys r1.1 in
        ◌≡◌ {A = List R × M} (r.0.results, r.1) (r1.0.results ++ r2.0.results, r2.1)
  batch-append options xs ys m word some_xs some_ys fits =
      batch_fits options (xs ++ ys) m word (omega (sizes, arith, some_xs)) fits
      ∙ loop-append xs ys (0, 0) m
      ∙ sym (λ k. then_loop ys (first k))
      ∙ sym (λ k. ((batch step options xs m).0.results ++ (second k).0, (second k).1))
    where
      sizes : length (xs ++ ys) ≡ length xs + length ys
      sizes = length-append xs ys

      first :
          let r = batch step options xs m in
          let t = batch_loop step xs (0, 0) m in
          ◌≡◌ {A = List R × M} (r.0.results, r.1) (t.0.0, t.1)
      first = batch_fits options xs m word some_xs (omega (sizes, arith, fits))

      second :
          let r1 = batch step options xs m in
          let r = batch step options ys r1.1 in
          let t = batch_loop step ys (0, 0) r1.1 in
          ◌≡◌ {A = List R × M} (r.0.results, r.1) (t.0.0, t.1)
      second =
          batch_fits options ys (batch step options xs m).1 word some_ys
            (omega (sizes, arith, fits))

  batch-refused :
      (options : ServiceOptions) (items : List I) (m : M)
      → length items < 2 ^ 32
      → (length items ≡ 0) ⊎ (options.max_batch_size < length items)
      → let r = batch step options items m in
        (r.0.code ≡ StatusCode.invalid_argument) × (r.0.results ≡ []) × (r.1 ≡ m)
  batch-refused options [] m word size = (refl, refl, refl)
  batch-refused options (i ∷ items) m word (inl none) = absurd (omega (arith, none))
  batch-refused options (i ∷ items) m word (inr large) =
      simp (small (length (i ∷ items)) word, large_test) (refl, refl, refl)
    where
      large_test : ltb options.max_batch_size (length (i ∷ items)) ≡ true
      large_test = ground (arith, large)

-- A batch without an item and one above the limit, of fewer than 2^32 items, are answered
-- `INVALID_ARGUMENT` without a result, and nothing is written.
pub batch_write-refused :
    (b : StorageBackend) (options : ServiceOptions) (request : BatchWriteRequest)
    (m : NamespaceManager b)
    → length request.items < 2 ^ 32
    → (length request.items ≡ 0) ⊎ (options.max_batch_size < length request.items)
    → let r = batch_write b options request m in
      (r.0.code ≡ StatusCode.invalid_argument) × (r.0.results ≡ []) × (r.1 ≡ m)
unfolding batch_write
batch_write-refused b options request m word size =
    batch-refused (write_item b options request) options request.items m word size

-- A batch of writes within the limit does what its two parts do as batches one after the other,
-- wherever it is split: the same results in the same order, and the same state of every backend.
pub batch_write-append :
    (b : StorageBackend) (options : ServiceOptions) (request : BatchWriteRequest)
    (xs ys : List KvItem) (m : NamespaceManager b)
    → options.max_batch_size < 2 ^ 32
    → 0 < length xs
    → 0 < length ys
    → length (xs ++ ys) ≤ options.max_batch_size
    → let whole = batch_write b options (record request { items = xs ++ ys }) m in
      let first = batch_write b options (record request { items = xs }) m in
      let second = batch_write b options (record request { items = ys }) first.1 in
      ◌≡◌ {A = List ItemResult × NamespaceManager b}
        (whole.0.results, whole.1)
        (first.0.results ++ second.0.results, second.1)
unfolding batch_write
batch_write-append b options request xs ys m word some_xs some_ys fits =
    batch-append (write_item b options request) options xs ys m word some_xs some_ys fits
