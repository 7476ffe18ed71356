-- ===== src/Storage/Indexed/Addresses.antt =====
-- Which keys `Put` and `Get` of the indexed backend can change
-- (parakv/core/kvcache_storage/index_kvcache_storage_backend.cc).
use mathlib.Core.Path.{◌∙◌, ap}
use para_kv.Prelude.{
  ℕ, ◌+◌, ◌≡◌, ◌≢◌, Option, none, some, List, [], ◌∷◌, length, refl, ◌==◌, Bool-cases, ◌⊎◌, inl,
  inr,
}
use para_kv.Prelude.Bytes.{Bytes}
use para_kv.Status.{Status}
use para_kv.Index.Table.{MapCalls, IsMap}
use para_kv.Index.Store.{Options, Index}
use para_kv.Index.Store.Access
use para_kv.Index.Store.Others.{put-other, delete_key-other, get-map}
use para_kv.Storage.{BackendCode, WriteOptions}
use para_kv.Storage.Payload.{encode_payload}
use para_kv.Storage.Indexed.{
  CacheCalls, Context, IndexedStorage, from_string, put, put_key, put_context, put_probed,
  put_encoded, put_indexed, cached, evict, next_calls,
}

module _ (o : MapCalls) (cache : CacheCalls) (opts : Options) where
  -- Where the index of a backend maps a key to, if the backend is open.
  abbrev pub address : Option (Context o cache opts) → Bytes → Option ℕ
  address none key = none
  address (some ctx) key = o.find ctx.index.map key

  -- The keys that the cache gives up when a key is inserted.
  abbrev pub given_up : Option cache.Cache → Bytes → List Bytes
  given_up none key = []
  given_up (some lfu) key = (cache.insert lfu key).0

  abbrev pub victims : Option (Context o cache opts) → Bytes → List Bytes
  victims none key = []
  victims (some ctx) key = given_up ctx.lfu key

  -- A key that is none of a list's.
  abbrev pub Apart : Bytes → List Bytes → Type 0
  Apart k [] = Unit
  Apart k (key ∷ keys) = (k ≢ key) × Apart k keys

  module _ (laws : IsMap o) (k : Bytes) where
    evict-address :
        (keys : List Bytes) (used : ℕ) (b : IndexedStorage o cache opts)
        (ctx : Context o cache opts)
        → Apart k keys
        → address (evict o cache opts keys used b ctx).context k ≡ o.find ctx.index.map k
    evict-address [] used b ctx apart = refl
    evict-address (key ∷ keys) used b ctx apart =
        evict-address keys (used + 1) b _ apart.1
        ∙ delete_key-other o laws opts (b.calls used) key k apart.0 ctx.index

    cached-address :
        (b : IndexedStorage o cache opts) (ctx : Context o cache opts) (key : Bytes)
        (lfu : Option cache.Cache)
        → Apart k (given_up lfu key)
        → address (cached o cache opts b ctx key lfu).context k ≡ o.find ctx.index.map k
    cached-address b ctx key none apart = refl
    cached-address b ctx key (some lfu) apart =
        evict-address (cache.insert lfu key).0 (b.used + 1) b _ apart

    put_indexed-address :
        (b : IndexedStorage o cache opts) (ctx : Context o cache opts) (key : Bytes)
        (r : Status × Index o)
        → Apart k (given_up ctx.lfu key)
        → address (put_indexed o cache opts b ctx key r).1.context k ≡ o.find r.1.map k
    put_indexed-address b ctx key (Status.ok, ix) apart = cached-address b _ key ctx.lfu apart
    put_indexed-address b ctx key (e, ix) apart = refl

    put_encoded-address :
        (b : IndexedStorage o cache opts) (ctx : Context o cache opts) (key : Bytes)
        (r : BackendCode × Bytes × Bytes)
        → k ≢ key
        → Apart k (given_up ctx.lfu key)
        → address (put_encoded o cache opts b ctx key r).1.context k ≡ o.find ctx.index.map k
    put_encoded-address b ctx key (BackendCode.ok, payload, err) ne apart =
        put_indexed-address b ctx key
          (Access.put o opts (next_calls o cache opts b) ctx.index key (some payload)
            (length payload))
          apart
        ∙ put-other o laws opts (next_calls o cache opts b) key k ne ctx.index (some payload)
            (length payload)
    put_encoded-address b ctx key (c, payload, err) ne apart = refl

    put_probed-address :
        (b : IndexedStorage o cache opts) (ctx : Context o cache opts) (key value metadata : Bytes)
        (r : Status × Option Bytes × Index o)
        → k ≢ key
        → Apart k (given_up ctx.lfu key)
        → address (put_probed o cache opts b ctx key value metadata r).1.context k
          ≡ o.find r.2.map k
    put_probed-address b ctx key value metadata (Status.not_found, found, ix) ne apart =
        put_encoded-address b _ key (encode_payload opts.value_size value metadata) ne apart
    put_probed-address b ctx key value metadata (e, found, ix) ne apart = refl

    put_context-address :
        (b : IndexedStorage o cache opts) (key value metadata : Bytes) (wopts : WriteOptions)
        (ctx : Option (Context o cache opts))
        → b.context ≡ ctx
        → k ≢ key
        → Apart k (victims ctx key)
        → address (put_context o cache opts b key value metadata wopts ctx).1.context k
          ≡ address ctx k
    put_context-address b key value metadata wopts none closed ne apart =
        ap (λ c. address c k) closed
    put_context-address b key value metadata wopts (some ctx) here ne apart =
        elim (Bool-cases wopts.overwrite) [
          | inl e ↦ simp (e) (
              put_encoded-address b ctx key (encode_payload opts.value_size value metadata) ne
                apart)
          | inr e ↦ simp (e) (
              put_probed-address b ctx key value metadata
                (Access.get o opts ctx.index key opts.value_size) ne apart
              ∙ ap (λ (m : o.Map). o.find m k) (get-map o opts ctx.index key opts.value_size))
        ]

    put_key-address :
        (b : IndexedStorage o cache opts) (value metadata : Bytes) (wopts : WriteOptions)
        (key : Bytes) (parsed : Option Bytes)
        → (parsed ≡ none) ⊎ (parsed ≡ some key)
        → k ≢ key
        → Apart k (victims b.context key)
        → address (put_key o cache opts b value metadata wopts parsed).1.context k
          ≡ address b.context k
    put_key-address b value metadata wopts key parsed (inl bad) ne apart = simp (bad) refl
    put_key-address b value metadata wopts key parsed (inr good) ne apart =
        simp (good) (put_context-address b key value metadata wopts b.context refl ne apart)

-- Whatever `Put` answers, the index maps every key to the address it had before, but for the key
-- that is put and those that the cache gives up when it takes the key in.
pub put-address :
    (o : MapCalls) (cache : CacheCalls) (opts : Options) (laws : IsMap o)
    (b : IndexedStorage o cache opts) (key value metadata : Bytes) (wopts : WriteOptions)
    (k : Bytes)
    → k ≢ key
    → Apart o cache opts k (victims o cache opts b.context key)
    → address o cache opts (put o cache opts b key value metadata wopts).1.context k
      ≡ address o cache opts b.context k
unfolding put
put-address o cache opts laws b key value metadata wopts k ne apart =
    put_key-address o cache opts laws k b value metadata wopts key (from_string key) parsed ne apart
  where
    parsed : (from_string key ≡ none) ⊎ (from_string key ≡ some key)
    parsed = elim (Bool-cases (length key == 16)) [
      | inl e ↦ inr (simp (e) refl)
      | inr e ↦ inl (simp (e) refl)
    ]
