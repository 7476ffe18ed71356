-- ===== src/Index/Table.antt =====
-- The map of the index, from keys to encoded offsets: the calls of
-- `phmap::parallel_flat_hash_map_m` that parakv/core/index/index.cc makes, as an interface, and
-- the laws of a map that the code relies on.
use para_kv.Prelude.{ℕ, ◌≡◌, ◌≢◌, Option, none, some}
use para_kv.Prelude.Bytes.{Bytes}

pub record MapCalls : Type 1 where
  pub Map : Type 0
  -- a snapshot file, in a format of the library
  pub Archive : Type 0
  pub empty : Map
  -- `if_contains`
  pub find : Map → Bytes → Option ℕ
  -- `insert_or_assign`; also `lazy_emplace_l`, `try_emplace` and `modify_if` where they write
  pub assign : Map → Bytes → ℕ → Map
  pub erase : Map → Bytes → Map
  pub phmap_dump : Map → Archive
  pub phmap_load : Archive → Option Map

pub record IsMap (o : MapCalls) : Type 0 where
  pub find-empty : (k : Bytes) → o.find o.empty k ≡ none
  pub find-assign : (m : o.Map) (k : Bytes) (v : ℕ) → o.find (o.assign m k v) k ≡ some v
  pub find-assign_other :
      (m : o.Map) (k k' : Bytes) (v : ℕ) → k' ≢ k → o.find (o.assign m k v) k' ≡ o.find m k'
  pub find-erase : (m : o.Map) (k : Bytes) → o.find (o.erase m k) k ≡ none
  pub find-erase_other : (m : o.Map) (k k' : Bytes) → k' ≢ k → o.find (o.erase m k) k' ≡ o.find m k'
  pub load-dump : (m : o.Map) → o.phmap_load (o.phmap_dump m) ≡ some m
