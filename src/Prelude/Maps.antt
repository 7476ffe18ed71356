-- ===== src/Prelude/Maps.antt =====
-- `std::unordered_map` with byte strings as keys: an association list, and its laws.
use para_kv.Prelude.Bytes.{Bytes, bytes_eq, bytes_eq_iff}
use para_kv.Prelude.Tests.{if◌then◌else◌}
use mathlib.Core.Bool.{true}
use mathlib.Core.List.{List, [], ◌∷◌}
use mathlib.Core.Option.{Option, none, some}
use mathlib.Core.Path.{◌≡◌, refl}
use native.Mathlib.Omega.{arith}

pub bytes_eq_self : (k : Bytes) → bytes_eq k k ≡ true
bytes_eq_self k = (bytes_eq_iff k k).1 refl

module _ {ℓ} {V : Type ℓ} where
  -- `find`
  abbrev pub lookup : Bytes → List (Bytes × V) → Option V
  lookup k [] = none
  lookup k ((j, v) ∷ m) = let rest = lookup k m in if bytes_eq j k then some v else rest

  -- `m[k] = v`; also `emplace` of a missing key
  abbrev pub assign : Bytes → V → List (Bytes × V) → List (Bytes × V)
  assign k v [] = (k, v) ∷ []
  assign k v ((j, w) ∷ m) =
      let rest = assign k v m in if bytes_eq j k then (k, v) ∷ m else (j, w) ∷ rest

  -- `erase`: every entry of the key, of which there is one at most
  abbrev pub erase : Bytes → List (Bytes × V) → List (Bytes × V)
  erase k [] = []
  erase k ((j, w) ∷ m) = let rest = erase k m in if bytes_eq j k then rest else (j, w) ∷ rest

  pub lookup-assign :
      (k j : Bytes) (v : V) (m : List (Bytes × V))
      → lookup j (assign k v m) ≡ (if bytes_eq k j then some v else lookup j m)
  lookup-assign k j v [] = refl
  lookup-assign k j v ((i, w) ∷ m) =
      ground (arith, bytes_eq_iff k j, bytes_eq_iff i k, bytes_eq_iff i j, lookup-assign k j v m)

  pub lookup-erase :
      (k j : Bytes) (m : List (Bytes × V))
      → lookup j (erase k m) ≡ (if bytes_eq k j then none else lookup j m)
  lookup-erase k j [] = ground arith
  lookup-erase k j ((i, w) ∷ m) =
      ground (arith, bytes_eq_iff k j, bytes_eq_iff i k, bytes_eq_iff i j, lookup-erase k j m)
