-- ===== src/Index/Key/Order.antt =====
-- The order of the keys, and keys in memory (parakv/core/index/key.h).
use mathlib.Core.Path.{subst}
use para_kv.Prelude.{
  ◌^◌, ◌<◌, ◌≡◌, ◌⊎◌, true, false, ◌&&◌, some, [], length, drop, arith, refl, inl, inr, Bool-cases,
}
use mathlib.Core.Logic.{◌↔◌}
use para_kv.Prelude.Bytes.{read_le64, write_le64, read_le64-write_le64}
use para_kv.Index.Key.{Key128, key_eq, key_lt, raw_key, parse_key}

key_eq_fields : (k j : Key128) → key_eq k j ≡ true → k ≡ j
key_eq_fields k j h = λ i. record { hi = his i; lo = los i }
  where
    his : k.hi ≡ j.hi
    his = ground (arith, h)

    los : k.lo ≡ j.lo
    los = ground (arith, h)

key_eq_self : (k : Key128) → key_eq k k ≡ true
key_eq_self k = ground arith

key_lt-total : (k j : Key128) → (key_lt k j ≡ true) ⊎ ((key_eq k j ≡ true) ⊎ (key_lt j k ≡ true))
key_lt-total k j = elim (Bool-cases (key_lt k j)) [
  | inl e ↦ inl e
  | inr e ↦ elim (Bool-cases (key_eq k j)) [
    | inl f ↦ inr (inl f)
    | inr f ↦ inr (inr (ground (arith, e, f)))
  ]
]

-- `==` is equality of keys and `<` is a strict total order on them: of two keys one is less or
-- they are equal, and not both; and it is transitive.
pub key_lt-IsOrder :
    (k j l : Key128)
    → ((key_eq k j ≡ true) ↔ (k ≡ j))
      × ((key_lt k j ≡ true) ⊎ ((key_eq k j ≡ true) ⊎ (key_lt j k ≡ true)))
      × ((key_lt k j && key_eq k j) ≡ false)
      × ((key_lt k j && key_lt j k) ≡ false)
      × ((key_lt k j && key_lt j l) ≡ ((key_lt k j && key_lt j l) && key_lt k l))
key_lt-IsOrder k j l = (
  (key_eq_fields k j, λ e. subst (λ i. key_eq k i ≡ true) e (key_eq_self k)),
  key_lt-total k j,
  ground arith,
  ground arith,
  ground arith,
)

-- A key of two 64-bit halves is 16 bytes in memory, and parsing these bytes gives the key back.
pub parse_key-raw_key :
    (k : Key128)
    → k.hi < 2 ^ 64
    → k.lo < 2 ^ 64
    → (length (raw_key k) ≡ 16) × (parse_key (raw_key k) ≡ some k)
unfolding write_le64
parse_key-raw_key k hi lo = (refl, λ i. some (record { hi = first i; lo = second i }))
  where
    first : read_le64 (raw_key k) ≡ k.hi
    first = read_le64-write_le64 k.hi (write_le64 k.lo) hi

    second : read_le64 (drop 8 (raw_key k)) ≡ k.lo
    second = read_le64-write_le64 k.lo [] lo
