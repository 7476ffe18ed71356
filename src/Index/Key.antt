-- ===== src/Index/Key.antt =====
-- `Key128` (parakv/core/index/key.h), in the memory of a little-endian machine.
pub mod Order
use para_kv.Prelude.{
  ℕ, zero, suc, ◌+◌, ◌-◌, ◌*◌, ◌/◌, ◌%◌, ◌^◌, Bool, ◌&&◌, ◌||◌, Option, none, some, List, [], ◌∷◌,
  ◌++◌, ltb, ◌==◌, length, drop, bit_xor, if◌then◌else◌,
}
use para_kv.Prelude.Bytes.{Bytes, read_le64, write_le64}

pub record Key128 : Type 0 where
  pub hi : ℕ
  pub lo : ℕ

abbrev pub key_eq : Key128 → Key128 → Bool
key_eq k rhs = (k.hi == rhs.hi) && (k.lo == rhs.lo)

abbrev pub key_lt : Key128 → Key128 → Bool
key_lt k rhs = ltb k.hi rhs.hi || ((k.hi == rhs.hi) && ltb k.lo rhs.lo)

-- The 16 bytes of a key in memory.
abbrev pub raw_key : Key128 → Bytes
raw_key k = write_le64 k.hi ++ write_le64 k.lo

-- `FromRaw` into a key that is there; `none` is the null pointer, and the failure.
abbrev pub from_raw : Option Bytes → ℕ → Option Key128
from_raw none len = none
from_raw (some bytes) len =
    if len == 16
    then some (record { hi = read_le64 bytes; lo = read_le64 (drop 8 bytes) })
    else none

-- `FromString`
abbrev pub parse_key : Bytes → Option Key128
parse_key s = from_raw (some s) (length s)

-- A digit of `kHex`.
abbrev pub hex_digit : ℕ → ℕ
hex_digit byte = if ltb byte 10 then 48 + byte else 55 + byte

-- The loop of `ToString` over a half, from a number of digits down.
abbrev pub hex_digits : ℕ → ℕ → Bytes
hex_digits zero half = []
hex_digits (suc n) half = hex_digit (half / 2 ^ (4 * n) % 16) ∷ hex_digits n half

abbrev pub key_string : Key128 → Bytes
key_string k = hex_digits 16 k.hi ++ hex_digits 16 k.lo

-- `h ^= h >> n`
abbrev pub xor_shift : ℕ → ℕ → ℕ
xor_shift n h = bit_xor h (h / 2 ^ n)

-- `Key128Hash`
abbrev pub key_hash : Key128 → ℕ
key_hash k =
    let mixed =
      bit_xor k.hi
        ((k.lo + 0x9E3779B97F4A7C15 + (k.hi * 2 ^ 6 % 2 ^ 64) + k.hi / 2 ^ 2) % 2 ^ 64) in
    let first = xor_shift 30 mixed * 0xBF58476D1CE4E5B9 % 2 ^ 64 in
    let second = xor_shift 27 first * 0x94D049BB133111EB % 2 ^ 64 in xor_shift 31 second
