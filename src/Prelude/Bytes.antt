-- ===== src/Prelude/Bytes.antt =====
-- Byte strings, and the little-endian loops that the sources repeat: `WriteLE64`, `WriteLE32`,
-- `ReadLE64` and `ReadLE32` of parakv/core/index/wal.cc, `PutU32` and `GetU32` of
-- parakv/core/segment/segment_manager.cc, `WriteU32LE` and `ReadU32LE` of
-- parakv/core/kvcache_storage/index_kvcache_storage_backend.cc.
use Prim.Native.Nat.{ℕ, zero, suc, ◌+◌, ◌*◌, ◌/◌, ◌%◌, ◌^◌, ◌<◌, bit_or}
use mathlib.Core.Path.{◌≡◌, refl, sym, ◌∙◌}
use mathlib.Core.Logic.{◌↔◌, ◌⊎◌, inl, inr, ◌≢◌}
use mathlib.Core.Bool.{Bool, true, false, ◌&&◌}
use mathlib.Core.List.{List, [], ◌∷◌, ◌++◌}
use native.Mathlib.Omega.{arith}
use para_kv.Prelude.Tests.{◌==◌, Bool-cases}
use para_kv.Prelude.Lists.{length}
use para_kv.Prelude.Bits.{bit_or-add_low}

abbrev pub Bytes : Type 0
Bytes = List ℕ

-- Every element is a `uint8_t`.
abbrev pub AreBytes : Bytes → Type 0
AreBytes [] = Unit
AreBytes (b ∷ bs) = (b < 256) × AreBytes bs

-- `n` bytes of `v`, from bit `shift` on: the loop body is `p[i] = uint8_t(v >> (i * 8))`.
abbrev pub write_le_from : ℕ → ℕ → ℕ → Bytes
write_le_from shift zero v = []
write_le_from shift (suc n) v = v / 2 ^ shift % 256 ∷ write_le_from (shift + 8) n v

-- The loop body is `v |= uint64_t(p[i]) << (i * 8)`. A read past the end adds nothing.
abbrev pub read_le_from : ℕ → ℕ → ℕ → Bytes → ℕ
read_le_from shift acc zero p = acc
read_le_from shift acc (suc n) [] = acc
read_le_from shift acc (suc n) (b ∷ p) =
    read_le_from (shift + 8) (bit_or acc (b * 2 ^ shift % 2 ^ 64)) n p

unfoldable pub write_le32 : ℕ → Bytes
write_le32 v = write_le_from 0 4 v

unfoldable pub write_le64 : ℕ → Bytes
write_le64 v = write_le_from 0 8 v

unfoldable pub read_le32 : Bytes → ℕ
read_le32 p = read_le_from 0 0 4 p

unfoldable pub read_le64 : Bytes → ℕ
read_le64 p = read_le_from 0 0 8 p

pub length-write_le32 : (v : ℕ) → length (write_le32 v) ≡ 4
unfolding write_le32
length-write_le32 v = refl

pub length-write_le64 : (v : ℕ) → length (write_le64 v) ≡ 8
unfolding write_le64
length-write_le64 v = refl

pub read_le32-write_le32 :
    (v : ℕ) (rest : Bytes) → v < 2 ^ 32 → read_le32 (write_le32 v ++ rest) ≡ v
unfolding read_le32 write_le32
read_le32-write_le32 v rest h = ground (
  arith,
  bit_or-add_low 0 (v % 256) 0,
  bit_or-add_low 8 (v / 2 ^ 8 % 256) (v % 2 ^ 8),
  bit_or-add_low 16 (v / 2 ^ 16 % 256) (v % 2 ^ 16),
  bit_or-add_low 24 (v / 2 ^ 24 % 256) (v % 2 ^ 24),
)

-- The accumulator after the byte at each shift.
le_step_0 : (v : ℕ) → bit_or 0 (v / 2 ^ 0 % 256 * 2 ^ 0 % 2 ^ 64) ≡ v % 2 ^ 8
le_step_0 v = ground (arith, bit_or-add_low 0 (v / 2 ^ 0 % 256) 0)

le_step_8 : (v : ℕ) → bit_or (v % 2 ^ 8) (v / 2 ^ 8 % 256 * 2 ^ 8 % 2 ^ 64) ≡ v % 2 ^ 16
le_step_8 v = ground (arith, bit_or-add_low 8 (v / 2 ^ 8 % 256) (v % 2 ^ 8))

le_step_16 : (v : ℕ) → bit_or (v % 2 ^ 16) (v / 2 ^ 16 % 256 * 2 ^ 16 % 2 ^ 64) ≡ v % 2 ^ 24
le_step_16 v = ground (arith, bit_or-add_low 16 (v / 2 ^ 16 % 256) (v % 2 ^ 16))

le_step_24 : (v : ℕ) → bit_or (v % 2 ^ 24) (v / 2 ^ 24 % 256 * 2 ^ 24 % 2 ^ 64) ≡ v % 2 ^ 32
le_step_24 v = ground (arith, bit_or-add_low 24 (v / 2 ^ 24 % 256) (v % 2 ^ 24))

le_step_32 : (v : ℕ) → bit_or (v % 2 ^ 32) (v / 2 ^ 32 % 256 * 2 ^ 32 % 2 ^ 64) ≡ v % 2 ^ 40
le_step_32 v = ground (arith, bit_or-add_low 32 (v / 2 ^ 32 % 256) (v % 2 ^ 32))

le_step_40 : (v : ℕ) → bit_or (v % 2 ^ 40) (v / 2 ^ 40 % 256 * 2 ^ 40 % 2 ^ 64) ≡ v % 2 ^ 48
le_step_40 v = ground (arith, bit_or-add_low 40 (v / 2 ^ 40 % 256) (v % 2 ^ 40))

le_step_48 : (v : ℕ) → bit_or (v % 2 ^ 48) (v / 2 ^ 48 % 256 * 2 ^ 48 % 2 ^ 64) ≡ v % 2 ^ 56
le_step_48 v = ground (arith, bit_or-add_low 48 (v / 2 ^ 48 % 256) (v % 2 ^ 48))

le_step_56 : (v : ℕ) → bit_or (v % 2 ^ 56) (v / 2 ^ 56 % 256 * 2 ^ 56 % 2 ^ 64) ≡ v % 2 ^ 64
le_step_56 v = ground (arith, bit_or-add_low 56 (v / 2 ^ 56 % 256) (v % 2 ^ 56))

pub read_le64-write_le64 :
    (v : ℕ) (rest : Bytes) → v < 2 ^ 64 → read_le64 (write_le64 v ++ rest) ≡ v
unfolding read_le64 write_le64
read_le64-write_le64 v rest h =
    rw (le_step_0 v, le_step_8 v, le_step_16 v, le_step_24 v)
      (rw (le_step_32 v, le_step_40 v, le_step_48 v, le_step_56 v) (omega arith))

-- Equality of byte strings.
abbrev pub bytes_eq : Bytes → Bytes → Bool
bytes_eq [] [] = true
bytes_eq (x ∷ xs) (y ∷ ys) = (x == y) && bytes_eq xs ys
bytes_eq _ _ = false

pub bytes_eq_iff : (xs ys : Bytes) → (bytes_eq xs ys ≡ true) ↔ (xs ≡ ys)
bytes_eq_iff [] [] = ground arith
bytes_eq_iff [] (y ∷ ys) = ground arith
bytes_eq_iff (x ∷ xs) [] = ground arith
bytes_eq_iff (x ∷ xs) (y ∷ ys) = ground (arith, bytes_eq_iff xs ys)

pub Bytes-cases : (xs ys : Bytes) → (xs ≡ ys) ⊎ (xs ≢ ys)
Bytes-cases xs ys = elim (Bool-cases (bytes_eq xs ys)) [
  | inl e ↦ inl ((bytes_eq_iff xs ys).0 e)
  | inr e ↦ inr (λ p. true_is_not_false (sym ((bytes_eq_iff xs ys).1 p) ∙ e))
]
  where
    true_is_not_false : true ≡ false → ⊥
    true_is_not_false e = cc
