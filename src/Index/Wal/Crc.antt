-- ===== src/Index/Wal/Crc.antt =====
-- `Crc32` of parakv/core/index/wal.cc. Every value is a `uint32_t`.
use para_kv.Prelude.{
  ℕ, zero, suc, ◌+◌, ◌/◌, ◌%◌, ◌^◌, ◌<◌, bit_and, bit_xor, List, [], ◌∷◌, ◌≡◌, refl, arith, get_or,
  ◌==◌, if◌then◌else◌,
}
use para_kv.Prelude.Bytes.{Bytes}

-- One round of the inner loop that fills the table.
abbrev table_round : ℕ → ℕ
table_round c = if bit_and c 1 == 1 then bit_xor 0xEDB88320 (c / 2) else c / 2

abbrev table_rounds : ℕ → ℕ → ℕ
table_rounds zero c = c
table_rounds (suc k) c = table_rounds k (table_round c)

abbrev table_from : ℕ → ℕ → List ℕ
table_from zero i = []
table_from (suc n) i = table_rounds 8 i ∷ table_from n (i + 1)

unfoldable pub crc32_table : List ℕ
crc32_table = table_from 256 0

unfoldable pub crc32_step : ℕ → ℕ → ℕ
unfolding crc32_table
crc32_step crc b = bit_xor (get_or crc32_table (bit_and (bit_xor crc b) 0xFF) 0) (crc / 2 ^ 8)

unfoldable pub crc32_loop : ℕ → Bytes → ℕ
crc32_loop crc [] = crc
crc32_loop crc (b ∷ p) = crc32_loop (crc32_step crc b) p

unfoldable pub crc32 : Bytes → ℕ
unfolding crc32_loop crc32_step
crc32 p = bit_xor (crc32_loop 0xFFFFFFFF p) 0xFFFFFFFF % 2 ^ 32

pub crc32-lt : (p : Bytes) → crc32 p < 2 ^ 32
unfolding crc32
crc32-lt p = omega arith

-- The check value of this polynomial, the checksum of "123456789".
crc32_check_value :
    crc32 (0x31 ∷ 0x32 ∷ 0x33 ∷ 0x34 ∷ 0x35 ∷ 0x36 ∷ 0x37 ∷ 0x38 ∷ 0x39 ∷ []) ≡ 0xCBF43926
unfolding crc32
crc32_check_value = refl
