-- ===== src/Prelude/Bits.antt =====
-- Words as native numbers: `<<` and `>>` of a 64-bit word, and the meaning of `|` and `&` on
-- disjoint fields and low masks, by the recursion on binary digits.
use Prim.Native.Nat.{
  ℕ, zero, suc, ◌+◌, ◌-◌, ◌*◌, ◌/◌, ◌%◌, ◌^◌, ◌≤◌, ◌<◌, min, max, digits, bit_and, bit_or,
}
use Prim.Native.Nat.{bit_and-bitwise, bit_or-bitwise}
use mathlib.Core.Path.{◌≡◌, refl, sym, ap, ◌∙◌}
use native.Mathlib.Nat.{pow-suc, one-le-pow, two-pow-succ, div-add-mod, div-div-eq-div-mul}
use native.Mathlib.Omega.{arith}

-- `x << k` on 64 bits, `x >> k`, and the mask of the `k` low bits.
abbrev pub shl : ℕ → ℕ → ℕ
shl x k = x * 2 ^ k % 2 ^ 64

abbrev pub shr : ℕ → ℕ → ℕ
shr x k = x / 2 ^ k

abbrev pub ones : ℕ → ℕ
ones k = 2 ^ k - 1

-- More fuel than the first number changes nothing.
more_fuel :
    (base : ℕ → ℕ) (op : ℕ → ℕ → ℕ) (extra fuel x y : ℕ)
    → x ≤ fuel
    → x ≤ extra
    → digits base op extra x y ≡ digits base op fuel x y
more_fuel base op zero zero zero y _ _ = refl
more_fuel base op (suc e) zero zero y _ _ = refl
more_fuel base op zero (suc g) zero y _ _ = refl
more_fuel base op (suc e) (suc g) zero y _ _ = refl
more_fuel base op e zero (suc x) y p _ = absurd (omega arith)
more_fuel base op zero (suc g) (suc x) y _ q = absurd (omega arith)
more_fuel base op (suc e) (suc g) (suc x) y p q =
    ap (λ (t : ℕ). t * 2 + op (suc x % 2) (y % 2))
      (more_fuel base op e g (suc x / 2) (y / 2) (omega arith) (omega arith))

or_halves : (x y : ℕ) → bit_or x y ≡ bit_or (x / 2) (y / 2) * 2 + max (x % 2) (y % 2)
or_halves zero y = omega (arith, bit_or-bitwise 0 y, bit_or-bitwise 0 (y / 2))
or_halves (suc x) y = omega (
  arith,
  bit_or-bitwise (suc x) y,
  bit_or-bitwise (suc x / 2) (y / 2),
  more_fuel (λ b. b) max x (suc x / 2) (suc x / 2) (y / 2) (omega arith) (omega arith),
)

and_halves : (x y : ℕ) → bit_and x y ≡ bit_and (x / 2) (y / 2) * 2 + min (x % 2) (y % 2)
and_halves zero y = omega (arith, bit_and-bitwise 0 y, bit_and-bitwise 0 (y / 2))
and_halves (suc x) y = omega (
  arith,
  bit_and-bitwise (suc x) y,
  bit_and-bitwise (suc x / 2) (y / 2),
  more_fuel (λ b. 0) min x (suc x / 2) (suc x / 2) (y / 2) (omega arith) (omega arith),
)

or_none : (bound x : ℕ) → x ≤ bound → bit_or x 0 ≡ x
or_none bound zero _ = bit_or-bitwise 0 0
or_none zero (suc x) h = absurd (omega arith)
or_none (suc bound) (suc x) h =
    omega (arith, or_halves (suc x) 0, or_none bound (suc x / 2) (omega arith))

and_none : (bound x : ℕ) → x ≤ bound → bit_and x 0 ≡ 0
and_none bound zero _ = bit_and-bitwise 0 0
and_none zero (suc x) h = absurd (omega arith)
and_none (suc bound) (suc x) h =
    omega (arith, and_halves (suc x) 0, and_none bound (suc x / 2) (omega arith))

-- `|` of a field above bit `k` and a field below it is a sum.
pub bit_or-add : (k hi lo : ℕ) → lo < 2 ^ k → bit_or (hi * 2 ^ k) lo ≡ hi * 2 ^ k + lo
bit_or-add zero hi lo fits = ground (arith, or_none hi hi)
bit_or-add (suc k) hi lo fits = ground (
  arith,
  pow-suc 2 k,
  ap (λ (t : ℕ). hi * t) (pow-suc 2 k),
  or_halves (hi * 2 ^ suc k) lo,
  bit_or-add k hi (lo / 2),
)

pub and_zero_left : (x : ℕ) → bit_and 0 x ≡ 0
and_zero_left x = bit_and-bitwise 0 x

or_zero_left : (x : ℕ) → bit_or 0 x ≡ x
or_zero_left x = bit_or-bitwise 0 x

-- The same with the low field first.
pub bit_or-add_low : (k hi lo : ℕ) → lo < 2 ^ k → bit_or lo (hi * 2 ^ k) ≡ lo + hi * 2 ^ k
bit_or-add_low zero hi zero fits = ground (arith, or_zero_left hi)
bit_or-add_low zero hi (suc lo) fits = absurd (omega arith)
bit_or-add_low (suc k) hi lo fits = ground (
  arith,
  pow-suc 2 k,
  ap (λ (t : ℕ). hi * t) (pow-suc 2 k),
  or_halves lo (hi * 2 ^ suc k),
  bit_or-add_low k hi (lo / 2),
)

-- A remainder by a double has one more low digit.
div_halves : (p x : ℕ) → x / (p + p) ≡ x / 2 / p
div_halves p x = ap (λ (t : ℕ). x / t) (double p) ∙ sym (div-div-eq-div-mul x 2 p)
  where
    double : (p : ℕ) → p + p ≡ 2 * p
    double p = omega arith

mod_halves : (p x : ℕ) → x % (p + p) ≡ x / 2 % p * 2 + x % 2
mod_halves p x =
    omega
      (arith, div-add-mod x (p + p), div-add-mod (x / 2) p, ap (λ (t : ℕ). p * t) (div_halves p x))

-- `&` with the mask of the `k` low bits is the remainder by `2 ^ k`.
pub bit_and-ones : (k x : ℕ) → bit_and x (ones k) ≡ x % 2 ^ k
bit_and-ones zero x = ground (arith, and_none x x)
bit_and-ones (suc k) x = ground (
  arith,
  pow-suc 2 k,
  one-le-pow k 2,
  and_halves x (ones (suc k)),
  bit_and-ones k (x / 2),
  mod_halves (2 ^ k) x,
  ap (λ (t : ℕ). x % t) (two-pow-succ k),
)
