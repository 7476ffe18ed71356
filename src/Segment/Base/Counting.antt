-- ===== src/Segment/Base/Counting.antt =====
-- Counting the numbers below a bound that pass a test.
use native.Mathlib.Nat.{suc-add}
use para_kv.Prelude.{
  ℕ, zero, suc, ◌+◌, ◌≤◌, ◌<◌, ◌≡◌, refl, sym, ap, ◌∙◌, Bool, true, false, arith, ◌==◌,
  if◌then◌else◌, ==_iff, Bool-cases, inl, inr,
}

unfoldable pub count_below : (ℕ → Bool) → ℕ → ℕ
count_below p zero = 0
count_below p (suc n) = if p n then suc (count_below p n) else count_below p n

pub count_below-le : (p : ℕ → Bool) (n : ℕ) → count_below p n ≤ n
unfolding count_below
count_below-le p zero = omega arith
count_below-le p (suc n) = ground (arith, count_below-le p n)

pub count_below-ext :
    (p q : ℕ → Bool) (n : ℕ) → ((i : ℕ) → i < n → p i ≡ q i) → count_below p n ≡ count_below q n
unfolding count_below
count_below-ext p q zero h = refl
count_below-ext p q (suc n) h =
    ground (arith, h n (omega arith), count_below-ext p q n (λ i l. h i (omega arith)))

-- Turning one number below the bound from failing to passing adds one.
pub count_below-add :
    (p q : ℕ → Bool) (n i : ℕ)
    → i < n
    → p i ≡ false
    → q i ≡ true
    → ((j : ℕ) → (i == j) ≡ false → q j ≡ p j)
    → count_below q n ≡ suc (count_below p n)
unfolding count_below
count_below-add p q zero i h off on same = absurd (omega arith)
count_below-add p q (suc n) i h off on same = elim (Bool-cases (i == n)) [
  | inl here ↦
      let e : i ≡ n = (==_iff i n).0 here in
      let off' : p n ≡ false = ap p (sym e) ∙ off in
      let on' : q n ≡ true = ap q (sym e) ∙ on in
      rw (on', off') (ap suc (count_below-ext q p n (λ j l. same j (ground arith))))
  | inr there ↦ ground (arith, same n there, count_below-add p q n i (ground arith) off on same)
]

pub count_below-suc_off :
    (p : ℕ → Bool) (n : ℕ) → p n ≡ false → count_below p (suc n) ≡ count_below p n
unfolding count_below
count_below-suc_off p n off = rw off

-- Numbers that fail do not count.
pub count_below-stop :
    (p : ℕ → Bool) (n k : ℕ)
    → ((i : ℕ) → n ≤ i → p i ≡ false)
    → count_below p (k + n) ≡ count_below p n
count_below-stop p n zero h = ap (count_below p) (omega arith)
count_below-stop p n (suc k) h =
    ap (count_below p) (suc-add k n)
    ∙ count_below-suc_off p (k + n) (h (k + n) (omega arith))
    ∙ count_below-stop p n k h
