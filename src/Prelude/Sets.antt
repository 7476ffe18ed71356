-- ===== src/Prelude/Sets.antt =====
-- Sets of numbers as lists in the order in which they are walked through: `count`, `insert` and
-- `erase` of `std::unordered_set`, and the removal of a value from a `std::vector`.
use para_kv.Prelude.{ℕ, ◌+◌, ◌≡◌, List, [], ◌∷◌, ◌++◌, arith, ◌==◌, if◌then◌else◌}

abbrev pub count : ℕ → List ℕ → ℕ
count x [] = 0
count x (y ∷ ys) = (if x == y then 1 else 0) + count x ys

abbrev pub insert_id : ℕ → List ℕ → List ℕ
insert_id x xs = if count x xs == 0 then x ∷ xs else xs

abbrev pub erase_id : ℕ → List ℕ → List ℕ
erase_id x [] = []
erase_id x (y ∷ ys) = let rest = erase_id x ys in if x == y then rest else y ∷ rest

pub count-erase_id :
    (x y : ℕ) (l : List ℕ) → count x (erase_id y l) ≡ (if x == y then 0 else count x l)
count-erase_id x y [] = ground arith
count-erase_id x y (z ∷ zs) = ground (arith, count-erase_id x y zs)

pub count-insert_id :
    (x y : ℕ) (l : List ℕ)
    → count x (insert_id y l)
      ≡ (if x == y then (if count x l == 0 then 1 else count x l) else count x l)
count-insert_id x y l = ground arith

pub count-append : (x : ℕ) (k l : List ℕ) → count x (k ++ l) ≡ count x k + count x l
count-append x [] l = omega arith
count-append x (y ∷ k) l = omega (arith, count-append x k l)
