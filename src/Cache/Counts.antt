-- ===== src/Cache/Counts.antt =====
-- The nodes of a list and the entries of the multimap, counted (parakv/core/cache/lfuda_cache.h).
use para_kv.Prelude.{
  ℕ, ◌+◌, ◌≡◌, ◌≤◌, ◌&&◌, Option, none, some, List, [], ◌∷◌, ◌==◌, length, length-append,
  if◌then◌else◌, refl, arith, Bool-cases, inl, inr,
}
use para_kv.Prelude.Sets.{count, count-append}
use para_kv.Cache.{put_before, without, splice, is_node, erase_lfu_entry, emplace_lfu}

pub length-without : (n : ℕ) (l : List ℕ) → 1 ≤ count n l → length (without n l) + 1 ≡ length l
length-without n [] h = absurd (omega (arith, h))
length-without n (m ∷ l) h = elim (Bool-cases (m == n)) [
  | inl e ↦ simp (e) (omega arith)
  | inr e ↦ simp (e) (ground (arith, h, e, length-without n l))
]

pub count-without :
    (x n : ℕ) (l : List ℕ)
    → 1 ≤ count n l
    → count x (without n l) + (if x == n then 1 else 0) ≡ count x l
count-without x n [] h = absurd (omega (arith, h))
count-without x n (m ∷ l) h = elim (Bool-cases (m == n)) [
  | inl e ↦ simp (e) (ground (arith, e))
  | inr e ↦ simp (e) (ground (arith, h, e, count-without x n l))
]

count-put_before :
    (x : ℕ) (position : Option ℕ) (n : ℕ) (l : List ℕ)
    → count x (put_before position n l) ≡ (if x == n then 1 else 0) + count x l
count-put_before x none n l = ground (arith, count-append x l (n ∷ []))
count-put_before x (some p) n [] = refl
count-put_before x (some p) n (m ∷ l) = ground (arith, count-put_before x (some p) n l)

length-put_before :
    (position : Option ℕ) (n : ℕ) (l : List ℕ) → length (put_before position n l) ≡ length l + 1
length-put_before none n l = length-append l (n ∷ [])
length-put_before (some p) n [] = refl
length-put_before (some p) n (m ∷ l) = ground (arith, length-put_before (some p) n l)

-- A splice keeps the nodes of the list.
pub count-splice :
    (x : ℕ) (position : Option ℕ) (n : ℕ) (l : List ℕ)
    → 1 ≤ count n l
    → (count x (splice position n l) ≡ count x l) × (length (splice position n l) ≡ length l)
count-splice x position n l h = elim (Bool-cases (is_node n position)) [
  | inl e ↦ simp (e) (refl, refl)
  | inr e ↦ simp (e) (
    omega (arith, count-put_before x position n (without n l), count-without x n l h),
    omega (arith, length-put_before position n (without n l), length-without n l h),
  )
]

-- How many entries of the multimap have a count and a node.
abbrev pub entries : ℕ → ℕ → List (ℕ × ℕ) → ℕ
entries k n [] = 0
entries k n ((c, m) ∷ lfu) = (if (c == k) && (m == n) then 1 else 0) + entries k n lfu

pub entries-emplace_lfu :
    (k n c t : ℕ) (lfu : List (ℕ × ℕ))
    → entries k n (emplace_lfu c t lfu) ≡ (if (c == k) && (t == n) then 1 else 0) + entries k n lfu
entries-emplace_lfu k n c t [] = refl
entries-emplace_lfu k n c t ((d, m) ∷ lfu) = ground (arith, entries-emplace_lfu k n c t lfu)

pub entries-erase_lfu_entry :
    (k n c t : ℕ) (lfu : List (ℕ × ℕ))
    → 1 ≤ entries c t lfu
    → entries k n (erase_lfu_entry c t lfu) + (if (c == k) && (t == n) then 1 else 0)
      ≡ entries k n lfu
entries-erase_lfu_entry k n c t [] h = absurd (omega (arith, h))
entries-erase_lfu_entry k n c t ((d, m) ∷ lfu) h = elim (Bool-cases ((d == c) && (m == t))) [
  | inl e ↦ simp (e) (ground (arith, e))
  | inr e ↦ simp (e) (ground (arith, h, e, entries-erase_lfu_entry k n c t lfu))
]
