-- ===== src/Cache/Aging.antt =====
-- The loop of `do_dynamic_age` (parakv/core/cache/lfuda_cache.h).
use mathlib.Core.Path.{◌∙◌, sym, subst}
use para_kv.Prelude.{
  ℕ, zero, suc, ◌+◌, ◌≡◌, ◌≤◌, ◌<◌, Bool, true, false, Option, none, some, List, [], ◌∷◌, ◌==◌,
  ==_iff, length, if◌then◌else◌, refl, arith, Bool-cases, ◌⊎◌, inl, inr,
}
use para_kv.Cache.{
  LfudaCache, put_before, splice, is_node, age, due, due_front, age_loop, aged_or, do_dynamic_age,
}

-- How many nodes of a list pass a test.
abbrev pub count_if : (ℕ → Bool) → List ℕ → ℕ
count_if p [] = 0
count_if p (n ∷ nodes) = (if p n then 1 else 0) + count_if p nodes

count_if-put_before :
    (p : ℕ → Bool) (position : Option ℕ) (x : ℕ) (nodes : List ℕ)
    → count_if p (put_before position x nodes) ≡ (if p x then 1 else 0) + count_if p nodes
count_if-put_before p none x [] = refl
count_if-put_before p none x (n ∷ nodes) = ground (arith, count_if-put_before p none x nodes)
count_if-put_before p (some m) x [] = refl
count_if-put_before p (some m) x (n ∷ nodes) =
    ground (arith, count_if-put_before p (some m) x nodes)

length-put_before :
    (position : Option ℕ) (x : ℕ) (nodes : List ℕ)
    → length (put_before position x nodes) ≡ suc (length nodes)
length-put_before none x [] = refl
length-put_before none x (n ∷ nodes) = ground (arith, length-put_before none x nodes)
length-put_before (some m) x [] = refl
length-put_before (some m) x (n ∷ nodes) = ground (arith, length-put_before (some m) x nodes)

count_if_mono :
    (p q : ℕ → Bool) (nodes : List ℕ)
    → ((n : ℕ) → p n ≡ true → q n ≡ true)
    → count_if p nodes ≤ count_if q nodes
count_if_mono p q [] h = omega arith
count_if_mono p q (n ∷ nodes) h = ground (arith, h n, count_if_mono p q nodes h)

count_if-length : (p : ℕ → Bool) (nodes : List ℕ) → count_if p nodes ≤ length nodes
count_if-length p [] = omega arith
count_if-length p (n ∷ nodes) = ground (arith, count_if-length p nodes)

count_if-splice :
    (p : ℕ → Bool) (position : Option ℕ) (x : ℕ) (nodes : List ℕ)
    → (count_if p (splice position x (x ∷ nodes)) ≡ count_if p (x ∷ nodes))
      × (length (splice position x (x ∷ nodes)) ≡ length (x ∷ nodes))
count_if-splice p position x nodes = elim (Bool-cases (is_node x position)) [
  | inl e ↦ simp (e) (refl, refl)
  | inr e ↦
      simp (e, (==_iff x x).1 refl)
        (count_if-put_before p position x nodes, length-put_before position x nodes)
]

module _ (V : Type 0) (aged_count : ℕ → ℕ) where
  -- An element that is aged is no more due, and no other becomes due.
  age-due :
      (c : LfudaCache V) (front : ℕ) (last : Option ℕ) (now n : ℕ)
      → due V aged_count (age V aged_count c front last now) now n ≡ true
      → due V aged_count c now n ≡ true
  age-due c front last now n h = elim (Bool-cases (front == n)) [
    | inl e ↦ absurd (ground (arith, h, (==_iff front n).0 e))
    | inr e ↦ (simp (e) at h)
  ]

  age-front :
      (c : LfudaCache V) (front : ℕ) (last : Option ℕ) (now : ℕ)
      → due V aged_count (age V aged_count c front last now) now front ≡ false
  age-front c front last now = simp ((==_iff front front).1 refl) (ground arith)

  age-fewer :
      (c : LfudaCache V) (front : ℕ) (last : Option ℕ) (now : ℕ) (rest : List ℕ)
      → due V aged_count c now front ≡ true
      → (count_if
            (due V aged_count (age V aged_count c front last now) now)
            (splice last front (front ∷ rest))
          < count_if (due V aged_count c now) (front ∷ rest))
        × (length (splice last front (front ∷ rest)) ≡ length (front ∷ rest))
  age-fewer c front last now rest h =
      let after = due V aged_count (age V aged_count c front last now) now in
      let moved = count_if-splice after last front rest in
      let mono = count_if_mono after (due V aged_count c now) rest (age-due c front last now) in
      let counted : count_if after (front ∷ rest) ≡ count_if after rest =
        simp (age-front c front last now) (omega arith) in
      let before : count_if (due V aged_count c now) (front ∷ rest)
          ≡ 1 + count_if (due V aged_count c now) rest =
        simp (h) refl in
      (omega (arith, moved.0, mono, counted, before), moved.1)

  pub due_front-cases :
      (c : LfudaCache V) (now : ℕ) (nodes : List ℕ)
      → (due_front V aged_count c now nodes ≡ none)
        ⊎ ((n : ℕ) × (rest : List ℕ) × (due_front V aged_count c now nodes ≡ some n)
            × (nodes ≡ n ∷ rest)
            × (due V aged_count c now n ≡ true))
  unfolding due_front
  due_front-cases c now [] = inl refl
  due_front-cases c now (n ∷ nodes) = elim (Bool-cases (due V aged_count c now n)) [
    | inl e ↦ inr (n, nodes, simp (e) refl, refl, e)
    | inr e ↦ inl (simp (e) refl)
  ]

  -- What the loop returns: at most `most` elements were aged, the front is not due, and the list
  -- has the length it had.
  abbrev pub Done : ℕ → ℕ → ℕ → Option (ℕ × LfudaCache V) → Type 0
  Done now most size none = ⊥
  Done now most size (some (aged, c)) =
      (aged ≤ most) × (due_front V aged_count c now c.used ≡ none) × (length c.used ≡ size)

  weakened :
      (now most more size size' : ℕ) (r : Option (ℕ × LfudaCache V))
      → most ≤ more
      → size ≡ size'
      → Done now most size r
      → Done now more size' r
  weakened now most more size size' none le e d = d
  weakened now most more size size' (some (aged, c)) le e (few, front, long) =
      (omega (arith, le, few), front, long ∙ e)

  age_loop-Done :
      (fuel : ℕ) (c : LfudaCache V) (now : ℕ) (last : Option ℕ) (aged : ℕ)
      → count_if (due V aged_count c now) c.used < fuel
      → Done now
          (aged + count_if (due V aged_count c now) c.used)
          (length c.used)
          (age_loop V aged_count fuel c now last aged)
  age_loop-Done zero c now last aged enough = absurd (omega (arith, enough))
  age_loop-Done (suc fuel) c now last aged enough = elim (due_front-cases c now c.used) [
    | inl e ↦ rw (e, age_loop) (omega arith, e, refl)
    | inr (n, rest, e, shape, is_due) ↦
        let fewer =
          subst
            (λ nodes.
              (count_if (due V aged_count (age V aged_count c n last now) now) (splice last n nodes)
                < count_if (due V aged_count c now) nodes)
              × (length (splice last n nodes) ≡ length nodes))
            (sym shape) (age-fewer c n last now rest is_due) in
        rw (e, age_loop)
          (weakened now _ _ _ _
            (age_loop V aged_count fuel (age V aged_count c n last now) now (some n) (aged + 1))
            (omega (arith, fewer.0)) fewer.1
            (age_loop-Done fuel (age V aged_count c n last now) now (some n) (aged + 1)
              (omega (arith, fewer.0, enough))))
  ]

aged_or-Done :
    (V : Type 0) (aged_count : ℕ → ℕ) (c : LfudaCache V) (now most size : ℕ)
    (r : Option (ℕ × LfudaCache V))
    → Done V aged_count now most size r
    → (r ≡ some (aged_or V aged_count c r))
      × Done V aged_count now most size (some (aged_or V aged_count c r))
aged_or-Done V aged_count c now most size none d = absurd d
aged_or-Done V aged_count c now most size (some r) d = (refl, d)

-- The loop of `do_dynamic_age` ends, whatever the ratio: one unit of fuel more than there are
-- elements in use is enough. It ages at most as many elements as were due, stops with a front that
-- is not due, and keeps the number of elements in use.
pub do_dynamic_age-Done :
    (V : Type 0) (aged_count : ℕ → ℕ) (c : LfudaCache V) (now : ℕ)
    → let r = do_dynamic_age V aged_count c now in
      (age_loop V aged_count (length c.used + 1) c now none 0 ≡ some r)
      × Done V aged_count now (count_if (due V aged_count c now) c.used) (length c.used) (some r)
unfolding do_dynamic_age
do_dynamic_age-Done V aged_count c now =
    aged_or-Done V aged_count c now (count_if (due V aged_count c now) c.used) (length c.used) loop
      (weakened V aged_count now _ _ _ _ loop (omega arith) refl (
        age_loop-Done V aged_count (length c.used + 1) c now none 0
          (omega (arith, count_if-length (due V aged_count c now) c.used))))
  where
    loop : Option (ℕ × LfudaCache V)
    loop = age_loop V aged_count (length c.used + 1) c now none 0
