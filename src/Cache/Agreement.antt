-- ===== src/Cache/Agreement.antt =====
-- The age list and the multimap of use counts agree (parakv/core/cache/lfuda_cache.h).
use mathlib.Core.Path.{ap, sym, subst}
use para_kv.Prelude.{
  ℕ, zero, suc, ◌+◌, ◌≡◌, ◌≤◌, Option, none, some, List, [], ◌∷◌, ◌++◌, ltb, leb, ◌==◌, ==_iff,
  length, length-append, if◌then◌else◌, refl, arith, Bool-cases, inl, inr,
}
use para_kv.Prelude.Bytes.{Bytes}
use para_kv.Prelude.Sets.{count, count-append}
use para_kv.Cache.{
  LfudaCache, Element, without, splice, set_element, age, age_loop, aged_or, do_dynamic_age,
  erase_lfu_entry, emplace_lfu, do_erase, evict, do_prune, insert_open, do_insert, capacity,
}
use para_kv.Cache.Aging.{due_front-cases}
use para_kv.Cache.Counts.{
  length-without, count-without, count-splice, entries, entries-emplace_lfu,
  entries-erase_lfu_entry,
}

module _ (V : Type 0) where
  -- The elements in use are counted; each is once in the multimap, under its use count, and nothing
  -- else is; and no node is twice in the age list, which
  -- has as many nodes as the cache has room for.
  pub record Agrees (total : ℕ) (c : LfudaCache V) : Type 0 where
    pub counted : c.used_size ≡ length c.used
    pub listed :
        (k n : ℕ)
        → entries k n c.lfu_list ≡ (if (c.elements n).use_count == k then count n c.used else 0)
    pub once : (n : ℕ) → count n c.used + count n c.free ≤ 1
    pub whole : length c.used + length c.free ≡ total

  do_erase-Agrees :
      (total : ℕ) (c : LfudaCache V) (node : ℕ)
      → 1 ≤ count node c.used
      → Agrees total c
      → Agrees total (do_erase V c node)
  do_erase-Agrees total c node here a = record {
    counted = omega (arith, a.counted, length-without node c.used here);
    listed = λ k n. elim (Bool-cases (node == n)) [
      | inl e ↦
          subst
            (λ n.
              entries k n (erase_lfu_entry u node c.lfu_list)
              ≡ (if (c.elements n).use_count == k then count n (without node c.used) else 0))
            ((==_iff node n).0 e) (at_node k)
      | inr e ↦ ground (
        arith,
        a.listed k n,
        entries-erase_lfu_entry k n u node c.lfu_list there,
        count-without n node c.used here,
        e,
      )
    ];
    once = λ n. ground (arith, a.once n, count-without n node c.used here);
    whole = omega (arith, a.whole, length-without node c.used here);
  }
    where
      u : ℕ
      u = (c.elements node).use_count

      there : 1 ≤ entries u node c.lfu_list
      there = ground (arith, a.listed u node, here)

      at_node :
          (k : ℕ)
          → entries k node (erase_lfu_entry u node c.lfu_list)
            ≡ (if u == k then count node (without node c.used) else 0)
      at_node k = ground (
        arith,
        a.listed k node,
        a.once node,
        entries-erase_lfu_entry k node u node c.lfu_list there,
        count-without node node c.used here,
      )

  -- A node that gets another use count and another place.
  abbrev moved : LfudaCache V → ℕ → Option ℕ → Element V → LfudaCache V
  moved c node position e =
      set_element V
        (record c {
          lfu_list =
              emplace_lfu e.use_count node
                (erase_lfu_entry (c.elements node).use_count node c.lfu_list);
          used = splice position node c.used;
        })
        node e

  moved-Agrees :
      (total : ℕ) (c : LfudaCache V) (node : ℕ) (position : Option ℕ) (e : Element V)
      → 1 ≤ count node c.used
      → Agrees total c
      → Agrees total (moved c node position e)
  moved-Agrees total c node position e here a = record {
    counted = omega (arith, a.counted, (count-splice 0 position node c.used here).1);
    listed = λ k n. elim (Bool-cases (node == n)) [
      | inl same ↦
          subst
            (λ n. entries k n (moved c node position e).lfu_list ≡ (
              if ((moved c node position e).elements n).use_count == k
              then count n (splice position node c.used)
              else 0))
            ((==_iff node n).0 same) (at_node k)
      | inr other ↦ simp (other) (
          ground (
            arith,
            a.listed k n,
            entries-emplace_lfu k n e.use_count node (erase_lfu_entry u node c.lfu_list),
            entries-erase_lfu_entry k n u node c.lfu_list there,
            (count-splice n position node c.used here).0,
            other,
          ))
    ];
    once = λ n. ground (arith, a.once n, (count-splice n position node c.used here).0);
    whole = omega (arith, a.whole, (count-splice 0 position node c.used here).1);
  }
    where
      u : ℕ
      u = (c.elements node).use_count

      there : 1 ≤ entries u node c.lfu_list
      there = ground (arith, a.listed u node, here)

      at_node :
          (k : ℕ)
          → entries k node (moved c node position e).lfu_list ≡ (
              if ((moved c node position e).elements node).use_count == k
              then count node (splice position node c.used)
              else 0)
      at_node k = simp ((==_iff node node).1 refl) (
          ground (
            arith,
            a.listed k node,
            a.once node,
            entries-emplace_lfu k node e.use_count node (erase_lfu_entry u node c.lfu_list),
            entries-erase_lfu_entry k node u node c.lfu_list there,
            (count-splice node position node c.used here).0,
          ))

module _ (V : Type 0) (aged_count : ℕ → ℕ) where
  insert_open-Agrees :
      (total : ℕ) (c : LfudaCache V) (key : Bytes) (value : V) (now : ℕ) (free : List ℕ)
      → c.free ≡ free
      → Agrees V total c
      → Agrees V total (insert_open V aged_count c key value now free)
  insert_open-Agrees total c key value now [] h a = a
  insert_open-Agrees total c key value now (node ∷ free) h a = record {
    counted = omega (arith, a.counted, length-append c.used (node ∷ []));
    listed = λ k n. elim (Bool-cases (node == n)) [
      | inl same ↦
          subst
            (λ n. entries k n (insert_open V aged_count c key value now (node ∷ free)).lfu_list ≡ (
              if ((insert_open V aged_count c key value now (node ∷ free)).elements n).use_count
                == k
              then count n (c.used ++ node ∷ [])
              else 0))
            ((==_iff node n).0 same) (at_node k)
      | inr other ↦ simp (other) (
          ground (
            arith,
            a.listed k n,
            entries-emplace_lfu k n 1 node c.lfu_list,
            count-append n c.used (node ∷ []),
            other,
          ))
    ];
    once = λ n. ground (arith, free_of n, a.once n, count-append n c.used (node ∷ []));
    whole = omega (arith, a.whole, length-append c.used (node ∷ []), ap length h);
  }
    where
      free_of : (n : ℕ) → count n c.free ≡ count n (node ∷ free)
      free_of n = ap (count n) h

      at_node :
          (k : ℕ)
          → entries k node (insert_open V aged_count c key value now (node ∷ free)).lfu_list ≡ (
              if ((insert_open V aged_count c key value now (node ∷ free)).elements node).use_count
                == k
              then count node (c.used ++ node ∷ [])
              else 0)
      at_node k = simp ((==_iff node node).1 refl) (
          ground (
            arith,
            a.listed k node,
            a.once node,
            free_of node,
            entries-emplace_lfu k node 1 node c.lfu_list,
            count-append node c.used (node ∷ []),
          ))

  abbrev OrAgrees : ℕ → Option (ℕ × LfudaCache V) → Type 0
  OrAgrees total none = Unit
  OrAgrees total (some (aged, c)) = Agrees V total c

  age_loop-Agrees :
      (total fuel : ℕ) (c : LfudaCache V) (now : ℕ) (last : Option ℕ) (aged : ℕ)
      → Agrees V total c
      → OrAgrees total (age_loop V aged_count fuel c now last aged)
  age_loop-Agrees total zero c now last aged a = tt
  age_loop-Agrees total (suc fuel) c now last aged a =
      elim (due_front-cases V aged_count c now c.used) [
        | inl e ↦ rw (e, age_loop) a
        | inr (n, rest, e, shape, is_due) ↦
            let here : 1 ≤ count n c.used =
              subst (λ nodes. 1 ≤ count n nodes) (sym shape) (ground arith) in
            let old = c.elements n in
            let e' : Element V = record old {
              use_count = aged_count old.use_count;
              dynamic_age = now;
            } in
            rw (e, age_loop)
              (age_loop-Agrees total fuel (age V aged_count c n last now) now (some n) (aged + 1)
                (moved-Agrees V total c n last e' here a))
      ]

  aged_or-Agrees :
      (total : ℕ) (c : LfudaCache V) (r : Option (ℕ × LfudaCache V))
      → Agrees V total c
      → OrAgrees total r
      → Agrees V total (aged_or V aged_count c r).1
  aged_or-Agrees total c none a o = a
  aged_or-Agrees total c (some r) a o = o

  do_dynamic_age-Agrees :
      (total : ℕ) (c : LfudaCache V) (now : ℕ)
      → Agrees V total c
      → Agrees V total (do_dynamic_age V aged_count c now).1
  unfolding do_dynamic_age
  do_dynamic_age-Agrees total c now a =
      aged_or-Agrees total c (age_loop V aged_count (length c.used + 1) c now none 0) a
        (age_loop-Agrees total (length c.used + 1) c now none 0 a)

  evict-Agrees :
      (total : ℕ) (c : LfudaCache V) (lfu : List (ℕ × ℕ))
      → c.lfu_list ≡ lfu
      → Agrees V total c
      → Agrees V total (evict V aged_count c lfu).1
  evict-Agrees total c [] h a = a
  evict-Agrees total c ((k, victim) ∷ lfu) h a = do_erase-Agrees V total c victim here a
    where
      first : entries k victim c.lfu_list ≡ entries k victim ((k, victim) ∷ lfu)
      first = ap (entries k victim) h

      here : 1 ≤ count victim c.used
      here = ground (arith, a.listed k victim, first)

  do_prune-Agrees :
      (total : ℕ) (c : LfudaCache V) (now : ℕ)
      → Agrees V total c
      → Agrees V total (do_prune V aged_count c now).1
  unfolding do_prune
  do_prune-Agrees total c now a = elim (Bool-cases (ltb 0 c.used_size)) [
    | inl e ↦
        simp (e) (evict-Agrees total aged aged.lfu_list refl (do_dynamic_age-Agrees total c now a))
    | inr e ↦ simp (e) a
  ]
    where
      aged : LfudaCache V
      aged = (do_dynamic_age V aged_count c now).1

  do_insert-kept :
      (total : ℕ) (c : LfudaCache V) (key : Bytes) (value : V) (now : ℕ)
      → Agrees V total c
      → Agrees V total (do_insert V aged_count c key value now).1
  unfolding do_insert
  do_insert-kept total c key value now a = elim (Bool-cases (leb (capacity V c) c.used_size)) [
    | inl e ↦
        let pruned = (do_prune V aged_count c now).1 in
        simp (e) (
          insert_open-Agrees total pruned key value now pruned.free refl
            (do_prune-Agrees total c now a))
    | inr e ↦ simp (e) (insert_open-Agrees total c key value now c.free refl a)
  ]

-- The insertion of a new key, with the ageing and the eviction that it may start with, keeps the
-- size, the age list and the multimap of use counts in agreement: each element in use has exactly
-- one entry in the multimap, under its use count. And the size stays within the room of the cache,
-- which does not change.
pub do_insert-Agrees :
    (V : Type 0) (aged_count : ℕ → ℕ) (total : ℕ) (c : LfudaCache V) (key : Bytes) (value : V)
    (now : ℕ)
    → Agrees V total c
    → let after = (do_insert V aged_count c key value now).1 in
      Agrees V total after × (after.used_size ≤ total) × (capacity V after ≡ total)
do_insert-Agrees V aged_count total c key value now a =
    let after = do_insert-kept V aged_count total c key value now a in
    (after, omega (arith, after.counted, after.whole), after.whole)
