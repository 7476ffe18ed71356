-- ===== src/Cache.antt =====
-- `lfuda_cache` (parakv/core/cache/lfuda_cache.h). An iterator of the age list is the number of its
-- node; the list is in two parts, before and from `m_open_list_end` on. The multimap of use counts
-- is a list sorted by count, with equal counts in the order of insertion. The time is an argument,
-- and the product of a count with the ratio, a `float`, is a parameter. An evicted key is
-- returned, where the source calls `m_on_evict`.
pub mod Aging
pub mod Counts
pub mod Agreement
use para_kv.Prelude.{
  ℕ, zero, suc, ◌+◌, ◌-◌, Bool, true, false, ◌&&◌, Option, none, some, List, [], ◌∷◌, ◌++◌, ltb,
  leb, ◌==◌, length, if◌then◌else◌,
}
use para_kv.Prelude.Bytes.{Bytes}
use para_kv.Prelude.Maps.{lookup, assign, erase}

-- `allow`
pub data Allow : Type 0 where
  insert update insert_or_update : Allow

abbrev pub insert_allowed : Allow → Bool
insert_allowed update = false
insert_allowed _ = true

abbrev pub update_allowed : Allow → Bool
update_allowed insert = false
update_allowed _ = true

-- `equal_range` and the loop over it: the first entry of the count and the node is erased.
abbrev pub erase_lfu_entry : ℕ → ℕ → List (ℕ × ℕ) → List (ℕ × ℕ)
erase_lfu_entry use_count target [] = []
erase_lfu_entry use_count target ((c, n) ∷ lfu) =
    let rest = erase_lfu_entry use_count target lfu in
    if (c == use_count) && (n == target) then lfu else (c, n) ∷ rest

-- `m_lfu_list.emplace`
abbrev pub emplace_lfu : ℕ → ℕ → List (ℕ × ℕ) → List (ℕ × ℕ)
emplace_lfu use_count target [] = (use_count, target) ∷ []
emplace_lfu use_count target ((c, n) ∷ lfu) =
    let rest = emplace_lfu use_count target lfu in
    if ltb use_count c then (use_count, target) ∷ (c, n) ∷ lfu else (c, n) ∷ rest

-- A node taken out of a list, and put before another; `none` is the end of the list.
abbrev pub without : ℕ → List ℕ → List ℕ
without node [] = []
without node (n ∷ nodes) = let rest = without node nodes in if n == node then nodes else n ∷ rest

abbrev pub put_before : Option ℕ → ℕ → List ℕ → List ℕ
put_before none node nodes = nodes ++ node ∷ []
put_before (some position) node [] = node ∷ []
put_before (some position) node (n ∷ nodes) =
    let rest = put_before (some position) node nodes in
    if n == position then node ∷ n ∷ nodes else n ∷ rest

-- `std::prev(m_open_list_end)`
abbrev pub last_node : List ℕ → Option ℕ
last_node [] = none
last_node (n ∷ []) = some n
last_node (n ∷ m ∷ nodes) = last_node (m ∷ nodes)

abbrev pub is_node : ℕ → Option ℕ → Bool
is_node n none = false
is_node n (some m) = n == m

-- `splice`, unless the node is at the position.
abbrev pub splice : Option ℕ → ℕ → List ℕ → List ℕ
splice position node nodes =
    if is_node node position then nodes else put_before position node (without node nodes)

module _ (V : Type 0) where
  pub record Element : Type 0 where
    pub key : Bytes
    pub use_count : ℕ
    pub dynamic_age : ℕ
    pub value : V

  pub record LfudaCache : Type 0 where
    pub used_size : ℕ
    pub dynamic_age_tick : ℕ
    pub keyed_elements : List (Bytes × ℕ)
    pub lfu_list : List (ℕ × ℕ)
    -- the age list before and from `m_open_list_end` on
    pub used : List ℕ
    pub free : List ℕ
    pub elements : ℕ → Element

  abbrev pub size : LfudaCache → ℕ
  size c = c.used_size

  abbrev pub capacity : LfudaCache → ℕ
  capacity c = length c.used + length c.free

  abbrev pub set_element : LfudaCache → ℕ → Element → LfudaCache
  set_element c node e = record c { elements = λ n. if node == n then e else c.elements n }

  abbrev pub do_access : LfudaCache → ℕ → ℕ → LfudaCache
  do_access c node now =
      let e = c.elements node in
      set_element
        (record c {
          lfu_list =
              emplace_lfu (e.use_count + 1) node (erase_lfu_entry e.use_count node c.lfu_list);
          used = splice (last_node c.used) node c.used;
        })
        node (record e { use_count = e.use_count + 1; dynamic_age = now })

  abbrev pub do_update : LfudaCache → ℕ → V → ℕ → LfudaCache
  do_update c node value now =
      do_access (set_element c node (record (c.elements node) { value = value })) node now

  -- The node becomes the last of the used part, and then the first of the free one.
  abbrev pub do_erase : LfudaCache → ℕ → LfudaCache
  do_erase c node =
      let e = c.elements node in
      record c {
        used = without node c.used;
        free = node ∷ c.free;
        keyed_elements = erase e.key c.keyed_elements;
        lfu_list = erase_lfu_entry e.use_count node c.lfu_list;
        used_size = c.used_size - 1;
      }

  module _ (aged_count : ℕ → ℕ) where
    -- The body of the loop of `do_dynamic_age`, for the front node.
    abbrev pub age : LfudaCache → ℕ → Option ℕ → ℕ → LfudaCache
    age c front last now =
        let e = c.elements front in
        set_element
          (record c {
            used = splice last front c.used;
            lfu_list =
                emplace_lfu (aged_count e.use_count) front
                  (erase_lfu_entry e.use_count front c.lfu_list);
          })
          front (record e { use_count = aged_count e.use_count; dynamic_age = now })

    -- `(*da_start).m_dynamic_age + m_dynamic_age_tick < now`, where there is a node.
    abbrev pub due : LfudaCache → ℕ → ℕ → Bool
    due c now node = ltb ((c.elements node).dynamic_age + c.dynamic_age_tick) now

    unfoldable pub due_front : LfudaCache → ℕ → List ℕ → Option ℕ
    due_front c now [] = none
    due_front c now (n ∷ nodes) = if due c now n then some n else none

    -- The loop, on fuel: the number of aged elements and the cache, or `none` without fuel.
    abbrev pub age_loop : ℕ → LfudaCache → ℕ → Option ℕ → ℕ → Option (ℕ × LfudaCache)
    age_loop zero c now last aged = none
    age_loop (suc fuel) c now last aged = elim (due_front c now c.used) [
      | none ↦ some (aged, c)
      | some front ↦ age_loop fuel (age c front last now) now (some front) (aged + 1)
    ]

    -- What is left where the loop has no fuel.
    abbrev pub aged_or : LfudaCache → Option (ℕ × LfudaCache) → ℕ × LfudaCache
    aged_or c none = (0, c)
    aged_or c (some r) = r

    unfoldable pub do_dynamic_age : LfudaCache → ℕ → ℕ × LfudaCache
    do_dynamic_age c now = aged_or c (age_loop (length c.used + 1) c now none 0)

    -- The victim is the first of the multimap, which is not empty with an element in use.
    abbrev pub evict : LfudaCache → List (ℕ × ℕ) → List Bytes × LfudaCache
    evict c [] = ([], c)
    evict c ((count, victim) ∷ lfu) = ((c.elements victim).key ∷ [], do_erase c victim)

    unfoldable pub do_prune : LfudaCache → ℕ → List Bytes × LfudaCache
    unfolding do_dynamic_age
    do_prune c now =
        let aged = (do_dynamic_age c now).1 in
        if ltb 0 c.used_size then evict aged aged.lfu_list else ([], c)

    -- The element at the open end, which is there if the capacity is not 0.
    abbrev pub insert_open : LfudaCache → Bytes → V → ℕ → List ℕ → LfudaCache
    insert_open c key value now [] = c
    insert_open c key value now (node ∷ free) =
        set_element
          (record c {
            keyed_elements = assign key node c.keyed_elements;
            lfu_list = emplace_lfu 1 node c.lfu_list;
            used = c.used ++ node ∷ [];
            free = free;
            used_size = c.used_size + 1;
          })
          node (record { key = key; use_count = 1; dynamic_age = now; value = value })

    unfoldable pub do_insert : LfudaCache → Bytes → V → ℕ → List Bytes × LfudaCache
    do_insert c key value now =
        let (evicted, pruned) = if leb (capacity c) c.used_size then do_prune c now else ([], c) in
        (evicted, insert_open pruned key value now pruned.free)

    abbrev pub insert_at :
        LfudaCache → Bytes → V → ℕ → Allow → Option ℕ → Bool × List Bytes × LfudaCache
    insert_at c key value now allow (some node) =
        if update_allowed allow then (true, [], do_update c node value now) else (false, [], c)
    insert_at c key value now allow none =
        let (evicted, c') = do_insert c key value now in
        if insert_allowed allow then (true, evicted, c') else (false, [], c)

    -- `insert`, which is `do_insert_update` under the lock.
    unfoldable pub insert_update :
        LfudaCache → Bytes → V → ℕ → Allow → Bool × List Bytes × LfudaCache
    insert_update c key value now allow =
        insert_at c key value now allow (lookup key c.keyed_elements)

  abbrev pub erase_at : LfudaCache → Option ℕ → Bool × LfudaCache
  erase_at c none = (false, c)
  erase_at c (some node) = (true, do_erase c node)

  -- `erase`
  unfoldable pub erase_key : LfudaCache → Bytes → Bool × LfudaCache
  erase_key c key = erase_at c (lookup key c.keyed_elements)

  abbrev pub find_at : LfudaCache → Bool → ℕ → Option ℕ → Option V × LfudaCache
  find_at c peek now none = (none, c)
  find_at c peek now (some node) =
      (some (c.elements node).value, if peek then c else do_access c node now)

  unfoldable pub do_find : LfudaCache → Bytes → Bool → ℕ → Option V × LfudaCache
  do_find c key peek now = find_at c peek now (lookup key c.keyed_elements)
