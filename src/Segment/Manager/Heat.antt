-- ===== src/Segment/Manager/Heat.antt =====
-- `EvaluateHotCold` of `SegmentManager` (parakv/core/segment/segment_manager.cc). The `while` loop
-- recurs on fuel.
pub mod Bounds
use para_kv.Prelude.{
  ℕ, zero, suc, ◌+◌, ◌-◌, ◌^◌, Bool, true, false, ◌&&◌, Option, none, some, List, [], ◌∷◌, ltb, leb,
  ◌==◌, length, if◌then◌else◌,
}
use para_kv.Prelude.Sets.{count, erase_id}
use para_kv.Status.{Status, ok}
use para_kv.Segment.Manager.{SegmentManager}

-- `access_counters_.find(id)`
abbrev pub counter : ℕ → List (ℕ × ℕ) → Option ℕ
counter id [] = none
counter id ((k, v) ∷ counters) = let rest = counter id counters in if id == k then some v else rest

-- `access_counters_[id]`, which is 0 for a new entry.
abbrev pub or_zero : Option ℕ → ℕ
or_zero none = 0
or_zero (some v) = v

-- The loop over the counters: a hot segment joins the set while there is room.
abbrev pub promote : ℕ → ℕ → List (ℕ × ℕ) → List ℕ → List ℕ
promote hot_threshold max_hot [] hot = hot
promote hot_threshold max_hot ((id, c) ∷ counters) hot = promote hot_threshold max_hot counters (
    if leb hot_threshold c && ((count id hot == 0) && ltb (length hot) max_hot)
    then id ∷ hot
    else hot)

-- The test of the loop over the hot set.
abbrev pub is_below : ℕ → Option ℕ → Bool
is_below hot_threshold none = true
is_below hot_threshold (some c) = ltb c hot_threshold

-- `to_demote`, and the loop that erases it.
abbrev pub to_demote : ℕ → List (ℕ × ℕ) → List ℕ → List ℕ
to_demote hot_threshold counters [] = []
to_demote hot_threshold counters (id ∷ hot) =
    let rest = to_demote hot_threshold counters hot in
    if is_below hot_threshold (counter id counters) then id ∷ rest else rest

abbrev pub erase_ids : List ℕ → List ℕ → List ℕ
erase_ids [] hot = hot
erase_ids (id ∷ ids) hot = erase_ids ids (erase_id id hot)

-- The inner loop of `while`: the victim, from the one so far and its count.
abbrev pub coldest : List (ℕ × ℕ) → List ℕ → ℕ → ℕ → ℕ
coldest counters [] victim min_count = victim
coldest counters (id ∷ hot) victim min_count =
    let c = or_zero (counter id counters) in
    let colder = coldest counters hot id c in
    let other = coldest counters hot victim min_count in if ltb c min_count then colder else other

unfoldable pub trim : ℕ → ℕ → List (ℕ × ℕ) → List ℕ → Option (List ℕ)
trim zero max_hot counters hot = none
trim (suc fuel) max_hot counters hot =
    let rest = trim fuel max_hot counters (erase_id (coldest counters hot 0 (2 ^ 64 - 1)) hot) in
    if ltb max_hot (length hot) then rest else some hot

abbrev pub demoted : ℕ → ℕ → SegmentManager → List ℕ
demoted hot_threshold max_hot m =
    let hot = promote hot_threshold max_hot m.access_counters m.hot_segments in
    erase_ids (to_demote hot_threshold m.access_counters hot) hot

abbrev pub evaluated : SegmentManager → Option (List ℕ) → Option (Status × SegmentManager)
evaluated m none = none
evaluated m (some hot) = some (ok, record m { hot_segments = hot; access_counters = [] })

-- `EvaluateHotCold`, or `none` where the loop has no fuel.
unfoldable pub evaluate_hot_cold : SegmentManager → ℕ → ℕ → Option (Status × SegmentManager)
unfolding trim
evaluate_hot_cold m hot_threshold max_hot =
    let hot = demoted hot_threshold max_hot m in
    evaluated m (trim (length hot + 1) max_hot m.access_counters hot)
