-- ===== src/Segment/Manager/Heat/Bounds.antt =====
-- What `EvaluateHotCold` leaves (parakv/core/segment/segment_manager.cc).
use mathlib.Core.Path.{subst}
use para_kv.Prelude.{
  ℕ, zero, suc, ◌+◌, ◌-◌, ◌^◌, ◌≡◌, ◌≤◌, ◌<◌, ◌⊎◌, true, false, Option, none, some, List, [], ◌∷◌,
  ltb, ◌==◌, ==_iff, length, arith, refl, if◌then◌else◌, inl, inr, Bool-cases,
}
use para_kv.Prelude.Sets.{count, erase_id, count-erase_id}
use para_kv.Status.{Status, ok}
use para_kv.Segment.Manager.{SegmentManager}
use para_kv.Segment.Manager.Heat.{
  counter, or_zero, is_below, to_demote, erase_ids, coldest, trim, demoted, evaluated,
  evaluate_hot_cold, promote,
}

length-erase_id : (x : ℕ) (l : List ℕ) → length (erase_id x l) + count x l ≤ length l
length-erase_id x [] = omega arith
length-erase_id x (y ∷ l) = ground (arith, length-erase_id x l)

coldest-member :
    (counters : List (ℕ × ℕ)) (hot : List ℕ) (victim min_count : ℕ)
    → (coldest counters hot victim min_count ≡ victim)
      ⊎ (1 ≤ count (coldest counters hot victim min_count) hot)
coldest-member counters [] victim min_count = inl refl
coldest-member counters (id ∷ hot) victim min_count = ground (
  arith,
  coldest-member counters hot id (or_zero (counter id counters)),
  coldest-member counters hot victim min_count,
)

count-erase_ids :
    (x : ℕ) (ids hot : List ℕ)
    → count x (erase_ids ids hot) ≡ (if count x ids == 0 then count x hot else 0)
count-erase_ids x [] hot = refl
count-erase_ids x (id ∷ ids) hot =
    ground (arith, count-erase_ids x ids (erase_id id hot), count-erase_id x id hot)

count-to_demote :
    (x hot_threshold : ℕ) (counters : List (ℕ × ℕ)) (hot : List ℕ)
    → is_below hot_threshold (counter x counters) ≡ true
    → count x (to_demote hot_threshold counters hot) ≡ count x hot
count-to_demote x hot_threshold counters [] cold = refl
count-to_demote x hot_threshold counters (id ∷ hot) cold = elim (Bool-cases (x == id)) [
  | inl e ↦
      let same : is_below hot_threshold (counter id counters) ≡ true =
        subst (λ y. is_below hot_threshold (counter y counters) ≡ true) ((==_iff x id).0 e) cold in
      ground (arith, count-to_demote x hot_threshold counters hot cold, same, e)
  | inr e ↦ ground (arith, count-to_demote x hot_threshold counters hot cold, e)
]

demoted-above :
    (x hot_threshold max_hot : ℕ) (m : SegmentManager)
    → is_below hot_threshold (counter x m.access_counters) ≡ true
    → count x (demoted hot_threshold max_hot m) ≡ 0
demoted-above x hot_threshold max_hot m cold =
    let hot = promote hot_threshold max_hot m.access_counters m.hot_segments in
    ground (
      arith,
      count-erase_ids x (to_demote hot_threshold m.access_counters hot) hot,
      count-to_demote x hot_threshold m.access_counters hot cold,
    )

-- No counter has the greatest value of 64 bits.
abbrev pub AreCounters : List (ℕ × ℕ) → Type 0
AreCounters counters = (x : ℕ) → or_zero (counter x counters) < 2 ^ 64 - 1

coldest-first :
    (counters : List (ℕ × ℕ)) (id : ℕ) (hot : List ℕ)
    → AreCounters counters
    → 1 ≤ count (coldest counters (id ∷ hot) 0 (2 ^ 64 - 1)) (id ∷ hot)
coldest-first counters id hot counted =
    ground (arith, counted id, coldest-member counters hot id (or_zero (counter id counters)))

-- What the loop leaves: few enough segments, and only ones that were there.
abbrev pub Trimmed : ℕ → List ℕ → Option (List ℕ) → Type 0
Trimmed max_hot before none = ⊥
Trimmed max_hot before (some hot) =
    (length hot ≤ max_hot) × ((x : ℕ) → count x before ≡ 0 → count x hot ≡ 0)

narrowed :
    (max_hot : ℕ) (before after : List ℕ) (r : Option (List ℕ))
    → ((x : ℕ) → count x before ≡ 0 → count x after ≡ 0)
    → Trimmed max_hot after r
    → Trimmed max_hot before r
narrowed max_hot before after none h t = t
narrowed max_hot before after (some hot) h t = (t.0, λ x e. t.1 x (h x e))

trim-Trimmed :
    (fuel max_hot : ℕ) (counters : List (ℕ × ℕ)) (hot : List ℕ)
    → AreCounters counters
    → length hot < fuel
    → Trimmed max_hot hot (trim fuel max_hot counters hot)
unfolding trim
trim-Trimmed zero max_hot counters hot counted enough = absurd (omega (arith, enough))
trim-Trimmed (suc fuel) max_hot counters [] counted enough = simp (no_more) (omega arith, λ x e. e)
  where
    no_more : ltb max_hot 0 ≡ false
    no_more = ground arith
trim-Trimmed (suc fuel) max_hot counters (id ∷ hot) counted enough =
    elim (Bool-cases (ltb max_hot (length (id ∷ hot)))) [
      | inl e ↦ simp (e) (
          narrowed max_hot (id ∷ hot) rest (trim fuel max_hot counters rest) gone
            (trim-Trimmed fuel max_hot counters rest counted smaller))
      | inr e ↦ simp (e) (ground (arith, e), λ x h. h)
    ]
  where
    victim : ℕ
    victim = coldest counters (id ∷ hot) 0 (2 ^ 64 - 1)

    rest : List ℕ
    rest = erase_id victim (id ∷ hot)

    smaller : length rest < fuel
    smaller =
        omega
          (arith, length-erase_id victim (id ∷ hot), coldest-first counters id hot counted, enough)

    gone : (x : ℕ) → count x (id ∷ hot) ≡ 0 → count x rest ≡ 0
    gone x e = ground (arith, count-erase_id x victim (id ∷ hot), e)

-- The result of an evaluation: at most `max_hot` segments are hot, each with a counter that
-- reaches the threshold, and counting starts again.
abbrev pub Evaluated : ℕ → ℕ → SegmentManager → Option (Status × SegmentManager) → Type 0
Evaluated hot_threshold max_hot m none = ⊥
Evaluated hot_threshold max_hot m (some (status, n)) =
    (status ≡ ok)
    × (length n.hot_segments ≤ max_hot)
    × ((x : ℕ)
        → is_below hot_threshold (counter x m.access_counters) ≡ true
        → count x n.hot_segments ≡ 0)
    × (n.access_counters ≡ [])

evaluated-Evaluated :
    (hot_threshold max_hot : ℕ) (m : SegmentManager) (r : Option (List ℕ))
    → Trimmed max_hot (demoted hot_threshold max_hot m) r
    → Evaluated hot_threshold max_hot m (evaluated m r)
evaluated-Evaluated hot_threshold max_hot m none t = t
evaluated-Evaluated hot_threshold max_hot m (some hot) t =
    (refl, t.0, λ x cold. t.1 x (demoted-above x hot_threshold max_hot m cold), refl)

-- Where no counter has the greatest value of 64 bits, `EvaluateHotCold` ends and answers `ok`: at
-- most the given number of segments are hot, none of them with fewer accesses than the threshold,
-- and the counters are cleared.
pub evaluate_hot_cold-Evaluated :
    (m : SegmentManager) (hot_threshold max_hot : ℕ)
    → AreCounters m.access_counters
    → Evaluated hot_threshold max_hot m (evaluate_hot_cold m hot_threshold max_hot)
unfolding evaluate_hot_cold
evaluate_hot_cold-Evaluated m hot_threshold max_hot counted =
    let hot = demoted hot_threshold max_hot m in
    evaluated-Evaluated hot_threshold max_hot m
      (trim (length hot + 1) max_hot m.access_counters hot)
      (trim-Trimmed (length hot + 1) max_hot m.access_counters hot counted (omega arith))
