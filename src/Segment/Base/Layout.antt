-- ===== src/Segment/Base/Layout.antt =====
-- The layout that `CalculateLayout` computes fits the segment.
use para_kv.Prelude.{
  ℕ, ◌+◌, ◌-◌, ◌*◌, ◌/◌, ◌%◌, ◌^◌, ◌≤◌, ◌<◌, ◌≡◌, arith, ltb, inl, inr, Bool-cases, ltb→lt, ap,
  false,
}
use mathlib.Core.Path.{ap₂}
use native.Mathlib.Nat.{
  mod-eq_of_lt, lt-div-mul-add, le-div_iff_mul-le, mod-le, mod-lt, le_trans, div-mul-le_self,
}
use para_kv.Segment.Base.{
  SegmentConfig, slot_bytes, slot_estimate, align_up, bitmap_bytes, max_slots, calculate_layout,
}

-- Sizes for which no `uint32_t` or `uint64_t` of the computation wraps.
pub record IsSmall (c : SegmentConfig) : Type 0 where
  pub slot_pos : 0 < c.key_size + c.value_size
  pub slot_fits : c.key_size + c.value_size < 2 ^ 32
  pub size_fits : c.segment_size < 2 ^ 61
  pub estimate_fits : c.segment_size * 8 / (8 * (c.key_size + c.value_size) + 1) < 2 ^ 32 - 7
  pub align_fits : c.bitmap_alignment < 2 ^ 32

-- Rounding up to a multiple does not lose.
round_up-le : (align n : ℕ) → 0 < align → n ≤ (n + align - 1) / align * align
round_up-le align n h = omega (arith, lt-div-mul-add {a = n + align - 1} h)

align_up-le : (align n : ℕ) → align < 2 ^ 32 → n < 2 ^ 32 → n ≤ align_up align n
align_up-le align n ha hn = elim (Bool-cases (ltb 0 align)) [
  | inl pos ↦
      let e : (n + align + (2 ^ 64 - 1)) % 2 ^ 64 ≡ n + align - 1 = omega (arith, ltb→lt _ _ pos) in
      rw (pos, e)
        (omega (
          arith,
          round_up-le align n (ltb→lt _ _ pos),
          div-mul-le_self (n + align - 1) align,
          mod-eq_of_lt {n = (n + align - 1) / align * align} {m = 2 ^ 64},
        ))
  | inr none_ ↦ rw none_ (omega arith)
]

-- The number of slots is a `uint32_t`.
pub total_slots-lt : (c : SegmentConfig) → (calculate_layout c).total_slots < 2 ^ 32
unfolding calculate_layout
total_slots-lt c = elim (Bool-cases (ltb (max_slots c) (slot_estimate c))) [
  | inl e ↦ rw e (mod-lt _ (omega arith))
  | inr e ↦ rw e (mod-lt _ (omega arith))
]

not_lt_le : (a b : ℕ) → ltb a b ≡ false → b ≤ a
not_lt_le a b h = ground arith

data_area : (size b : ℕ) → b ≤ size → size < 2 ^ 61 → (size + 2 ^ 64 - b) % 2 ^ 64 ≡ size - b
data_area size b h fits = omega arith

slots_fit : (size b slot t : ℕ) → b ≤ size → 0 < slot → t ≤ (size - b) / slot → b + t * slot ≤ size
slots_fit size b slot t h pos fits =
    omega (arith, (le-div_iff_mul-le {x = t} {y = size - b} pos).0 fits)

module _ (c : SegmentConfig) (small : IsSmall c) where
  pub slot_bytes-eq : slot_bytes c ≡ c.key_size + c.value_size
  slot_bytes-eq = mod-eq_of_lt small.slot_fits

  slot_estimate-lt : slot_estimate c < 2 ^ 32 - 7
  slot_estimate-lt =
      let num : c.segment_size * 8 % 2 ^ 64 ≡ c.segment_size * 8 = omega (arith, small.size_fits) in
      let den : (8 * slot_bytes c + 1) % 2 ^ 64 ≡ 8 * (c.key_size + c.value_size) + 1 =
        omega (arith, slot_bytes-eq, small.slot_fits) in
      omega (
        arith,
        small.estimate_fits,
        mod-le (c.segment_size * 8 % 2 ^ 64 / ((8 * slot_bytes c + 1) % 2 ^ 64)) (2 ^ 32),
        ap₂ ◌/◌ num den,
      )

  slot_estimate-le-bits : slot_estimate c ≤ 8 * bitmap_bytes c
  slot_estimate-le-bits = omega (
    arith,
    slot_estimate-lt,
    align_up-le c.bitmap_alignment ((slot_estimate c + 7) % 2 ^ 32 / 8) small.align_fits
        (omega arith),
  )

  max_slots-le :
      bitmap_bytes c ≤ c.segment_size
      → max_slots c ≤ (c.segment_size - bitmap_bytes c) / slot_bytes c
  max_slots-le h =
      let area = data_area c.segment_size (bitmap_bytes c) h small.size_fits in
      omega (
        arith,
        mod-le ((c.segment_size + 2 ^ 64 - bitmap_bytes c) % 2 ^ 64 / slot_bytes c) (2 ^ 32),
        ap (λ (t : ℕ). t / slot_bytes c) area,
      )

  max_slots-fit :
      bitmap_bytes c ≤ c.segment_size → bitmap_bytes c + max_slots c * slot_bytes c ≤ c.segment_size
  max_slots-fit h =
      slots_fit c.segment_size (bitmap_bytes c) (slot_bytes c) (max_slots c) h
        (omega (arith, slot_bytes-eq, small.slot_pos)) (max_slots-le h)

  -- For sizes that do not wrap and an aligned bitmap that fits the segment: every slot has a bit
  -- in the bitmap, and the bitmap area and all slots together fit the segment.
  pub layout_fits :
      (calculate_layout c).bitmap_size ≤ c.segment_size
      → ((calculate_layout c).total_slots ≤ 8 * (calculate_layout c).bitmap_size)
        × ((calculate_layout c).bitmap_size
              + (calculate_layout c).total_slots * (calculate_layout c).slot_size
            ≤ c.segment_size)
  unfolding calculate_layout
  layout_fits h = elim (Bool-cases (ltb (max_slots c) (slot_estimate c))) [
    | inl e ↦ rw e (omega (arith, ltb→lt _ _ e, slot_estimate-le-bits), max_slots-fit h)
    | inr e ↦ rw e (
      slot_estimate-le-bits,
      slots_fit c.segment_size (bitmap_bytes c) (slot_bytes c) (slot_estimate c) h
          (omega (arith, slot_bytes-eq, small.slot_pos))
          (le_trans (not_lt_le _ _ e) (max_slots-le h)),
    )
  ]
