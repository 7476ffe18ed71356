-- ===== src/Segment/Bitmap.antt =====
-- The slot bitmap: `SetSlotBit`, `ClearSlotBit` and `IsSlotOccupied` of
-- parakv/core/segment/segment_base.cc, over the bytes of `bitmap_`. The laws of one byte are
-- checked at every byte and every pair of bits.
use para_kv.Prelude.{
  ℕ, zero, suc, ◌-◌, ◌*◌, ◌/◌, ◌%◌, ◌^◌, ◌<◌, bit_and, bit_or, ◌≡◌, refl, sym, ap, ◌∙◌, Bool, true,
  false, ◌&&◌, not, [], ◌∷◌, length, get_or, set, length-set, arith, ltb, ltb→lt, ◌==◌, ==_iff,
  if◌then◌else◌, Bool-cases, inl, inr,
}
use para_kv.Prelude.Bytes.{Bytes, AreBytes}

-- `1u << bit`, the byte with it set, with it cleared (`& ~(1u << bit)`, 32 bits wide, cut to a
-- byte), and its test.
abbrev set_bit : ℕ → ℕ → ℕ
set_bit x bit = bit_or x (2 ^ bit)

abbrev clear_bit : ℕ → ℕ → ℕ
clear_bit x bit = bit_and x (2 ^ 32 - 1 - 2 ^ bit) % 256

abbrev test_bit : ℕ → ℕ → Bool
test_bit x bit = not (bit_and x (2 ^ bit) == 0)

unfoldable pub set_slot_bit : Bytes → ℕ → Bytes
set_slot_bit bitmap slot = set bitmap (slot / 8) (set_bit (get_or bitmap (slot / 8) 0) (slot % 8))

unfoldable pub clear_slot_bit : Bytes → ℕ → Bytes
clear_slot_bit bitmap slot =
    set bitmap (slot / 8) (clear_bit (get_or bitmap (slot / 8) 0) (slot % 8))

unfoldable pub is_slot_occupied : Bytes → ℕ → Bool
is_slot_occupied bitmap slot = test_bit (get_or bitmap (slot / 8) 0) (slot % 8)

abbrev bool_eq : Bool → Bool → Bool
bool_eq true b = b
bool_eq false b = not b

bool_eq_sound : (a b : Bool) → bool_eq a b ≡ true → a ≡ b
bool_eq_sound true true h = refl
bool_eq_sound true false h = sym h
bool_eq_sound false true h = h
bool_eq_sound false false h = refl

every : ℕ → (ℕ → Bool) → Bool
every zero p = true
every (suc n) p = p n && every n p

every_sound : (n : ℕ) (p : ℕ → Bool) (x : ℕ) → every n p ≡ true → x < n → p x ≡ true
unfolding every
every_sound zero p x h lt = absurd (omega arith)
every_sound (suc n) p x h lt = ground (arith, every_sound n p x)

-- The laws of one byte, as a test.
byte_law : ℕ → ℕ → ℕ → Bool
byte_law x b c =
    bool_eq (test_bit (set_bit x b) c) (if b == c then true else test_bit x c)
    && (bool_eq (test_bit (clear_bit x b) c) (if b == c then false else test_bit x c)
        && (ltb (set_bit x b) 256 && ltb (clear_bit x b) 256))

byte_table : every 256 (λ x. every 8 (λ b. every 8 (λ c. byte_law x b c))) ≡ true
unfolding every byte_law
byte_table = refl

byte_law_holds : (x b c : ℕ) → x < 256 → b < 8 → c < 8 → byte_law x b c ≡ true
byte_law_holds x b c hx hb hc =
    every_sound 8 _ c
      (every_sound 8 _ b
        (every_sound 256 (λ y. every 8 (λ d. every 8 (λ e. byte_law y d e))) x byte_table hx) hb)
      hc

and_parts :
    (p q r t : Bool)
    → p && (q && (r && t)) ≡ true
    → (p ≡ true) × (q ≡ true) × (r ≡ true) × (t ≡ true)
and_parts p q r t h = ground arith

module _ (x b c : ℕ) (hx : x < 256) (hb : b < 8) (hc : c < 8) where
  byte_laws :
      (test_bit (set_bit x b) c ≡ (if b == c then true else test_bit x c))
      × (test_bit (clear_bit x b) c ≡ (if b == c then false else test_bit x c))
      × (set_bit x b < 256)
      × (clear_bit x b < 256)
  unfolding byte_law
  byte_laws =
      let h = and_parts _ _ _ _ (byte_law_holds x b c hx hb hc) in
      (bool_eq_sound _ _ h.0, bool_eq_sound _ _ h.1, ltb→lt _ _ h.2, ltb→lt _ _ h.3)

pub get_or-lt : (bm : Bytes) (i : ℕ) → AreBytes bm → get_or bm i 0 < 256
get_or-lt [] i h = omega arith
get_or-lt (x ∷ bm) zero h = h.0
get_or-lt (x ∷ bm) (suc i) h = get_or-lt bm i h.1

set-AreBytes : (bm : Bytes) (i v : ℕ) → AreBytes bm → v < 256 → AreBytes (set bm i v)
set-AreBytes [] i v h hv = h
set-AreBytes (x ∷ bm) zero v h hv = (hv, h.1)
set-AreBytes (x ∷ bm) (suc i) v h hv = (h.0, set-AreBytes bm i v h.1 hv)

get_or-set :
    (bm : Bytes) (i v j : ℕ)
    → i < length bm
    → get_or (set bm i v) j 0 ≡ (if i == j then v else get_or bm j 0)
get_or-set [] i v j h = absurd (omega arith)
get_or-set (x ∷ bm) zero v zero h = refl
get_or-set (x ∷ bm) zero v (suc j) h = ground arith
get_or-set (x ∷ bm) (suc i) v zero h = ground arith
get_or-set (x ∷ bm) (suc i) v (suc j) h = get_or-set bm i v j (omega arith) ∙ ground arith

module _ (bm : Bytes) (i : ℕ) (bytes : AreBytes bm) where
  pub set_slot_bit-AreBytes : AreBytes (set_slot_bit bm i)
  unfolding set_slot_bit
  set_slot_bit-AreBytes =
      set-AreBytes bm (i / 8) _ bytes
        (byte_laws (get_or bm (i / 8) 0) (i % 8) 0 (get_or-lt bm (i / 8) bytes) (omega arith)
          (omega arith)).2

  pub clear_slot_bit-AreBytes : AreBytes (clear_slot_bit bm i)
  unfolding clear_slot_bit
  clear_slot_bit-AreBytes =
      set-AreBytes bm (i / 8) _ bytes
        (byte_laws (get_or bm (i / 8) 0) (i % 8) 0 (get_or-lt bm (i / 8) bytes) (omega arith)
          (omega arith)).3

  -- Setting a slot's bit changes what is read at that slot, and there only; so does clearing.
  pub occupied-set :
      (j : ℕ)
      → i < 8 * length bm
      → is_slot_occupied (set_slot_bit bm i) j ≡ (if i == j then true else is_slot_occupied bm j)
  unfolding is_slot_occupied set_slot_bit
  occupied-set j h =
      let x = get_or bm (i / 8) 0 in
      let law =
        byte_laws x (i % 8) (j % 8) (get_or-lt bm (i / 8) bytes) (omega arith) (omega arith) in
      rw (get_or-set bm (i / 8) (set_bit x (i % 8)) (j / 8) (omega arith))
        (elim (Bool-cases (i / 8 == j / 8)) [
          | inl same ↦
              let e : i / 8 ≡ j / 8 = (==_iff _ _).0 same in
              let f : (i == j) ≡ (i % 8 == j % 8) = ground arith in
              rw (same, f)
                (law.0
                  ∙ ap (λ (y : ℕ). if i % 8 == j % 8 then true else test_bit y (j % 8))
                      (ap (λ (y : ℕ). get_or bm y 0) e))
          | inr other ↦ let f : (i == j) ≡ false = ground arith in rw (other, f)
        ])

  pub occupied-clear :
      (j : ℕ)
      → i < 8 * length bm
      → is_slot_occupied (clear_slot_bit bm i) j ≡ (if i == j then false else is_slot_occupied bm j)
  unfolding is_slot_occupied clear_slot_bit
  occupied-clear j h =
      let x = get_or bm (i / 8) 0 in
      let law =
        byte_laws x (i % 8) (j % 8) (get_or-lt bm (i / 8) bytes) (omega arith) (omega arith) in
      rw (get_or-set bm (i / 8) (clear_bit x (i % 8)) (j / 8) (omega arith))
        (elim (Bool-cases (i / 8 == j / 8)) [
          | inl same ↦
              let e : i / 8 ≡ j / 8 = (==_iff _ _).0 same in
              let f : (i == j) ≡ (i % 8 == j % 8) = ground arith in
              rw (same, f)
                (law.1
                  ∙ ap (λ (y : ℕ). if i % 8 == j % 8 then false else test_bit y (j % 8))
                      (ap (λ (y : ℕ). get_or bm y 0) e))
          | inr other ↦ let f : (i == j) ≡ false = ground arith in rw (other, f)
        ])

pub length-set_slot_bit : (bm : Bytes) (i : ℕ) → length (set_slot_bit bm i) ≡ length bm
unfolding set_slot_bit
length-set_slot_bit bm i = length-set bm (i / 8) _

pub length-clear_slot_bit : (bm : Bytes) (i : ℕ) → length (clear_slot_bit bm i) ≡ length bm
unfolding clear_slot_bit
length-clear_slot_bit bm i = length-set bm (i / 8) _
