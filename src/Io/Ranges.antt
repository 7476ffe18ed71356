-- ===== src/Io/Ranges.antt =====
-- Reading a file back after a write.
use native.Mathlib.Nat.{suc-add}
use mathlib.Core.Path.{ap₂}
use para_kv.Prelude.{
  ℕ, zero, suc, ◌+◌, ◌-◌, ◌≤◌, ◌<◌, ◌≡◌, refl, sym, ap, ◌∙◌, ◌⊎◌, inl, inr, [], ◌∷◌, ◌++◌, length,
  get_or, ltb, if◌then◌else◌, arith, length-append, append-nil,
}
use para_kv.Prelude.Bytes.{Bytes}
use para_kv.Io.{File, read_range, write_range}

pub length-read_range : (f : File) (off n : ℕ) → length (read_range f off n) ≡ n
unfolding read_range
length-read_range f off zero = refl
length-read_range f off (suc n) = ap suc (length-read_range f (off + 1) n)

-- A range depends only on the bytes in it.
pub read_range-ext :
    (f g : File) (off n : ℕ)
    → ((i : ℕ) → off ≤ i → i < off + n → f.byte i ≡ g.byte i)
    → read_range f off n ≡ read_range g off n
unfolding read_range
read_range-ext f g off zero h = refl
read_range-ext f g off (suc n) h =
    ap₂ ◌∷◌ (h off (omega arith) (omega arith))
      (read_range-ext f g (off + 1) n (λ i p q. h i (omega arith) (omega arith)))

-- A range is its first part and the rest.
pub read_range-add :
    (f : File) (off n m : ℕ)
    → read_range f off (n + m) ≡ read_range f off n ++ read_range f (off + n) m
unfolding read_range
read_range-add f off zero m =
    ap (read_range f off) (omega arith) ∙ ap (λ o. read_range f o m) (omega arith)
read_range-add f off (suc n) m =
    ap (read_range f off) (suc-add n m)
    ∙ ap (◌∷◌ (f.byte off)) (
        read_range-add f (off + 1) n m
        ∙ ap (λ o. read_range f (off + 1) n ++ read_range f o m) (omega arith))

byte-write_range :
    (f : File) (off : ℕ) (bs : Bytes) (i : ℕ)
    → (write_range f off bs).byte i
      ≡ (if ltb i off then f.byte i else get_or bs (i - off) (f.byte i))
unfolding write_range
byte-write_range f off [] i = ground arith
byte-write_range f off (b ∷ bs) i = refl

get_or_past : (bs : Bytes) (i d : ℕ) → length bs ≤ i → get_or bs i d ≡ d
get_or_past [] i d h = refl
get_or_past (b ∷ bs) zero d h = absurd (omega arith)
get_or_past (b ∷ bs) (suc i) d h = get_or_past bs i d (omega arith)

-- A write leaves a range that it does not meet.
pub read-write_apart :
    (f : File) (off : ℕ) (bs : Bytes) (at n : ℕ)
    → (at + n ≤ off) ⊎ (off + length bs ≤ at)
    → read_range (write_range f off bs) at n ≡ read_range f at n
read-write_apart f off bs at n (inl h) =
    read_range-ext _ _ at n (λ i p q. ground (arith, byte-write_range f off bs i))
read-write_apart f off bs at n (inr h) =
    read_range-ext _ _ at n
      (λ i p q. ground (arith, byte-write_range f off bs i, get_or_past bs (i - off) (f.byte i)))

read_range_list :
    (f : File) (off : ℕ) (bs : Bytes)
    → ((i : ℕ) → i < length bs → f.byte (off + i) ≡ get_or bs i 0)
    → read_range f off (length bs) ≡ bs
unfolding read_range
read_range_list f off [] h = refl
read_range_list f off (b ∷ bs) h =
    ap₂ ◌∷◌ (ap f.byte (omega arith) ∙ h 0 (omega arith))
      (read_range_list f (off + 1) bs (λ i p. ap f.byte (omega arith) ∙ h (suc i) (omega arith)))

get_or_in : (bs : Bytes) (i d e : ℕ) → i < length bs → get_or bs i d ≡ get_or bs i e
get_or_in [] i d e h = absurd (omega arith)
get_or_in (b ∷ bs) zero d e h = refl
get_or_in (b ∷ bs) (suc i) d e h = get_or_in bs i d e (omega arith)

-- What is written is read back.
pub read-write_self :
    (f : File) (off : ℕ) (bs : Bytes) → read_range (write_range f off bs) off (length bs) ≡ bs
read-write_self f off bs = read_range_list (write_range f off bs) off bs λ i h.
    byte-write_range f off bs (off + i) ∙ ground (arith, get_or_in bs i (f.byte (off + i)) 0, sub i)
  where
    sub : (i : ℕ) → off + i - off ≡ i
    sub i = omega arith

get_or-append :
    (xs ys : Bytes) (i d : ℕ)
    → get_or (xs ++ ys) i d
      ≡ (if ltb i (length xs) then get_or xs i d else get_or ys (i - length xs) d)
get_or-append [] ys i d = ground arith
get_or-append (x ∷ xs) ys zero d = ground arith
get_or-append (x ∷ xs) ys (suc i) d = get_or-append xs ys i d ∙ ground arith

File-ext : (f g : File) → f.size ≡ g.size → ((i : ℕ) → f.byte i ≡ g.byte i) → f ≡ g
File-ext f g p q = λ j. record { size = p j; byte = λ i. q i j }

-- Two writes, one after the other, are one write.
pub write_range-append :
    (f : File) (off : ℕ) (xs ys : Bytes)
    → write_range (write_range f off xs) (off + length xs) ys ≡ write_range f off (xs ++ ys)
unfolding write_range
write_range-append f off [] ys = ap (λ o. write_range f o ys) (omega arith)
write_range-append f off (x ∷ xs) [] = ap (λ l. write_range f off (x ∷ l)) (sym (append-nil xs))
write_range-append f off (x ∷ xs) (y ∷ ys) =
    File-ext _ _ (ground (arith, length-append xs (y ∷ ys))) λ i. ground (
      arith,
      byte-write_range f off (x ∷ xs) i,
      byte-write_range f off (x ∷ (xs ++ y ∷ ys)) i,
      byte-write_range (write_range f off (x ∷ xs)) (off + length (x ∷ xs)) (y ∷ ys) i,
      get_or-append (x ∷ xs) (y ∷ ys) (i - off) (f.byte i),
      get_or_past (x ∷ xs) (i - off) (f.byte i),
      minus i,
    )
  where
    minus : (i : ℕ) → i - (off + length (x ∷ xs)) ≡ i - off - length (x ∷ xs)
    minus i = omega arith
