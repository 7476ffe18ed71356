-- ===== src/Storage/Payload/RoundTrip.antt =====
-- What is decoded from an encoded payload
-- (parakv/core/kvcache_storage/index_kvcache_storage_backend.cc).
use mathlib.Core.Path.{◌∙◌, ap, subst}
use native.Mathlib.Numerals.{unary_clauses}
use para_kv.Prelude.{
  ℕ, zero, suc, ◌+◌, ◌-◌, ◌%◌, ◌^◌, ◌≡◌, ◌≤◌, ◌<◌, false, [], ◌∷◌, ◌++◌, ltb, length, take, drop,
  replicate, refl, arith, Bool-cases, inl, inr, ltb→lt, ◌⊎◌, length-append, length-replicate,
  take-append, drop-append,
}
use para_kv.Prelude.Bytes.{Bytes, write_le32, read_le32, read_le32-write_le32}
use para_kv.Storage.{ok, value_too_large}
use para_kv.Storage.Payload.{
  header_bytes, copy_at, max_payload, filled_payload, encode_payload, decode_payload,
}

suc_add : (n m : ℕ) → suc n + m ≡ suc (n + m)
suc_add n m = omega arith

drop_add : (n m : ℕ) (xs : Bytes) → drop (n + m) xs ≡ drop m (drop n xs)
drop_add zero m xs = ap (λ k. drop k xs) (omega arith)
drop_add (suc n) zero [] = simp unary_clauses refl
drop_add (suc n) (suc m) [] = simp unary_clauses refl
drop_add (suc n) m (x ∷ xs) = ap (λ k. drop k (x ∷ xs)) (suc_add n m) ∙ drop_add n m xs

drop-replicate : (k n : ℕ) → drop {A = ℕ} k (replicate (k + n) 0) ≡ replicate n 0
drop-replicate zero n = ap (λ k. replicate {A = ℕ} k 0) (omega arith)
drop-replicate (suc k) n =
    ap (λ j. drop (suc k) (replicate {A = ℕ} j 0)) (suc_add k n) ∙ drop-replicate k n

-- A copy just behind the front part of a buffer.
copy_at-behind :
    (front rest bytes : Bytes) (off : ℕ)
    → length front ≡ off
    → copy_at (front ++ rest) off bytes ≡ front ++ (bytes ++ drop (length bytes) rest)
copy_at-behind front rest bytes off h =
    rw
      (
        take-append off front rest h,
        drop_add off (length bytes) (front ++ rest),
        drop-append off front rest h,
      )
      refl

-- The zeros that are left behind a copy.
copy_at-zeros :
    (front bytes : Bytes) (off n : ℕ)
    → length front ≡ off
    → copy_at (front ++ replicate (length bytes + n) 0) off bytes
      ≡ front ++ (bytes ++ replicate n 0)
copy_at-zeros front bytes off n h =
    copy_at-behind front (replicate (length bytes + n) 0) bytes off h
    ∙ ap (λ z. front ++ (bytes ++ z)) (drop-replicate (length bytes) n)

-- The parts of a filled payload: the two lengths, the value, the metadata and the zeros.
abbrev parts : Bytes → Bytes → ℕ → Bytes
parts value metadata n =
    write_le32 (length value % 2 ^ 32)
    ++ (write_le32 (length metadata % 2 ^ 32) ++ (value ++ (metadata ++ replicate n 0)))

filled_payload-parts :
    (value metadata : Bytes) (n : ℕ)
    → filled_payload (8 + (length value + (length metadata + n))) value metadata
      ≡ parts value metadata n
unfolding write_le32
filled_payload-parts value metadata n =
    ap (λ s. fourth (third (second (copy_at (replicate s 0) 0 l1)))) (omega arith)
    ∙ ap (λ z. fourth (third (second z))) (copy_at-zeros [] l1 0 (4 + rest) refl)
    ∙ ap (λ z. fourth (third z)) (copy_at-zeros l1 l2 4 rest refl)
    ∙ ap fourth (copy_at-zeros (l1 ++ l2) value 8 (length metadata + n) refl)
    ∙ copy_at-zeros (l1 ++ (l2 ++ value)) metadata (8 + length value) n (omega arith)
  where
    l1 : Bytes
    l1 = write_le32 (length value % 2 ^ 32)

    l2 : Bytes
    l2 = write_le32 (length metadata % 2 ^ 32)

    rest : ℕ
    rest = length value + (length metadata + n)

    second : Bytes → Bytes
    second z = copy_at z 4 l2

    third : Bytes → Bytes
    third z = copy_at z 8 value

    fourth : Bytes → Bytes
    fourth z = copy_at z (8 + length value) metadata

length-parts :
    (value metadata : Bytes) (n : ℕ)
    → length (parts value metadata n) ≡ 8 + (length value + (length metadata + n))
unfolding write_le32
length-parts value metadata n = omega (
  arith,
  length-append value (metadata ++ replicate n 0),
  length-append metadata (replicate n 0),
  length-replicate {A = ℕ} n 0,
)

not_less : (a b : ℕ) → ltb a b ≡ false → b ≤ a
not_less a b h = ground arith

-- A payload whose lengths fit in it.
decode_payload-ok :
    (p : Bytes) (a b : ℕ)
    → read_le32 p ≡ a
    → read_le32 (drop 4 p) ≡ b
    → 8 + (a + b) ≤ length p
    → decode_payload p ≡ (ok, take a (drop 8 p), take b (drop (8 + a) p), [])
unfolding decode_payload
decode_payload-ok p a b first second fits = simp (first, second, large, larger) refl
  where
    large : ltb (length p) 8 ≡ false
    large = ground (arith, fits)

    larger : ltb (length p) (8 + (a + b)) ≡ false
    larger = ground (arith, fits)

decode_payload-parts :
    (value metadata : Bytes) (n : ℕ)
    → length value < 2 ^ 32
    → length metadata < 2 ^ 32
    → decode_payload (parts value metadata n) ≡ (ok, value, metadata, [])
unfolding write_le32
decode_payload-parts value metadata n v m =
    decode_payload-ok p (length value) (length metadata) first second
      (omega (arith, length-parts value metadata n))
    ∙ (λ i. (ok, the_value i, the_metadata i, []))
  where
    p : Bytes
    p = parts value metadata n

    first : read_le32 (parts value metadata n) ≡ length value
    first = read_le32-write_le32 (length value % 2 ^ 32) _ (omega arith) ∙ omega (arith, v)

    second : read_le32 (drop 4 (parts value metadata n)) ≡ length metadata
    second = read_le32-write_le32 (length metadata % 2 ^ 32) _ (omega arith) ∙ omega (arith, m)

    the_value : take (length value) (drop 8 (parts value metadata n)) ≡ value
    the_value = take-append (length value) value _ refl

    the_metadata :
        take (length metadata) (drop (8 + length value) (parts value metadata n)) ≡ metadata
    the_metadata =
        ap (take (length metadata)) (
          drop_add 8 (length value) (parts value metadata n)
          ∙ drop-append (length value) value (metadata ++ replicate n 0) refl)
        ∙ take-append (length metadata) metadata (replicate n 0) refl

-- For a slot of more than a header's bytes (a 32-bit number), a value and metadata that fit
-- behind the header are encoded to a payload of exactly the slot's size, and decoding the payload
-- gives the value and the metadata back; what does not fit is refused as too large and nothing is
-- encoded.
pub decode_payload-encode_payload :
    (slot_value_size : ℕ) (value metadata : Bytes)
    → header_bytes < slot_value_size
    → slot_value_size < 2 ^ 32
    → length value + length metadata < 2 ^ 64
    → let (code, payload, err) = encode_payload slot_value_size value metadata in
      ((header_bytes + (length value + length metadata) ≤ slot_value_size)
        × (code ≡ ok)
        × (length payload ≡ slot_value_size)
        × (decode_payload payload ≡ (ok, value, metadata, [])))
      ⊎ ((slot_value_size < header_bytes + (length value + length metadata))
          × (code ≡ value_too_large)
          × (payload ≡ []))
unfolding encode_payload
decode_payload-encode_payload slot_value_size value metadata valid word sane =
    elim (Bool-cases
      (ltb (max_payload slot_value_size) ((length value + length metadata) % 2 ^ 64))) [
        | inl e ↦ inr (omega (arith, ltb→lt _ _ e), simp (e) refl, simp (e) refl)
        | inr e ↦
            let fits : 8 + (length value + length metadata) ≤ slot_value_size =
              omega (arith, not_less _ _ e) in
            let n = slot_value_size - (8 + (length value + length metadata)) in
            let shape : filled_payload slot_value_size value metadata ≡ parts value metadata n =
              subst (λ s. filled_payload s value metadata ≡ parts value metadata n)
                (omega (arith, fits)) (filled_payload-parts value metadata n) in
            simp (e) (
              inl (
                fits,
                refl,
                ap length shape ∙ length-parts value metadata n ∙ omega (arith, fits),
                ap decode_payload shape
                    ∙ decode_payload-parts value metadata n (omega (arith, fits, word))
                        (omega (arith, fits, word)),
              ))
      ]
