-- ===== src/Index/Wal/Reader/Recovery.antt =====
-- Replaying a log gives back the records that were appended to it.
use mathlib.Core.Option
use mathlib.Core.Path.{subst}
use para_kv.Prelude.{
  ℕ, zero, suc, ◌+◌, ◌-◌, ◌*◌, ◌≤◌, ◌<◌, ◌≡◌, refl, sym, ap, ◌∙◌, ◌⊎◌, inl, inr, true, false,
  Option, none, some, List, [], ◌∷◌, ◌++◌, append-nil, length, take, drop, arith, take-append,
  drop-append, Bool-cases, ◌==◌,
}
use para_kv.Prelude.Bytes.{Bytes}
use para_kv.Status.{ok, corruption}
use para_kv.Io.{File, Transfer, ReadState, NoFailure, read_range, read_all}
use para_kv.Io.Ranges.{length-read_range, read_range-add}
use para_kv.Io.Loops.{Complete, Short, read_all-Complete, read_all-Short}
use para_kv.Index.Wal.Record.{WalRecord, IsRecord, encoded_size, encode, decode}
use para_kv.Index.Wal.Record.RoundTrip.{length-encode, decode-encode}
use para_kv.Index.Wal.Reader.{Replayed, after_read, with_record, ended, replay}

module _ (k : ℕ) where
  -- What a sequence of appended records leaves in the file.
  abbrev pub encode_log : List WalRecord → Bytes
  encode_log [] = []
  encode_log (rec ∷ recs) = encode k rec ++ encode_log recs

  abbrev pub AreRecords : List WalRecord → Type 0
  AreRecords [] = Unit
  AreRecords (rec ∷ recs) = IsRecord k rec × AreRecords recs

  -- From `pos` on there is no further record: the file ends within one, or what stands there is
  -- rejected.
  abbrev pub IsTail : File → ℕ → Type 0
  IsTail f pos =
      (pos ≤ f.size)
      × ((f.size < pos + encoded_size k)
          ⊎ ((pos + encoded_size k ≤ f.size)
              × (decode k (read_range f pos (encoded_size k)) ≡ none)))

split_at :
    (xs ys us vs : Bytes) → length xs ≡ length us → xs ++ ys ≡ us ++ vs → (xs ≡ us) × (ys ≡ vs)
split_at xs ys us vs n e = (
  sym (take-append (length us) xs ys n)
      ∙ ap (take (length us)) e
      ∙ take-append (length us) us vs refl,
  sym (drop-append (length us) xs ys n)
      ∙ ap (drop (length us)) e
      ∙ drop-append (length us) us vs refl,
)

-- How the loop goes on, by what `ReadAll` returned.
after_read-Short :
    (r : ReadState) (d : Option WalRecord) (good read : ℕ) (rest : Option Replayed)
    → Short r read
    → after_read r.status r.eof d good rest ≡ ended ok good
after_read-Short r d good read rest (s, e) = elim (Bool-cases (read == 0)) [
  | inl z ↦ let s' : r.status ≡ ok = s ∙ rw z refl in let e' : r.eof ≡ true = e ∙ z in rw (s', e')
  | inr z ↦ let s' : r.status ≡ corruption = s ∙ rw z refl in rw s'
]

after_read_rejected :
    (r : ReadState) (d : Option WalRecord) (good : ℕ) (rest : Option Replayed)
    → r.status ≡ ok
    → d ≡ none
    → after_read r.status r.eof d good rest ≡ ended ok good
after_read_rejected r d good rest s e = elim (Bool-cases r.eof) [
  | inl z ↦ rw (s, z)
  | inr z ↦ rw (s, z, e)
]

after_read_record :
    (r : ReadState) (d : Option WalRecord) (rec : WalRecord) (good : ℕ) (rest : Option Replayed)
    → r.status ≡ ok
    → r.eof ≡ false
    → d ≡ some rec
    → after_read r.status r.eof d good rest ≡ Option.map (with_record rec) rest
after_read_record r d rec good rest s e h = rw (s, e, h)

module _ (k : ℕ) where
  replay_tail :
      (fuel : ℕ) (s : List Transfer) (f : File) (pos good : ℕ)
      → NoFailure s
      → IsTail k f pos
      → replay k (suc fuel) s f pos good ≡ ended ok good
  unfolding replay
  replay_tail fuel s f pos good ns (le, inl short) =
      after_read-Short (read_all s f pos (encoded_size k) 0 []) _ good (0 + (f.size - pos)) _
        (read_all-Short s f pos (encoded_size k) 0 [] ns le short)
  replay_tail fuel s f pos good ns (le, inr (fits, bad)) =
      let r = read_all s f pos (encoded_size k) 0 [] in
      let c : Complete r (read_range f pos (encoded_size k)) (pos + encoded_size k) =
        read_all-Complete s f pos (encoded_size k) 0 [] ns fits in
      after_read_rejected r _ good _ c.0 (ap (decode k) c.2 ∙ bad)

  replay_record :
      (fuel : ℕ) (s : List Transfer) (f : File) (pos good : ℕ) (rec : WalRecord)
      → NoFailure s
      → IsRecord k rec
      → pos + encoded_size k ≤ f.size
      → read_range f pos (encoded_size k) ≡ encode k rec
      → (s' : List Transfer) × NoFailure s'
        × (replay k (suc fuel) s f pos good
            ≡ Option.map
                (with_record rec)
                (replay k fuel s' f (pos + encoded_size k) (good + encoded_size k)))
  unfolding replay
  replay_record fuel s f pos good rec ns fine fits e =
      let r = read_all s f pos (encoded_size k) 0 [] in
      let c : Complete r (read_range f pos (encoded_size k)) (pos + encoded_size k) =
        read_all-Complete s f pos (encoded_size k) 0 [] ns fits in
      let decoded : decode k r.buf ≡ some rec =
        ap (decode k) (c.2 ∙ e ∙ sym (append-nil (encode k rec))) ∙ decode-encode k rec fine [] in
      (
        r.script,
        c.4,
        after_read_record r _ rec good _ c.0 c.1 decoded
            ∙ ap
                (λ (p : ℕ).
                  Option.map (with_record rec) (replay k fuel r.script f p (good + encoded_size k)))
                c.3,
      )

  split_log :
      (rec : WalRecord) (recs : List WalRecord) (f : File) (pos : ℕ)
      → IsRecord k rec
      → read_range f pos (length (rec ∷ recs) * encoded_size k) ≡ encode_log k (rec ∷ recs)
      → (read_range f pos (encoded_size k) ≡ encode k rec)
        × (read_range f (pos + encoded_size k) (length recs * encoded_size k) ≡ encode_log k recs)
  split_log rec recs f pos fine e =
      split_at (read_range f pos (encoded_size k)) _ (encode k rec) (encode_log k recs)
        (length-read_range f pos (encoded_size k) ∙ sym (length-encode k rec fine))
        (sym (read_range-add f pos (encoded_size k) (length recs * encoded_size k))
          ∙ ap (read_range f pos) (omega arith)
          ∙ e)

  -- For a log file whose bytes from `pos` on are the encoded records `recs`, followed by no
  -- further record (the file ends within one, or what follows is rejected), and calls that may be
  -- short or interrupted but do not fail: replaying returns `kOk`, exactly the records, and the
  -- offset behind the last of them. Fuel above the number of records is enough.
  pub replay-encode_log :
      (recs : List WalRecord) (fuel : ℕ) (s : List Transfer) (f : File) (pos good : ℕ)
      → NoFailure s
      → AreRecords k recs
      → read_range f pos (length recs * encoded_size k) ≡ encode_log k recs
      → IsTail k f (pos + length recs * encoded_size k)
      → length recs < fuel
      → replay k fuel s f pos good
        ≡ some (record {
          status = ok;
          records = recs;
          last_good_offset = good + length recs * encoded_size k;
        })
  replay-encode_log recs zero s f pos good ns fine e tail h = absurd (omega arith)
  replay-encode_log [] (suc fuel) s f pos good ns fine e tail h =
      replay_tail fuel s f pos good ns (subst (IsTail k f) (omega arith) tail)
      ∙ ap (ended ok) (omega arith)
  replay-encode_log (rec ∷ recs) (suc fuel) s f pos good ns fine e tail h =
      let (here, later) = split_log rec recs f pos fine.0 e in
      let (s', ns', step) =
        replay_record fuel s f pos good rec ns fine.0 (omega (arith, tail.0)) here in
      step
      ∙ ap (Option.map (with_record rec)) (
          replay-encode_log recs fuel s' f (pos + encoded_size k) (good + encoded_size k) ns' fine.1
            later (subst (IsTail k f) (omega arith) tail) (omega arith))
      ∙ ap (λ (n : ℕ). some (record { status = ok; records = rec ∷ recs; last_good_offset = n }))
          (omega arith)
