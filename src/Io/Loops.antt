-- ===== src/Io/Loops.antt =====
-- What the transfer loops do, whatever the single calls answer.
use para_kv.Prelude.{
  ℕ, zero, suc, ◌+◌, ◌-◌, ◌≤◌, ◌<◌, min, ◌≡◌, refl, sym, ap, ◌∙◌, ◌⊎◌, inl, inr, true, false, List,
  [], ◌∷◌, ◌++◌, length, take, drop, append_assoc, append-nil, arith, leb, ◌==◌, if◌then◌else◌,
  Bool-cases, length-take, length-drop, take-append-drop,
}
use para_kv.Prelude.Bytes.{Bytes}
use para_kv.Status.{ok, io_error, corruption}
use para_kv.Io.{
  File, Transfer, moved, interrupted, failed, NoFailure, read_range, write_range, pwrite_all,
  ReadState, read_all, pread_all,
}
use para_kv.Io.Ranges.{read_range-add, read-write_apart, write_range-append}

-- Writing a first part and then the rest.
write_parts :
    (f : File) (off : ℕ) (buf : Bytes) (n : ℕ)
    → n ≤ length buf
    → write_range (write_range f off (take n buf)) (off + n) (drop n buf) ≡ write_range f off buf
write_parts f off buf n h =
    ap (λ (o : ℕ). write_range (write_range f off (take n buf)) o (drop n buf))
      (omega (arith, length-take n buf))
    ∙ write_range-append f off (take n buf) (drop n buf)
    ∙ ap (write_range f off) (take-append-drop n buf)

-- The loop succeeds or reports an I/O error; where it succeeds, the whole buffer is written.
pub pwrite_all-ok :
    (s : List Transfer) (f : File) (buf : Bytes) (off : ℕ)
    → (pwrite_all s f buf off).status ≡ ok
    → (pwrite_all s f buf off).file ≡ write_range f off buf
unfolding pwrite_all
pwrite_all-ok [] f buf off h = refl
pwrite_all-ok (t ∷ s) f [] off h = unfold write_range in refl
pwrite_all-ok (failed ∷ s) f (b ∷ buf) off h = cc
pwrite_all-ok (interrupted ∷ s) f (b ∷ buf) off h = pwrite_all-ok s f (b ∷ buf) off h
pwrite_all-ok (moved m ∷ s) f (b ∷ buf) off h =
    let n = min m (length (b ∷ buf)) in
    pwrite_all-ok s (write_range f off (take n (b ∷ buf))) (drop n (b ∷ buf)) (off + n) h
    ∙ write_parts f off (b ∷ buf) n (omega arith)

pub pwrite_all-status :
    (s : List Transfer) (f : File) (buf : Bytes) (off : ℕ)
    → ((pwrite_all s f buf off).status ≡ ok) ⊎ ((pwrite_all s f buf off).status ≡ io_error)
unfolding pwrite_all
pwrite_all-status [] f buf off = inl refl
pwrite_all-status (t ∷ s) f [] off = inl refl
pwrite_all-status (failed ∷ s) f (b ∷ buf) off = inr refl
pwrite_all-status (interrupted ∷ s) f (b ∷ buf) off = pwrite_all-status s f (b ∷ buf) off
pwrite_all-status (moved m ∷ s) f (b ∷ buf) off = pwrite_all-status s _ _ _

-- Short and interrupted writes alone do not make the loop fail.
pub pwrite_all-NoFailure :
    (s : List Transfer) (f : File) (buf : Bytes) (off : ℕ)
    → NoFailure s
    → ((pwrite_all s f buf off).status ≡ ok) × NoFailure (pwrite_all s f buf off).script
unfolding pwrite_all
pwrite_all-NoFailure [] f buf off h = (refl, h)
pwrite_all-NoFailure (t ∷ s) f [] off h = (refl, h)
pwrite_all-NoFailure (failed ∷ s) f (b ∷ buf) off h = absurd h
pwrite_all-NoFailure (interrupted ∷ s) f (b ∷ buf) off h = pwrite_all-NoFailure s f (b ∷ buf) off h
pwrite_all-NoFailure (moved m ∷ s) f (b ∷ buf) off h = pwrite_all-NoFailure s _ _ _ h

-- A failed write too changes nothing outside its range.
pub read-pwrite_all_apart :
    (s : List Transfer) (f : File) (buf : Bytes) (off at n : ℕ)
    → (at + n ≤ off) ⊎ (off + length buf ≤ at)
    → read_range (pwrite_all s f buf off).file at n ≡ read_range f at n
unfolding pwrite_all
read-pwrite_all_apart [] f buf off at n h = read-write_apart f off buf at n h
read-pwrite_all_apart (t ∷ s) f [] off at n h = refl
read-pwrite_all_apart (failed ∷ s) f (b ∷ buf) off at n h = refl
read-pwrite_all_apart (interrupted ∷ s) f (b ∷ buf) off at n h =
    read-pwrite_all_apart s f (b ∷ buf) off at n h
read-pwrite_all_apart (moved m ∷ s) f (b ∷ buf) off at n h =
    let k = min m (length (b ∷ buf)) in
    read-pwrite_all_apart s (write_range f off (take k (b ∷ buf))) (drop k (b ∷ buf)) (off + k) at n
      (omega (arith, length-drop k (b ∷ buf)))
    ∙ read-write_apart f off (take k (b ∷ buf)) at n (omega (arith, length-take k (b ∷ buf)))

abbrev pub Complete : ReadState → Bytes → ℕ → Type 0
Complete r buf pos =
    (r.status ≡ ok) × (r.eof ≡ false) × (r.buf ≡ buf) × (r.pos ≡ pos) × NoFailure r.script

join_parts :
    (f : File) (pos n count : ℕ) (acc : Bytes)
    → n ≤ count
    → (acc ++ read_range f pos n) ++ read_range f (pos + n) (count - n)
      ≡ acc ++ read_range f pos count
join_parts f pos n count acc h =
    append_assoc acc (read_range f pos n) (read_range f (pos + n) (count - n))
    ∙ ap (λ (l : Bytes). acc ++ l)
        (sym (read_range-add f pos n (count - n)) ∙ ap (read_range f pos) (omega arith))

Complete-eq :
    (r : ReadState) {b b' : Bytes} {p p' : ℕ} → b ≡ b' → p ≡ p' → Complete r b p → Complete r b' p'
Complete-eq r e q (st, eo, bu, po, ns) = (st, eo, bu ∙ e, po ∙ q, ns)

-- Where the file has the bytes and no call fails, `ReadAll` returns them.
pub read_all-Complete :
    (s : List Transfer) (f : File) (pos count total : ℕ) (acc : Bytes)
    → NoFailure s
    → pos + count ≤ f.size
    → Complete (read_all s f pos count total acc) (acc ++ read_range f pos count) (pos + count)
unfolding read_all
read_all-Complete [] f pos count total acc ns h =
    let e : (min count (f.size - pos) == count) ≡ true = ground arith in
    rw e (refl, refl, refl, refl, ns)
read_all-Complete (t ∷ s) f pos zero total acc ns h =
    (refl, refl, unfold read_range in sym (append-nil acc), omega arith, ns)
read_all-Complete (failed ∷ s) f pos (suc c) total acc ns h = absurd ns
read_all-Complete (interrupted ∷ s) f pos (suc c) total acc ns h =
    read_all-Complete s f pos (suc c) total acc ns h
read_all-Complete (moved m ∷ s) f pos (suc c) total acc ns h =
    let n = min (suc m) (min (suc c) (f.size - pos)) in
    let e : (n == 0) ≡ false = ground arith in
    rw e (
      Complete-eq (read_all s f (pos + n) (suc c - n) (total + n) (acc ++ read_range f pos n))
        (join_parts f pos n (suc c) acc (omega arith)) (omega arith)
        (read_all-Complete s f (pos + n) (suc c - n) (total + n) (acc ++ read_range f pos n) ns
          (omega arith)))

-- The result of `ReadAll` where the file ends too early: the end of the file if nothing was
-- read, and else a corruption.
abbrev pub Short : ReadState → ℕ → Type 0
Short r read = (r.status ≡ (if read == 0 then ok else corruption)) × (r.eof ≡ (read == 0))

pub read_all-Short :
    (s : List Transfer) (f : File) (pos count total : ℕ) (acc : Bytes)
    → NoFailure s
    → pos ≤ f.size
    → f.size < pos + count
    → Short (read_all s f pos count total acc) (total + (f.size - pos))
unfolding read_all
read_all-Short [] f pos count total acc ns p h =
    let e : (min count (f.size - pos) == count) ≡ false = ground arith in
    let n : min count (f.size - pos) ≡ f.size - pos = omega arith in
    rw (e, n)
      (elim (Bool-cases (total + (f.size - pos) == 0)) [
        | inl z ↦ rw z (refl, refl)
        | inr z ↦ rw z (refl, refl)
      ])
read_all-Short (t ∷ s) f pos zero total acc ns p h = absurd (omega arith)
read_all-Short (failed ∷ s) f pos (suc c) total acc ns p h = absurd ns
read_all-Short (interrupted ∷ s) f pos (suc c) total acc ns p h =
    read_all-Short s f pos (suc c) total acc ns p h
read_all-Short (moved m ∷ s) f pos (suc c) total acc ns p h =
    let n = min (suc m) (min (suc c) (f.size - pos)) in
    let same : total + n + (f.size - (pos + n)) ≡ total + (f.size - pos) = omega arith in
    elim (Bool-cases (n == 0)) [
      | inl z ↦
          let e : total + (f.size - pos) ≡ total = ground arith in
          rw (z, e)
            (elim (Bool-cases (total == 0)) [
              | inl y ↦ rw y (refl, refl)
              | inr y ↦ rw y (refl, refl)
            ])
      | inr z ↦
          rw (z, ← same)
            (read_all-Short s f (pos + n) (suc c - n) (total + n) (acc ++ read_range f pos n) ns
              (omega arith) (omega arith))
    ]

-- Where `PRead` succeeds, it returns the bytes of the range.
pub pread_all-ok :
    (s : List Transfer) (f : File) (off count : ℕ) (acc : Bytes)
    → (pread_all s f off count acc).status ≡ ok
    → (pread_all s f off count acc).buf ≡ acc ++ read_range f off count
unfolding pread_all
pread_all-ok [] f off count acc h = elim (Bool-cases (leb count (f.size - off))) [
  | inl fits ↦ rw fits
  | inr short ↦ absurd (status_differs (rw short at h))
]
  where
    status_differs : corruption ≡ ok → ⊥
    status_differs e = cc
pread_all-ok (t ∷ s) f off zero acc h = unfold read_range in sym (append-nil acc)
pread_all-ok (failed ∷ s) f off (suc c) acc h = cc
pread_all-ok (interrupted ∷ s) f off (suc c) acc h = pread_all-ok s f off (suc c) acc h
pread_all-ok (moved m ∷ s) f off (suc c) acc h =
    let n = min (suc m) (min (suc c) (f.size - off)) in
    elim (Bool-cases (n == 0)) [
      | inl z ↦ absurd (status_differs (rw z at h))
      | inr z ↦ rw z (
          pread_all-ok s f (off + n) (suc c - n) (acc ++ read_range f off n) (rw z at h)
          ∙ join_parts f off n (suc c) acc (omega arith))
    ]
  where
    status_differs : corruption ≡ ok → ⊥
    status_differs e = cc

-- Where the file has the bytes, short and interrupted reads alone do not make `PRead` fail.
pub pread_all-NoFailure :
    (s : List Transfer) (f : File) (off count : ℕ) (acc : Bytes)
    → NoFailure s
    → off + count ≤ f.size
    → ((pread_all s f off count acc).status ≡ ok) × NoFailure (pread_all s f off count acc).script
unfolding pread_all
pread_all-NoFailure [] f off count acc ns h =
    let e : leb count (f.size - off) ≡ true = ground arith in rw e (refl, ns)
pread_all-NoFailure (t ∷ s) f off zero acc ns h = (refl, ns)
pread_all-NoFailure (failed ∷ s) f off (suc c) acc ns h = absurd ns
pread_all-NoFailure (interrupted ∷ s) f off (suc c) acc ns h =
    pread_all-NoFailure s f off (suc c) acc ns h
pread_all-NoFailure (moved m ∷ s) f off (suc c) acc ns h =
    let n = min (suc m) (min (suc c) (f.size - off)) in
    let e : (n == 0) ≡ false = ground arith in
    rw e
      (pread_all-NoFailure s f (off + n) (suc c - n) (acc ++ read_range f off n) ns (omega arith))
