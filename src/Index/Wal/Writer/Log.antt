-- ===== src/Index/Wal/Writer/Log.antt =====
-- What an append does to the log: the bytes of the file below `bytes_written`.
use mathlib.Core.Path.{ap₂}
use para_kv.Prelude.{
  ℕ, ◌+◌, ◌≡◌, refl, sym, ap, ◌∙◌, ◌⊎◌, inl, inr, true, false, ◌∷◌, ◌++◌, length, arith, Bool-cases,
}
use para_kv.Prelude.Bytes.{Bytes}
use para_kv.Status.{Status, ok, io_error}
use para_kv.Io.{File, Written, NoFailure, read_range, write_range, pwrite_all}
use para_kv.Io.Ranges.{read_range-add, read-write_apart, read-write_self}
use para_kv.Io.Loops.{pwrite_all-ok, pwrite_all-status, pwrite_all-NoFailure, read-pwrite_all_apart}
use para_kv.Index.Wal.Writer.{WalWriter, next_sync, wrote, write_locked, synced, then_sync, append}

abbrev pub log : WalWriter → Bytes
log w = read_range w.file 0 w.bytes_written

pub log-write_range :
    (f : File) (n : ℕ) (buf : Bytes)
    → read_range (write_range f n buf) 0 (n + length buf) ≡ read_range f 0 n ++ buf
log-write_range f n buf =
    read_range-add (write_range f n buf) 0 n (length buf)
    ∙ ap₂ ◌++◌ (read-write_apart f n buf 0 n (inl (omega arith))) (
        ap (λ (o : ℕ). read_range (write_range f n buf) o (length buf)) (omega arith)
        ∙ read-write_self f n buf)

-- The log has grown by `buf`, or an I/O error is reported and the log is as before.
abbrev Grown : WalWriter → Bytes → Status × WalWriter → Type 0
Grown w buf r = ((r.0 ≡ ok) × (log r.1 ≡ log w ++ buf)) ⊎ ((r.0 ≡ io_error) × (log r.1 ≡ log w))

wrote-Grown :
    (w : WalWriter) (buf : Bytes) (r : Written)
    → (r.status ≡ ok) ⊎ (r.status ≡ io_error)
    → (r.status ≡ ok → r.file ≡ write_range w.file w.bytes_written buf)
    → read_range r.file 0 w.bytes_written ≡ log w
    → Grown w buf (wrote w (length buf) r)
wrote-Grown w buf r (inl e) file kept = rw e (
    inl (
      refl,
      ap (λ (f : File). read_range f 0 (w.bytes_written + length buf)) (file e)
          ∙ log-write_range w.file w.bytes_written buf,
    ))
wrote-Grown w buf r (inr e) file kept = rw e (inr (refl, kept))

write_locked-Grown : (w : WalWriter) (buf : Bytes) → Grown w buf (write_locked w buf)
unfolding write_locked
write_locked-Grown w buf = elim (Bool-cases w.is_open) [
  | inl o ↦ simp o (
      wrote-Grown w buf (pwrite_all w.script w.file buf w.bytes_written)
        (pwrite_all-status w.script w.file buf w.bytes_written)
        (pwrite_all-ok w.script w.file buf w.bytes_written)
        (read-pwrite_all_apart w.script w.file buf w.bytes_written 0 w.bytes_written
          (inl (omega arith))))
  | inr o ↦ simp o (inr (refl, refl))
]

log-synced : (w : WalWriter) → log (synced w).1 ≡ log w
unfolding synced
log-synced w = ground arith

pub then_sync-ok : (r : Status × WalWriter) → (then_sync r).0 ≡ ok → r.0 ≡ ok
then_sync-ok (ok, w) h = refl
then_sync-ok (io_error, w) h = cc
then_sync-ok (s, w) h = h

log-then_sync : (r : Status × WalWriter) → log (then_sync r).1 ≡ log r.1
log-then_sync (ok, w) = log-synced w
log-then_sync (io_error, w) = refl
log-then_sync (s, w) = refl

-- Whatever the operating system answers, an append of a non-empty buffer leaves the log as it was
-- or extends it by the whole buffer; where it returns `kOk`, the log is extended.
pub append-log :
    (w : WalWriter) (b : ℕ) (buf : Bytes)
    → ((log (append w (b ∷ buf)).1 ≡ log w) ⊎ (log (append w (b ∷ buf)).1 ≡ log w ++ b ∷ buf))
      × ((append w (b ∷ buf)).0 ≡ ok → log (append w (b ∷ buf)).1 ≡ log w ++ b ∷ buf)
unfolding append
append-log w b buf = elim (write_locked-Grown w (b ∷ buf)) [
  | inl (s, l) ↦ let e = log-then_sync (write_locked w (b ∷ buf)) ∙ l in (inr e, λ _. e)
  | inr (s, l) ↦ (
    inl (log-then_sync (write_locked w (b ∷ buf)) ∙ l),
    λ h. absurd (error_is_not_ok (sym s ∙ then_sync-ok (write_locked w (b ∷ buf)) h)),
  )
]
  where
    error_is_not_ok : io_error ≡ ok → ⊥
    error_is_not_ok e = cc

write_locked-NoFailure :
    (w : WalWriter) (buf : Bytes)
    → w.is_open ≡ true
    → NoFailure w.script
    → ((write_locked w buf).0 ≡ ok) × ((write_locked w buf).1.syncs ≡ w.syncs)
unfolding write_locked
write_locked-NoFailure w buf o ns =
    ground (arith, (pwrite_all-NoFailure w.script w.file buf w.bytes_written ns).0)

then_sync_fails :
    (r : Status × WalWriter) → r.0 ≡ ok → next_sync r.1.syncs ≡ false → (then_sync r).0 ≡ io_error
unfolding synced
then_sync_fails (ok, w) e f = simp f refl
then_sync_fails (io_error, w) e f = refl
then_sync_fails (s, w) e f = cc

-- Where no write fails and `fsync` does, an append to an open log reports an I/O error, and the
-- record stands in the log all the same.
pub append_fsync_fails :
    (w : WalWriter) (b : ℕ) (buf : Bytes)
    → w.is_open ≡ true
    → NoFailure w.script
    → next_sync w.syncs ≡ false
    → ((append w (b ∷ buf)).0 ≡ io_error) × (log (append w (b ∷ buf)).1 ≡ log w ++ b ∷ buf)
unfolding append
append_fsync_fails w b buf o ns fails =
    let (done, same) = write_locked-NoFailure w (b ∷ buf) o ns in
    (
      then_sync_fails (write_locked w (b ∷ buf)) done (ap next_sync same ∙ fails),
      elim (write_locked-Grown w (b ∷ buf)) [
        | inl (s, l) ↦ log-then_sync (write_locked w (b ∷ buf)) ∙ l
        | inr (s, l) ↦ absurd (error_is_not_ok (sym s ∙ done))
      ],
    )
  where
    error_is_not_ok : io_error ≡ ok → ⊥
    error_is_not_ok e = cc
