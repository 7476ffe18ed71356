-- ===== src/Segment/Manager/State/RoundTrip.antt =====
-- What `SaveState` writes, `LoadState` reads (parakv/core/segment/segment_manager.cc).
use para_kv.Prelude.{ℕ, ◌<◌, ◌^◌, ◌≡◌, Bool, false, ◌&&◌, Option, List, [], ◌∷◌, length, arith}
use para_kv.Prelude.Bytes.{Bytes}
use para_kv.Status.{io_error}
use para_kv.Segment.Manager.{SegmentManager}
use para_kv.Segment.Manager.State.{save_state}

-- Every id is a `uint32_t`.
abbrev pub AreIds : List ℕ → Type 0
AreIds [] = Unit
AreIds (id ∷ rest) = (id < 2 ^ 32) × AreIds rest

-- What a manager's ids and sets must be to fit the `uint32_t` fields of the file.
pub record Fits (m : SegmentManager) : Type 0 where
  pub full_ids : AreIds m.full_order
  pub full_short : length m.full_order < 2 ^ 32
  pub appending_ids : AreIds m.appending_set
  pub appending_short : length m.appending_set < 2 ^ 32
  pub idle_ids : AreIds m.idle_set
  pub idle_short : length m.idle_set < 2 ^ 32

-- Where a call fails, `SaveState` reports an I/O error, and the state file is the one that was there.
pub save_state-failed :
    (m : SegmentManager) (created written synced renamed : Bool) (old : Option Bytes)
    → (created && (written && (synced && renamed))) ≡ false
    → save_state m created written synced renamed old ≡ (io_error, old)
unfolding save_state
save_state-failed m created written synced renamed old h = ground (arith, h)
