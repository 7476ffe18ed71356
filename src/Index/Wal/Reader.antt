-- ===== src/Index/Wal/Reader.antt =====
-- `WalReader::Replay` (parakv/core/index/wal.h, parakv/core/index/wal.cc) over an open log file.
-- The callback that decodes and applies a record is `decode`; the records that it passes on are
-- collected in order. `none` means that the fuel ran out.
pub mod Recovery
use mathlib.Core.Option
use para_kv.Prelude.{ℕ, zero, suc, ◌+◌, Bool, true, false, Option, none, some, List, [], ◌∷◌}
use para_kv.Status.{Status, ok, corruption}
use para_kv.Io.{File, Transfer, read_all}
use para_kv.Index.Wal.Record.{WalRecord, encoded_size, decode}

pub record Replayed : Type 0 where
  pub status : Status
  pub records : List WalRecord
  pub last_good_offset : ℕ

abbrev pub ended : Status → ℕ → Option Replayed
ended s good = some (record { status = s; records = []; last_good_offset = good })

abbrev pub with_record : WalRecord → Replayed → Replayed
with_record rec r = record r { records = rec ∷ r.records }

-- The rest of the loop body after `ReadAll`, by its status, its end-of-file flag and the decoder's
-- answer. A torn tail and a rejected record both stop the scan with `kOk`.
abbrev pub after_read : Status → Bool → Option WalRecord → ℕ → Option Replayed → Option Replayed
after_read ok true decoded good rest = ended ok good
after_read ok false none good rest = ended ok good
after_read ok false (some rec) good rest = Option.map (with_record rec) rest
after_read corruption eof decoded good rest = ended ok good
after_read s eof decoded good rest = ended s good

unfoldable pub replay : ℕ → ℕ → List Transfer → File → ℕ → ℕ → Option Replayed
replay key_size zero s f pos good = none
replay key_size (suc fuel) s f pos good =
    let r = read_all s f pos (encoded_size key_size) 0 [] in
    let rest = replay key_size fuel r.script f r.pos (good + encoded_size key_size) in
    after_read r.status r.eof (decode key_size r.buf) good rest
