-- ===== src/Segment/Manager/State.antt =====
-- `SaveState` and `LoadState` of `SegmentManager` (parakv/core/segment/segment_manager.cc). The
-- state file is part of the arguments: its bytes, or `none` where there is none.
pub mod RoundTrip
use para_kv.Prelude.{
  ℕ, zero, suc, ◌+◌, Bool, true, false, not, Option, none, some, List, [], ◌∷◌, ◌++◌, length, drop,
  ltb, ◌==◌, if◌then◌else◌,
}
use para_kv.Prelude.Bytes.{Bytes, write_le32, read_le32}
use para_kv.Prelude.Sets.{count, insert_id}
use para_kv.Status.{Status, ok, io_error, corruption}
use para_kv.Segment.Base.{Segment}
use para_kv.Segment.Manager.{SegmentManager, ids, classify}

abbrev pub state_magic : ℕ
state_magic = 0x534D4753

abbrev pub state_version : ℕ
state_version = 1

-- `GetU32`: the number and the rest, where there are four bytes.
unfoldable pub get_u32 : Bytes → Option (ℕ × Bytes)
get_u32 p = if ltb (length p) 4 then none else some (read_le32 p, drop 4 p)

abbrev pub put_ids : List ℕ → Bytes
put_ids [] = []
put_ids (id ∷ rest) = write_le32 id ++ put_ids rest

-- `SerializeIds`: the number of ids, which wraps, and the ids.
unfoldable pub serialize_ids : List ℕ → Bytes
serialize_ids l = write_le32 (length l) ++ put_ids l

-- The buffer that `SaveState` writes.
unfoldable pub state_bytes : SegmentManager → Bytes
unfolding serialize_ids
state_bytes m =
    write_le32 state_magic
    ++ (write_le32 state_version
        ++ (serialize_ids m.full_order
            ++ (serialize_ids m.appending_set ++ serialize_ids m.idle_set)))

-- `SaveState`: whether `open`, the one `write` (of all bytes), `fsync` and `rename` succeed; the
-- status and the state file. The temporary file is left out.
unfoldable pub save_state :
    SegmentManager → Bool → Bool → Bool → Bool → Option Bytes → Status × Option Bytes
unfolding state_bytes
save_state m created written synced renamed file =
    if not created
    then (io_error, file)
    else if not written
    then (io_error, file)
    else if not synced
    then (io_error, file)
    else if not renamed
    then (io_error, file)
    else (ok, some (state_bytes m))

-- The loop of `read_ids`, and `read_ids`.
abbrev pub then_id : ℕ → Option (List ℕ × Bytes) → Option (List ℕ × Bytes)
then_id id none = none
then_id id (some (l, p)) = some (id ∷ l, p)

unfoldable pub get_ids : ℕ → Bytes → Option (List ℕ × Bytes)
get_ids zero p = some ([], p)
get_ids (suc n) p =
    let rest = get_ids n (drop 4 p) in if ltb (length p) 4 then none else then_id (read_le32 p) rest

abbrev pub counted : Option (ℕ × Bytes) → Option (List ℕ × Bytes)
counted none = none
counted (some (n, p)) = get_ids n p

unfoldable pub read_ids : Bytes → Option (List ℕ × Bytes)
read_ids p = counted (get_u32 p)

-- The three loops over the saved ids; the second component is `classified`.
abbrev pub load_full : List ℕ → SegmentManager × List ℕ → SegmentManager × List ℕ
load_full [] (m, c) = (m, c)
load_full (id ∷ rest) (m, c) = load_full rest (
    if count id (ids m.segments) == 0 then (m, c) else (
      record m { full_set = insert_id id m.full_set; full_order = m.full_order ++ id ∷ [] },
      insert_id id c,
    ))

abbrev is_new : SegmentManager → List ℕ → ℕ → Bool
is_new m c id = if count id (ids m.segments) == 0 then false else count id c == 0

abbrev pub load_appending : List ℕ → SegmentManager × List ℕ → SegmentManager × List ℕ
load_appending [] (m, c) = (m, c)
load_appending (id ∷ rest) (m, c) = load_appending rest (
    if is_new m c id
    then (record m { appending_set = insert_id id m.appending_set }, insert_id id c)
    else (m, c))

abbrev pub load_idle : List ℕ → SegmentManager × List ℕ → SegmentManager × List ℕ
load_idle [] (m, c) = (m, c)
load_idle (id ∷ rest) (m, c) = load_idle rest (
    if is_new m c id
    then (record m { idle_set = insert_id id m.idle_set }, insert_id id c)
    else (m, c))

-- The loop over the segments that the file does not name.
abbrev pub load_others : List Segment → List ℕ → SegmentManager → SegmentManager
load_others [] c m = m
load_others (s ∷ rest) c m =
    load_others rest c (if count s.segment_id c == 0 then classify s.state s.segment_id m else m)

abbrev pub cleared : SegmentManager → SegmentManager
cleared m = record m { idle_set = []; appending_set = []; full_set = []; full_order = [] }

unfoldable pub apply_state : SegmentManager → List ℕ → List ℕ → List ℕ → SegmentManager
unfolding classify
apply_state m saved_full saved_appending saved_idle =
    let (n, c) =
      load_idle saved_idle
        (load_appending saved_appending (load_full saved_full (cleared m, []))) in
    load_others n.segments c n

-- The three lists of a state file.
abbrev third_ids : List ℕ → List ℕ → Option (List ℕ × Bytes) → Option (List ℕ × List ℕ × List ℕ)
third_ids full appending none = none
third_ids full appending (some (idle, p)) = some (full, appending, idle)

abbrev second_ids : List ℕ → Option (List ℕ × Bytes) → Option (List ℕ × List ℕ × List ℕ)
second_ids full none = none
second_ids full (some (appending, p)) = third_ids full appending (read_ids p)

abbrev first_ids : Option (List ℕ × Bytes) → Option (List ℕ × List ℕ × List ℕ)
first_ids none = none
first_ids (some (full, p)) = second_ids full (read_ids p)

abbrev after_version : Option (ℕ × Bytes) → Option (List ℕ × List ℕ × List ℕ)
after_version none = none
after_version (some (version, p)) =
    if version == state_version then first_ids (read_ids p) else none

abbrev after_magic : Option (ℕ × Bytes) → Option (List ℕ × List ℕ × List ℕ)
after_magic none = none
after_magic (some (magic, p)) = if magic == state_magic then after_version (get_u32 p) else none

unfoldable pub parse_state : Bytes → Option (List ℕ × List ℕ × List ℕ)
parse_state buf = after_magic (get_u32 buf)

-- `LoadState`: whether `open` and every `read` succeed.
abbrev pub loaded : SegmentManager → Option (List ℕ × List ℕ × List ℕ) → Status × SegmentManager
loaded m none = (corruption, m)
loaded m (some (full, appending, idle)) = (ok, apply_state m full appending idle)

unfoldable pub load_state : SegmentManager → Option Bytes → Bool → Bool → Status × SegmentManager
load_state m none opened all_read = (ok, m)
load_state m (some buf) opened all_read =
    if ltb (length buf) 8
    then (corruption, m)
    else if not opened
    then (io_error, m)
    else if not all_read
    then (io_error, m)
    else loaded m (parse_state buf)
