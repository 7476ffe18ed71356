-- ===== src/Tests/Stores.antt =====
-- Runs of an index over one segment, with a map that is a function (parakv/core/index).
use para_kv.Prelude.{
  ℕ, ◌<◌, ◌^◌, ◌≡◌, ◌≢◌, refl, inl, inr, true, false, Option, none, some, [], ◌∷◌, if◌then◌else◌,
  ◌==◌, Bool-cases, arith,
}
use para_kv.Prelude.Bytes.{Bytes, bytes_eq, bytes_eq_iff}
use para_kv.Status.{ok}
use para_kv.Io.{moved, interrupted, pwrite_all, read_range}
use para_kv.Segment.Base.{create}
use para_kv.Segment.File.{insert}
use para_kv.Prelude.Bytes.{write_le64, write_le32}
use para_kv.Index.Wal.Record.{encode}
use para_kv.Index.Wal.Writer.{append_record, append, write_locked, synced}
use para_kv.Index.Offset.{encode_segment_slot}
use para_kv.Index.Store.{append_wal}
use para_kv.Segment.Manager.{get_active_segment}
use para_kv.Index.Table.{MapCalls, IsMap}
use para_kv.Index.Store.{Options, Index, CheckpointCalls, OpenCalls, open_index}
use para_kv.Index.Store.Access.{put, get, delete_key, write_to_segment}
use para_kv.Index.Store.Durable.{IsDurable, SameMap}
use para_kv.Index.Store.Durable.Writes.{put-IsDurable, delete_key-IsDurable}
use para_kv.Index.Store.Durable.Recovery.{open_index-crashed, AllGood, crashed}
use para_kv.Index.Store.Served.{IsServed, Serves, PutOutcome}
use para_kv.Index.Store.Serving.{put-PutOutcome}
use para_kv.Index.Store.Removing.{DeleteOutcome, delete_key-DeleteOutcome}
use para_kv.Index.Store.RoundTrip.{ReadsSucceed, get-put}
use para_kv.Io.{NoFailure}
use para_kv.Segment.Base.{Segment}
use para_kv.Segment.File.Kept.{IsUsable}
use para_kv.Segment.Manager.Pairs.{AllUsable}
use para_kv.Tests.Segments.{opened, opened-IsValid, opened-HasLayout}
use mathlib.Core.Path.{subst}

abbrev pub function_map : MapCalls
function_map = record {
  Map = Bytes → Option ℕ;
  Archive = Bytes → Option ℕ;
  empty = λ k. none;
  find = λ m k. m k;
  assign = λ m k v k'. if bytes_eq k' k then some v else m k';
  erase = λ m k k'. if bytes_eq k' k then none else m k';
  phmap_dump = λ m. m;
  phmap_load = λ m. some m;
}

bytes_eq_self : (k : Bytes) → bytes_eq k k ≡ true
bytes_eq_self k = (bytes_eq_iff k k).1 refl

bytes_eq-other : (k k' : Bytes) → k' ≢ k → bytes_eq k' k ≡ false
bytes_eq-other k k' n = elim (Bool-cases (bytes_eq k' k)) [
  | inl e ↦ absurd (n ((bytes_eq_iff k' k).0 e))
  | inr e ↦ e
]

pub function_map-IsMap : IsMap function_map
function_map-IsMap = record {
  find-empty = λ k. refl;
  find-assign = λ m k v. rw (bytes_eq_self k) refl;
  find-assign_other = λ m k k' v n. rw (bytes_eq-other k k' n) refl;
  find-erase = λ m k. rw (bytes_eq_self k) refl;
  find-erase_other = λ m k k' n. rw (bytes_eq-other k k' n) refl;
  load-dump = λ m. refl;
}

abbrev options : Options
options = record {
  key_size = 2;
  segment_key_size = 2;
  value_size = 2;
  has_wal_path = true;
  has_snapshot_dir = true;
  wal_checkpoint_bytes = 1000;
}

-- One idle segment, an empty open log whose next write is short, and a map without keys.
abbrev pub fresh : Index function_map
fresh = record {
  map = function_map.empty;
  logging = true;
  wal = record {
    is_open = true;
    file = record { size = 0; byte = λ i. 0 };
    bytes_written = 0;
    script = moved 5 ∷ [];
    syncs = [];
  };
  wal_bytes = 0;
  snapshot = none;
  opened = true;
  manager = record {
    segments = opened ∷ [];
    idle_set = 7 ∷ [];
    appending_set = [];
    full_set = [];
    full_order = [];
    access_counters = [];
    hot_segments = [];
  };
}

fresh-IsDurable : IsDurable function_map function_map-IsMap 2 fresh fresh.map
fresh-IsDurable = record {
  base = function_map.empty;
  recs = [];
  based = refl;
  fine = tt;
  logged = unfold read_range in refl;
  ends = refl;
  same = λ key. refl;
}

abbrev calls : CheckpointCalls
calls = record { dumped = true; renamed = true; reopened = true; stated = true }

abbrev a_key : Bytes
a_key = 1 ∷ 2 ∷ []

abbrev a_value : Bytes
a_value = 3 ∷ 4 ∷ []

fresh-put : (put function_map options calls fresh a_key (some a_value) 2).0 ≡ ok
unfolding put write_to_segment get_active_segment create insert pwrite_all append_wal append_record
    append encode write_locked synced write_le64 write_le32
fresh-put = refl

fresh-logging : (put function_map options calls fresh a_key (some a_value) 2).1.logging ≡ true
unfolding put write_to_segment get_active_segment create insert pwrite_all append_wal append_record
    append encode write_locked synced write_le64 write_le32
fresh-logging = refl

fresh-written : (write_to_segment fresh.manager a_key a_value).1 < 2 ^ 64
unfolding write_to_segment get_active_segment create insert pwrite_all encode_segment_slot
fresh-written = omega arith

absent : (v : ℕ) → function_map.find fresh.map a_key ≡ some v → v < 2 ^ 64
absent v e = cc

put-IsDurable_lem :
    IsDurable function_map function_map-IsMap 2
      (put function_map options calls fresh a_key (some a_value) 2).1
      (put function_map options calls fresh a_key (some a_value) 2).1.map
    × (function_map.find (put function_map options calls fresh a_key (some a_value) 2).1.map a_key
        ≡ some (write_to_segment fresh.manager a_key a_value).1)
put-IsDurable_lem =
    put-IsDurable function_map function_map-IsMap options calls fresh a_key a_value 2 refl
      fresh-IsDurable refl fresh-written absent fresh-put fresh-logging

put-IsDurable_example :
    IsDurable function_map function_map-IsMap 2
      (put function_map options calls fresh a_key (some a_value) 2).1
      (put function_map options calls fresh a_key (some a_value) 2).1.map
    × (function_map.find (put function_map options calls fresh a_key (some a_value) 2).1.map a_key
        ≡ some (write_to_segment fresh.manager a_key a_value).1)
put-IsDurable_example =
    put-IsDurable function_map function_map-IsMap options calls fresh a_key a_value 2 refl
      fresh-IsDurable refl fresh-written absent fresh-put fresh-logging

-- The manager of a single segment.
one_AllUsable : (k v : ℕ) (t : Segment) → IsUsable k v t → AllUsable k v (t ∷ [])
one_AllUsable k v t u id s e = elim (Bool-cases (id == t.segment_id)) [
  | inl here ↦
      let same : some t ≡ some s = (simp here at e) in subst (IsUsable k v) (the_same t s same) u
  | inr there ↦ let none_left : none ≡ some s = (simp there at e) in cc
]
  where
    the_same : (a b : Segment) → some a ≡ some b → a ≡ b
    the_same a b h = cc

one_ReadsSucceed : (t : Segment) → NoFailure t.script → ReadsSucceed (t ∷ [])
one_ReadsSucceed t u id s e = elim (Bool-cases (id == t.segment_id)) [
  | inl here ↦
      let same : some t ≡ some s = (simp here at e) in
      subst (λ (x : Segment). NoFailure x.script) (the_same t s same) u
  | inr there ↦ let none_left : none ≡ some s = (simp there at e) in cc
]
  where
    the_same : (a b : Segment) → some a ≡ some b → a ≡ b
    the_same a b h = cc

opened-IsUsable : IsUsable 2 2 opened
unfolding create
opened-IsUsable = record {
  valid = opened-IsValid;
  layout = opened-HasLayout;
  key_size = refl;
  value_size = refl;
  opened = refl;
  id_fits = omega arith;
  slots_fit = omega arith;
  room = omega arith;
}

fresh-IsServed : IsServed function_map options fresh
fresh-IsServed = record {
  usable = one_AllUsable 2 2 opened opened-IsUsable;
  mapped = λ q enc e. cc;
}

fresh-reads :
    ReadsSucceed (put function_map options calls fresh a_key (some a_value) 2).1.manager.segments
unfolding put write_to_segment get_active_segment create insert pwrite_all append_wal append_record
    append encode write_locked synced write_le64 write_le32
fresh-reads = one_ReadsSucceed _ tt

put-PutOutcome_lem :
    let out = put function_map options calls fresh a_key (some a_value) 2 in
    PutOutcome function_map options a_key a_value fresh.map fresh.manager.segments out.0 out.1.map
      out.1.manager.segments
put-PutOutcome_lem =
    put-PutOutcome function_map options function_map-IsMap calls a_key a_value refl refl fresh 2
      fresh-IsServed

put-PutOutcome_example :
    let out = put function_map options calls fresh a_key (some a_value) 2 in
    PutOutcome function_map options a_key a_value fresh.map fresh.manager.segments out.0 out.1.map
      out.1.manager.segments
put-PutOutcome_example =
    put-PutOutcome function_map options function_map-IsMap calls a_key a_value refl refl fresh 2
      fresh-IsServed

get-put_example :
    let after = (put function_map options calls fresh a_key (some a_value) 2).1 in
    ((get function_map options after a_key 2).0 ≡ ok)
    × ((get function_map options after a_key 2).1 ≡ some a_value)
    × ((q w : Bytes)
        → q ≢ a_key
        → Serves function_map options fresh q w
        → ((get function_map options after q 2).0 ≡ ok)
          × ((get function_map options after q 2).1 ≡ some w))
get-put_example =
    get-put function_map options function_map-IsMap calls fresh a_key a_value refl refl
      fresh-IsServed fresh-reads fresh-put

-- The index after the key has been written.
abbrev filled : Index function_map
filled = (put function_map options calls fresh a_key (some a_value) 2).1

delete_key-DeleteOutcome_example :
    let out = delete_key function_map options calls filled a_key in
    DeleteOutcome function_map options a_key filled.map filled.manager.segments out.0 out.1.map
      out.1.manager.segments
delete_key-DeleteOutcome_example =
    delete_key-DeleteOutcome function_map options function_map-IsMap calls a_key filled
      put-PutOutcome_lem.served

-- The same index with a snapshot in which one key has an address.
abbrev holding : Index function_map
holding = record fresh {
  map = function_map.assign function_map.empty a_key 5;
  snapshot = some (function_map.assign function_map.empty a_key 5);
}

holding-IsDurable : IsDurable function_map function_map-IsMap 2 holding holding.map
holding-IsDurable = record {
  base = holding.map;
  recs = [];
  based = refl;
  fine = tt;
  logged = unfold read_range in refl;
  ends = refl;
  same = λ key. refl;
}

holding-delete : (delete_key function_map options calls holding a_key).0 ≡ ok
unfolding delete_key pwrite_all append_wal append_record append encode write_locked synced
    write_le64 write_le32
holding-delete = refl

holding-logging : (delete_key function_map options calls holding a_key).1.logging ≡ true
unfolding delete_key pwrite_all append_wal append_record append encode write_locked synced
    write_le64 write_le32
holding-logging = refl

delete_key-IsDurable_example :
    IsDurable function_map function_map-IsMap 2
      (delete_key function_map options calls holding a_key).1
      (delete_key function_map options calls holding a_key).1.map
    × (function_map.find (delete_key function_map options calls holding a_key).1.map a_key ≡ none)
delete_key-IsDurable_example =
    delete_key-IsDurable function_map function_map-IsMap options calls holding a_key 5 refl
      holding-IsDurable refl refl (omega arith) holding-delete holding-logging

abbrev open_calls : OpenCalls
open_calls = record {
  wal_exists = true;
  reader_opened = true;
  reads = interrupted ∷ moved 3 ∷ [];
  truncated = true;
  writer_opened = true;
  writer_stated = true;
}

open_calls-AllGood : AllGood open_calls
open_calls-AllGood = record {
  there = refl;
  readable = refl;
  reads_fine = tt;
  cuts = refl;
  writable = refl;
  sized = refl;
}

open_index-crashed_example :
    ((open_index function_map options open_calls
        (crashed function_map (put function_map options calls fresh a_key (some a_value) 2).1)).0
      ≡ ok)
    × SameMap function_map function_map-IsMap
        (open_index function_map options open_calls (
          crashed function_map
            (put function_map options calls fresh a_key (some a_value) 2).1)).1.map
        (put function_map options calls fresh a_key (some a_value) 2).1.map
open_index-crashed_example =
    open_index-crashed function_map function_map-IsMap options open_calls
      (put function_map options calls fresh a_key (some a_value) 2).1 open_calls-AllGood refl refl
      refl put-IsDurable_lem.0
