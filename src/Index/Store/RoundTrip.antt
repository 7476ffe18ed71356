-- ===== src/Index/Store/RoundTrip.antt =====
-- `Get` of `Index` returns what `Put` wrote (parakv/core/index/index.cc).
use para_kv.Prelude.{ℕ, ◌≡◌, ◌≢◌, refl, ap, ◌∙◌, Option, some, List, length, ==_iff}
use para_kv.Prelude.Bytes.{Bytes}
use para_kv.Status.{Status, ok}
use para_kv.Index.Offset.{get_flag, get_segment_id, get_slot_id, flag_value, segment_slot}
use para_kv.Index.Table.{MapCalls, IsMap}
use para_kv.Index.Store.{Options, Index, CheckpointCalls}
use para_kv.Index.Store.Access.{put, get, read_found}
use para_kv.Index.Store.Served.{IsServed, Serves}
use para_kv.Index.Store.Serving.{put-PutOutcome}
use para_kv.Io.{NoFailure}
use para_kv.Segment.Base.{Segment}
use para_kv.Segment.File.Read.{read-IsStored}
use para_kv.Segment.Manager.{get_segment}

-- The calls of `pread` on the segments may be short or interrupted, and do not fail.
abbrev pub ReadsSucceed : List Segment → Type 0
ReadsSucceed ss = (id : ℕ) (s : Segment) → get_segment ss id ≡ some s → NoFailure s.script

module _ (o : MapCalls) (opts : Options) where
  get_found :
      (ix : Index o) (key : Bytes) (enc : ℕ) (s : Segment)
      → o.find ix.map key ≡ some enc
      → get_flag enc ≡ flag_value segment_slot
      → get_segment ix.manager.segments (get_segment_id enc) ≡ some s
      → get o opts ix key opts.value_size ≡ read_found o opts ix enc (some s)
  unfolding get
  get_found ix key enc s found flag held =
      let same = (==_iff opts.value_size opts.value_size).1 refl in
      let flagged = (==_iff (get_flag enc) (flag_value segment_slot)).1 flag in
      simp (same, found, flagged) (ap (read_found o opts ix enc) held)

  -- A served key is read.
  pub get-Serves :
      (ix : Index o) (key value : Bytes)
      → IsServed o opts ix
      → ReadsSucceed ix.manager.segments
      → Serves o opts ix key value
      → let out = get o opts ix key opts.value_size in (out.0 ≡ ok) × (out.1 ≡ some value)
  get-Serves ix key value served reads (enc, found, flag, (s, held, stored)) =
      let u = served.usable (get_segment_id enc) s held in
      let r =
        read-IsStored s u.valid u.layout (get_slot_id enc) key value u.opened
          (reads (get_segment_id enc) s held) u.room stored in
      let e = get_found ix key enc s found flag held in
      (
        ap (λ (out : Status × Option Bytes × Index o). out.0) e ∙ r.0,
        ap (λ (out : Status × Option Bytes × Index o). out.1) e ∙ r.2,
      )

  -- An index whose mapped keys are served from usable segments: where `Put` of a key and a value of
  -- the configured sizes answers `kOk`, `Get` of the key afterwards answers `kOk` with the value, and
  -- `Get` of another key that was served answers `kOk` with the value that it was served with, if the
  -- reads do not fail.
  pub get-put :
      (laws : IsMap o) (c : CheckpointCalls) (ix : Index o) (key value : Bytes)
      → length key ≡ opts.key_size
      → length value ≡ opts.value_size
      → IsServed o opts ix
      → let out = put o opts c ix key (some value) opts.value_size in
        ReadsSucceed out.1.manager.segments
        → out.0 ≡ ok
        → ((get o opts out.1 key opts.value_size).0 ≡ ok)
          × ((get o opts out.1 key opts.value_size).1 ≡ some value)
          × ((q w : Bytes)
              → q ≢ key
              → Serves o opts ix q w
              → ((get o opts out.1 q opts.value_size).0 ≡ ok)
                × ((get o opts out.1 q opts.value_size).1 ≡ some w))
  get-put laws c ix key value lk lv served reads done =
      let out = put o opts c ix key (some value) opts.value_size in
      let after = put-PutOutcome o opts laws c key value lk lv ix opts.value_size served in
      let (fine, read_back) = get-Serves out.1 key value after.served reads (after.stored done) in
      (fine, read_back, λ q w ne s. get-Serves out.1 q w after.served reads (after.others q w ne s))
