-- ===== src/Index/Store/Serving.antt =====
-- `Put` of `Index` changes the pairs that the index serves, and `Get` returns them
-- (parakv/core/index/index.cc).
use para_kv.Prelude.{
  ℕ, ◌≡◌, ◌≢◌, refl, sym, ap, ◌∙◌, inl, inr, true, false, Option, none, some, List, length, ◌==◌,
  if◌then◌else◌, Bool-cases, arith,
}
use para_kv.Prelude.Bytes.{Bytes, bytes_eq, bytes_eq_iff}
use para_kv.Status.{Status, ok, invalid_argument}
use para_kv.Index.Table.{MapCalls, IsMap}
use para_kv.Index.Wal.Record.{WalRecord}
use para_kv.Index.Wal.Writer.{WalWriter, append_record, open_writer, close_writer}
use para_kv.Index.Store.{
  Options, Index, CheckpointCalls, rotated, rotate_wal, checkpoint, appended, append_wal,
}
use para_kv.Index.Store.Access.{
  put, put_written, install, put_logged, put_record, write_to_segment, free_slot,
}
use para_kv.Index.Store.Written.{Wrote, write_to_segment-Wrote}
use para_kv.Index.Store.Freed.{Freed, free_slot-Freed}
use para_kv.Index.Store.Durable.Writes.{append_wal-map}
use para_kv.Segment.Base.{Segment}
use para_kv.Segment.Manager.{SegmentManager}
use para_kv.Index.Store.Served.{IsServed, PutOutcome, installed, restored, one_key}

pub unequal : (q key : Bytes) → bytes_eq q key ≡ false → q ≢ key
unequal q key other e = let same = (bytes_eq_iff q key).1 e in cc

module _ (o : MapCalls) (opts : Options) where
  abbrev Outcome : Bytes → Bytes → Index o → Status × Index o → Type 0
  Outcome key value ix r =
      PutOutcome o opts key value ix.map ix.manager.segments r.0 r.1.map r.1.manager.segments

  -- `AppendWal` does not reach the segments.
  module _ (c : CheckpointCalls) where
    rotated-manager :
        (ix : Index o) (r : Status × WalWriter) → (rotated o ix r).1.manager ≡ ix.manager
    rotated-manager ix (ok, w) = refl
    rotated-manager ix (e, w) = refl

    rotate_wal-manager : (ix : Index o) → (rotate_wal o c ix).1.manager ≡ ix.manager
    unfolding rotate_wal
    rotate_wal-manager ix =
        ground
          (arith, rotated-manager ix (open_writer (close_writer ix.wal).1 true c.reopened c.stated))

    checkpoint-manager : (ix : Index o) → (checkpoint o opts c ix).1.manager ≡ ix.manager
    unfolding checkpoint
    checkpoint-manager ix =
        ground (arith, rotate_wal-manager (record ix { snapshot = some (o.phmap_dump ix.map) }))

    appended-manager :
        (ix : Index o) (r : Status × WalWriter) → (appended o opts c ix r).1.manager ≡ ix.manager
    appended-manager ix (ok, w) =
        ground (arith, checkpoint-manager (record ix { wal = w; wal_bytes = w.bytes_written }))
    appended-manager ix (e, w) = refl

    pub append_wal-manager :
        (ix : Index o) (rec : WalRecord) → (append_wal o opts c ix rec).1.manager ≡ ix.manager
    unfolding append_wal
    append_wal-manager ix rec =
        ground (arith, appended-manager ix (append_record opts.key_size ix.wal rec))

  module _ (laws : IsMap o) (key value : Bytes) (ix : Index o) (before : IsServed o opts ix)
      (enc : ℕ) (ss' : List Segment) (lk : length key ≡ opts.key_size)
      (lv : length value ≡ opts.value_size)
      (w : Wrote opts.key_size opts.value_size key value lk lv ix.manager.segments ok enc ss') where
    find-assigned :
        (q : Bytes)
        → o.find (o.assign ix.map key enc) q
          ≡ (if bytes_eq q key then some enc else o.find ix.map q)
    find-assigned q = elim (Bool-cases (bytes_eq q key)) [
      | inl same ↦ rw (same, (bytes_eq_iff q key).0 same) (laws.find-assign ix.map key enc)
      | inr other ↦ rw other (laws.find-assign_other ix.map key q enc (unequal q key other))
    ]

    -- The rollbacks of a failed `AppendWal`.
    find-erased :
        (r : Index o)
        → o.find ix.map key ≡ none
        → r.map ≡ o.assign ix.map key enc
        → (q : Bytes) → o.find (o.erase r.map key) q ≡ o.find ix.map q
    find-erased r was map q = elim (Bool-cases (bytes_eq q key)) [
      | inl same ↦ rw ((bytes_eq_iff q key).0 same, was) (laws.find-erase r.map key)
      | inr other ↦
          laws.find-erase_other r.map key q (unequal q key other)
          ∙ ap (λ (m : o.Map). o.find m q) map
          ∙ laws.find-assign_other ix.map key q enc (unequal q key other)
    ]

    find-reassigned :
        (r : Index o) (old_enc : ℕ)
        → o.find ix.map key ≡ some old_enc
        → r.map ≡ o.assign ix.map key enc
        → (q : Bytes) → o.find (o.assign r.map key old_enc) q ≡ o.find ix.map q
    find-reassigned r old_enc was map q = elim (Bool-cases (bytes_eq q key)) [
      | inl same ↦ rw ((bytes_eq_iff q key).0 same, was) (laws.find-assign r.map key old_enc)
      | inr other ↦
          laws.find-assign_other r.map key q old_enc (unequal q key other)
          ∙ ap (λ (m : o.Map). o.find m q) map
          ∙ laws.find-assign_other ix.map key q enc (unequal q key other)
    ]

    freed :
        (a : ℕ) (r : Index o)
        → r.manager.segments ≡ ss'
        → Freed opts.key_size opts.value_size r.manager.segments a
            (free_slot r.manager a).1.segments
    freed a r segs = free_slot-Freed opts.key_size opts.value_size r.manager a (rw segs w.usable)

    put_logged-Outcome :
        (old : Option ℕ) (e : Status) (r : Index o)
        → o.find ix.map key ≡ old
        → r.map ≡ o.assign ix.map key enc
        → r.manager.segments ≡ ss'
        → Outcome key value ix (put_logged o opts key enc old (e, r))
    put_logged-Outcome none ok r was map segs =
        installed o opts key value ix.map ix.manager.segments before r.map r.manager.segments enc
          (λ q. ap (λ (m : o.Map). o.find m q) map ∙ find-assigned q) (rw segs w.usable)
          (w.flagged refl) (rw segs (w.stores refl)) (λ q x a _ h. rw segs (w.keeps a q x h))
    put_logged-Outcome (some old_enc) ok r was map segs =
        let (_, x0, held) = before.mapped key old_enc was in
        let f = freed old_enc r segs in
        installed o opts key value ix.map ix.manager.segments before r.map _ enc
          (λ q. ap (λ (m : o.Map). o.find m q) map ∙ find-assigned q) f.usable (w.flagged refl)
          (f.keeps enc key value
            (λ (seg, slot). w.fresh refl old_enc key x0 held (sym seg, sym slot))
            (rw segs (w.stores refl)))
          (λ q x a ne h.
            f.keeps a q x
              (λ same. ne (one_key ix.manager.segments a old_enc q x key x0 h held same))
              (rw segs (w.keeps a q x h)))
    put_logged-Outcome none e r was map segs =
        let f = freed enc r segs in
        restored o opts key value ix.map ix.manager.segments before (o.erase r.map key) _ e
          (λ f. cc) (find-erased r was map) f.usable
          (λ q x a h. f.keeps a q x (w.fresh refl a q x h) (rw segs (w.keeps a q x h)))
    put_logged-Outcome (some old_enc) e r was map segs =
        let f = freed enc r segs in
        restored o opts key value ix.map ix.manager.segments before (o.assign r.map key old_enc) _ e
          (λ f. cc) (find-reassigned r old_enc was map) f.usable
          (λ q x a h. f.keeps a q x (w.fresh refl a q x h) (rw segs (w.keeps a q x h)))

  module _ (laws : IsMap o) (c : CheckpointCalls) (key value : Bytes)
      (lk : length key ≡ opts.key_size) (lv : length value ≡ opts.value_size) where
    put_written-Outcome :
        (ix : Index o) (e : Status) (enc : ℕ) (m : SegmentManager)
        → IsServed o opts ix
        → Wrote opts.key_size opts.value_size key value lk lv ix.manager.segments e enc m.segments
        → Outcome key value ix (put_written o opts c ix key (e, enc, m))
    unfolding install
    put_written-Outcome ix ok enc m before w =
        let ix' : Index o = record ix { manager = m } in
        let assigned : Index o = record ix' { map = o.assign ix.map key enc } in
        let old = o.find ix.map key in
        let rec = put_record o opts key enc old in
        let r = append_wal o opts c assigned rec in
        put_logged-Outcome laws key value ix before enc m.segments lk lv w old r.0 r.1 refl
          (append_wal-map o laws opts c assigned rec)
          (ap (λ (n : SegmentManager). n.segments) (append_wal-manager c assigned rec))
    put_written-Outcome ix e enc m before w =
        restored o opts key value ix.map ix.manager.segments before ix.map m.segments e (λ f. cc)
          (λ q. refl) w.usable (λ q x a h. w.keeps a q x h)

    -- An index whose mapped keys are served from usable segments: after a `Put` of a key and a value
    -- of the configured sizes, whatever the writes, the log and the checkpoint answer, the mapped keys
    -- are served again; where the status is `kOk` the key is served with the value; where it is not,
    -- every pair that was served is still served; and other keys keep their pairs in both cases.
    pub put-PutOutcome :
        (ix : Index o) (value_size : ℕ)
        → IsServed o opts ix
        → let out = put o opts c ix key (some value) value_size in
          PutOutcome o opts key value ix.map ix.manager.segments out.0 out.1.map
            out.1.manager.segments
    unfolding put
    put-PutOutcome ix value_size before = elim (Bool-cases (value_size == opts.value_size)) [
      | inr other ↦ simp other (
          restored o opts key value ix.map ix.manager.segments before ix.map ix.manager.segments
            invalid_argument (λ f. cc) (λ q. refl) before.usable (λ q x a h. h))
      | inl same ↦
          let w = write_to_segment ix.manager key value in
          simp same (
            put_written-Outcome ix w.0 w.1 w.2 before (
              write_to_segment-Wrote opts.key_size opts.value_size key value lk lv ix.manager
                before.usable))
    ]
