-- ===== src/Index/Store/Removing.antt =====
-- `Delete` of `Index` changes the pairs that the index serves (parakv/core/index/index.cc).
use para_kv.Prelude.{
  ℕ, ◌≡◌, ◌≢◌, refl, sym, ap, ◌∙◌, inl, inr, Option, none, some, List, Bool-cases,
}
use para_kv.Prelude.Bytes.{Bytes, bytes_eq, bytes_eq_iff}
use para_kv.Status.{Status, ok, not_found}
use para_kv.Index.Table.{MapCalls, IsMap}
use para_kv.Index.Store.{Options, Index, CheckpointCalls, append_wal}
use para_kv.Index.Store.Access.{delete_key, delete_found, delete_logged, delete_record}
use para_kv.Index.Store.Freed.{free_slot-Freed}
use para_kv.Index.Store.Durable.Writes.{append_wal-map}
use para_kv.Segment.Base.{Segment}
use para_kv.Segment.Manager.{SegmentManager}
use para_kv.Segment.Manager.Pairs.{Holds}
use para_kv.Index.Store.Served.{IsServedIn, IsServed, ServesIn, one_key}
use para_kv.Index.Store.Serving.{unequal, append_wal-manager}

module _ (o : MapCalls) (opts : Options) where
  -- What a `Delete` has done, by its status.
  pub record DeleteOutcome (key : Bytes) (m : o.Map) (ss : List Segment) (e : Status) (m' : o.Map)
      (ss' : List Segment) : Type 0 where
    pub served : IsServedIn o opts m' ss'
    pub removed : e ≡ ok → o.find m' key ≡ none
    pub failed : e ≢ ok → (q w : Bytes) → ServesIn o opts m ss q w → ServesIn o opts m' ss' q w
    pub others : (q w : Bytes) → q ≢ key → ServesIn o opts m ss q w → ServesIn o opts m' ss' q w

  module _ (laws : IsMap o) (c : CheckpointCalls) (key : Bytes) (ix : Index o)
      (before : IsServed o opts ix) where
    abbrev Deleted : Status × Index o → Type 0
    Deleted r = DeleteOutcome key ix.map ix.manager.segments r.0 r.1.map r.1.manager.segments

    -- The map is as it was, and so are the segments.
    kept :
        (e : Status) (r : Index o)
        → e ≢ ok
        → ((q : Bytes) → o.find r.map q ≡ o.find ix.map q)
        → r.manager.segments ≡ ix.manager.segments
        → Deleted (e, r)
    kept e r bad view segs = record {
      served = record {
        usable = rw segs before.usable;
        mapped = λ q a found. rw segs (before.mapped q a (sym (view q) ∙ found));
      };
      removed = λ done. absurd (bad done);
      failed = λ _ q w (a, found, f, h). (a, view q ∙ found, f, rw segs h);
      others = λ q w _ (a, found, f, h). (a, view q ∙ found, f, rw segs h);
    }

    delete_logged-Deleted :
        (old : ℕ) (e : Status) (r : Index o)
        → o.find ix.map key ≡ some old
        → r.map ≡ o.erase ix.map key
        → r.manager.segments ≡ ix.manager.segments
        → Deleted (delete_logged o opts key old (e, r))
    delete_logged-Deleted old ok r was map segs =
        let (_, x0, held) = before.mapped key old was in
        let f =
          free_slot-Freed opts.key_size opts.value_size r.manager old (rw segs before.usable) in
        let gone : o.find r.map key ≡ none =
          ap (λ (m : o.Map). o.find m key) map ∙ laws.find-erase ix.map key in
        let view = λ (q : Bytes) (ne : q ≢ key).
          ap (λ (m : o.Map). o.find m q) map ∙ laws.find-erase_other ix.map key q ne in
        let keeps = λ (q w : Bytes) (a : ℕ) (ne : q ≢ key) (h : Holds ix.manager.segments a q w).
          f.keeps a q w (λ same. ne (one_key ix.manager.segments a old q w key x0 h held same))
            (rw segs h) in
        record {
          served = record {
            usable = f.usable;
            mapped = λ q a found.
                let ne =
                  λ (e : q ≡ key). none_some a (sym gone ∙ ap (o.find r.map) (sym e) ∙ found) in
                let (flag, w, h) = before.mapped q a (sym (view q ne) ∙ found) in
                (flag, w, keeps q w a ne h);
          };
          removed = λ _. gone;
          failed = λ no q w s. absurd (no refl);
          others = λ q w ne (a, found, flag, h). (a, view q ne ∙ found, flag, keeps q w a ne h);
        }
      where
        none_some : (a : ℕ) → none ≢ some a
        none_some a e = cc
    delete_logged-Deleted old e r was map segs =
        kept e (record r { map = o.assign r.map key old }) (λ f. cc) (λ q. back q) segs
      where
        back : (q : Bytes) → o.find (o.assign r.map key old) q ≡ o.find ix.map q
        back q = elim (Bool-cases (bytes_eq q key)) [
          | inl same ↦ rw ((bytes_eq_iff q key).0 same, was) (laws.find-assign r.map key old)
          | inr other ↦
              laws.find-assign_other r.map key q old (unequal q key other)
              ∙ ap (λ (m : o.Map). o.find m q) map
              ∙ laws.find-erase_other ix.map key q (unequal q key other)
        ]

    delete_found-Deleted :
        (found : Option ℕ)
        → o.find ix.map key ≡ found
        → Deleted (delete_found o opts c ix key found)
    delete_found-Deleted none e = kept not_found ix (λ f. cc) (λ q. refl) refl
    delete_found-Deleted (some old) e =
        let erased : Index o = record ix { map = o.erase ix.map key } in
        let rec = delete_record o opts key old in
        let r = append_wal o opts c erased rec in
        delete_logged-Deleted old r.0 r.1 e (append_wal-map o laws opts c erased rec)
          (ap (λ (n : SegmentManager). n.segments) (append_wal-manager o opts c erased rec))

    -- An index whose mapped keys are served from usable segments: after a `Delete`, whatever the log
    -- and the segment answer, the mapped keys are served again; where the status is `kOk` the key is
    -- not mapped; where it is not, every pair that was served is still served; and other keys keep
    -- their pairs in both cases.
    pub delete_key-DeleteOutcome : Deleted (delete_key o opts c ix key)
    unfolding delete_key
    delete_key-DeleteOutcome = delete_found-Deleted (o.find ix.map key) refl
