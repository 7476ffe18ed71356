-- ===== src/Index/Store/Others.antt =====
-- The keys that a call of `Index` is not about (parakv/core/index/index.cc).
use mathlib.Core.Path.{◌∙◌, ap}
use para_kv.Prelude.{
  ℕ, ◌≡◌, ◌≢◌, Option, none, some, refl, ◌==◌, Bool-cases, Option-cases, inl, inr,
}
use para_kv.Prelude.Bytes.{Bytes}
use para_kv.Status.{Status, ok}
use para_kv.Index.Table.{MapCalls, IsMap}
use para_kv.Index.Store.{Options, Index, CheckpointCalls, append_wal}
use para_kv.Index.Store.Access.{
  put, put_written, install, put_logged, put_record, delete_key, delete_found, delete_record,
  delete_logged, write_to_segment, get, read_found,
}
use para_kv.Index.Store.Durable.Writes.{append_wal-map}
use para_kv.Segment.Base.{Segment}
use para_kv.Segment.Manager.{SegmentManager, get_segment}
use para_kv.Index.Offset.{get_flag, get_segment_id, flag_value, segment_slot}

module _ (o : MapCalls) (laws : IsMap o) (opts : Options) (c : CheckpointCalls) (key other : Bytes)
    (ne : other ≢ key) where
  put_logged-other :
      (new_enc : ℕ) (old : Option ℕ) (r : Status × Index o) (v : Option ℕ)
      → o.find r.1.map other ≡ v
      → o.find (put_logged o opts key new_enc old r).1.map other ≡ v
  put_logged-other new_enc none (ok, ix) v h = h
  put_logged-other new_enc (some old_enc) (ok, ix) v h = h
  put_logged-other new_enc none (e, ix) v h = laws.find-erase_other ix.map key other ne ∙ h
  put_logged-other new_enc (some old_enc) (e, ix) v h =
      laws.find-assign_other ix.map key other old_enc ne ∙ h

  install-other :
      (ix : Index o) (new_enc : ℕ)
      → o.find (install o opts c ix key new_enc).1.map other ≡ o.find ix.map other
  unfolding install
  install-other ix new_enc =
      let written : Index o = record ix { map = o.assign ix.map key new_enc } in
      let old = o.find ix.map key in
      let rec = put_record o opts key new_enc old in
      put_logged-other new_enc old (append_wal o opts c written rec) (o.find ix.map other) (
        ap (λ (m : o.Map). o.find m other) (append_wal-map o laws opts c written rec)
        ∙ laws.find-assign_other ix.map key other new_enc ne)

  put_written-other :
      (ix : Index o) (w : Status × ℕ × SegmentManager)
      → o.find (put_written o opts c ix key w).1.map other ≡ o.find ix.map other
  put_written-other ix (ok, new_enc, m) = install-other (record ix { manager = m }) new_enc
  put_written-other ix (e, new_enc, m) = refl

  pub put-other :
      (ix : Index o) (value : Option Bytes) (value_size : ℕ)
      → o.find (put o opts c ix key value value_size).1.map other ≡ o.find ix.map other
  unfolding put
  put-other ix none value_size = refl
  put-other ix (some value) value_size = elim (Bool-cases (value_size == opts.value_size)) [
    | inl e ↦ simp (e) (put_written-other ix (write_to_segment ix.manager key value))
    | inr e ↦ simp (e) refl
  ]

  delete_logged-other :
      (old_enc : ℕ) (r : Status × Index o) (v : Option ℕ)
      → o.find r.1.map other ≡ v
      → o.find (delete_logged o opts key old_enc r).1.map other ≡ v
  delete_logged-other old_enc (ok, ix) v h = h
  delete_logged-other old_enc (e, ix) v h = laws.find-assign_other ix.map key other old_enc ne ∙ h

  delete_found-other :
      (ix : Index o) (found : Option ℕ)
      → o.find (delete_found o opts c ix key found).1.map other ≡ o.find ix.map other
  delete_found-other ix none = refl
  delete_found-other ix (some old_enc) =
      let erased : Index o = record ix { map = o.erase ix.map key } in
      let rec = delete_record o opts key old_enc in
      delete_logged-other old_enc (append_wal o opts c erased rec) (o.find ix.map other) (
        ap (λ (m : o.Map). o.find m other) (append_wal-map o laws opts c erased rec)
        ∙ laws.find-erase_other ix.map key other ne)

  pub delete_key-other :
      (ix : Index o) → o.find (delete_key o opts c ix key).1.map other ≡ o.find ix.map other
  unfolding delete_key
  delete_key-other ix = delete_found-other ix (o.find ix.map key)

module _ (o : MapCalls) (opts : Options) where
  read_found-map :
      (ix : Index o) (encoded : ℕ) (found : Option Segment)
      → (read_found o opts ix encoded found).2.map ≡ ix.map
  read_found-map ix encoded none = refl
  read_found-map ix encoded (some s) = refl

  pub get-map :
      (ix : Index o) (key : Bytes) (value_size : ℕ) → (get o opts ix key value_size).2.map ≡ ix.map
  unfolding get
  get-map ix key value_size = elim (Bool-cases (value_size == opts.value_size)) [
    | inr e ↦ simp (e) refl
    | inl e ↦ elim (Option-cases (o.find ix.map key)) [
      | inl missing ↦ simp (e, missing) refl
      | inr (enc, found) ↦ elim (Bool-cases (get_flag enc == flag_value segment_slot)) [
        | inr flag ↦ simp (e, found, flag) refl
        | inl flag ↦
            simp (e, found, flag)
              (read_found-map ix enc (get_segment ix.manager.segments (get_segment_id enc)))
      ]
    ]
  ]
