-- ===== src/Storage/Indexed/Created.antt =====
-- The segments that `CreateContext` opens in an empty directory are usable
-- (parakv/core/kvcache_storage/index_kvcache_storage_backend.cc).
use mathlib.Core.Path.{subst}
use para_kv.Prelude.{
  ℕ, ◌+◌, ◌^◌, ◌≤◌, ◌<◌, ◌≡◌, refl, sym, ◌∙◌, inl, inr, Bool, true, false, some, List, [], ◌∷◌,
  length, length-replicate, arith, Bool-cases, ◌==◌,
}
use para_kv.Status.{Status}
use para_kv.Io.{File, Transfer}
use para_kv.Segment.Base.{Segment, SegmentConfig, calculate_layout, create, reset_bitmap}
use para_kv.Segment.Base.Layout.{IsSmall, layout_fits}
use para_kv.Segment.File.{open_segment, flush_bitmap, opened_new, blank}
use para_kv.Segment.File.Payload.{size-pwrite_all}
use para_kv.Segment.File.Fresh.{create-IsValid}
use para_kv.Segment.File.Compaction.{reset_bitmap-IsValid}
use para_kv.Segment.File.Kept.{IsUsable, IsLater-IsUsable}
use para_kv.Prelude.Sets.{count}
use para_kv.Segment.Manager.{SegmentManager, add_segment, classify, ids}
use para_kv.Segment.Manager.Pairs.{AllUsable}
use para_kv.Storage.{BackendCode}
use para_kv.Storage.Indexed.Opening.{SegmentCalls, after_add, after_open, open_each}

-- Sizes of a backend: nothing wraps, and slots and segments fit an encoded offset.
pub record FitsOffsets (c : SegmentConfig) (n : ℕ) : Type 0 where
  pub small : IsSmall c
  pub bitmap : (calculate_layout c).bitmap_size ≤ c.segment_size
  pub slots : (calculate_layout c).total_slots ≤ 2 ^ 28
  pub ids : n ≤ 2 ^ 20

module _ (c : SegmentConfig) (n : ℕ) (fits : FitsOffsets c n) (i : ℕ) (below : i < n) (f : File)
    (sc : List Transfer) where
  -- The new segment, with its file of the configured size.
  abbrev prepared : Segment
  prepared = reset_bitmap (record (create i c f sc) { is_open = true; file = blank c.segment_size })

  prepared-IsUsable : IsUsable c.key_size c.value_size prepared
  unfolding reset_bitmap create
  prepared-IsUsable =
      let (valid, layout) = create-IsValid i c f sc fits.small fits.bitmap in
      let len = length-replicate {A = ℕ} (length (create i c f sc).bitmap) 0 in
      record {
        valid = reset_bitmap-IsValid (create i c f sc) valid;
        layout = record {
          data_start = layout.data_start ∙ sym len;
          slot_width = layout.slot_width;
          no_wrap = layout.no_wrap;
        };
        key_size = refl;
        value_size = refl;
        opened = refl;
        id_fits = omega (arith, fits.ids);
        slots_fit = fits.slots;
        room = (layout_fits c fits.small fits.bitmap).1;
      }

  flushed-IsUsable : IsUsable c.key_size c.value_size (flush_bitmap prepared).1
  unfolding flush_bitmap
  flushed-IsUsable =
      let t = prepared in
      IsLater-IsUsable c.key_size c.value_size (flush_bitmap t).1 t
        (record {
          id = refl;
          config = refl;
          data_start = refl;
          width = refl;
          slots = refl;
          bits = refl;
          still = refl;
          longer = size-pwrite_all t.script t.file t.bitmap 0;
        })
        prepared-IsUsable.valid prepared-IsUsable

  opened_new-IsUsable :
      (e : Status) (t : Segment)
      → IsUsable c.key_size c.value_size t
      → (opened_new (e, t)).0 ≡ Status.ok
      → IsUsable c.key_size c.value_size (opened_new (e, t)).1
  opened_new-IsUsable Status.ok t u done = u
  opened_new-IsUsable e t u done = cc

  -- A segment that `Open` has made a file for is usable.
  pub open_segment-IsUsable :
      (opened truncated : Bool)
      → (open_segment (create i c f sc) false opened truncated).0 ≡ Status.ok
      → IsUsable c.key_size c.value_size (open_segment (create i c f sc) false opened truncated).1
  unfolding open_segment create
  open_segment-IsUsable true true done =
      let r = flush_bitmap prepared in opened_new-IsUsable r.0 r.1 flushed-IsUsable done
  open_segment-IsUsable true false done = cc
  open_segment-IsUsable false truncated done = cc

-- No file of a segment is there.
abbrev pub AllNew : List SegmentCalls → Type 0
AllNew [] = Unit
AllNew (c ∷ cs) = (c.file_exists ≡ false) × AllNew cs

unwrapped : (a b : Segment) → some a ≡ some b → a ≡ b
unwrapped a b h = cc

cons-AllUsable :
    (k v : ℕ) (s : Segment) (ss : List Segment)
    → IsUsable k v s
    → AllUsable k v ss
    → AllUsable k v (s ∷ ss)
cons-AllUsable k v s ss u all id t e = elim (Bool-cases (id == s.segment_id)) [
  | inl here ↦ subst (IsUsable k v) (unwrapped s t (simp here at e)) u
  | inr there ↦ all id t (simp there at e)
]

classify-segments :
    (s : Segment) (m : SegmentManager) → (classify s.state s.segment_id m).segments ≡ m.segments
unfolding classify
classify-segments s m = ground arith

add_segment-AllUsable :
    (k v : ℕ) (m : SegmentManager) (s : Segment)
    → IsUsable k v s
    → AllUsable k v m.segments
    → AllUsable k v (add_segment m (some s)).1.segments
unfolding add_segment
add_segment-AllUsable k v m s u all = elim (Bool-cases (count s.segment_id (ids m.segments) == 0)) [
  | inr there ↦ simp there all
  | inl fresh ↦ simp fresh (
      subst (AllUsable k v) (sym (classify-segments s (record m { segments = s ∷ m.segments })))
        (cons-AllUsable k v s m.segments u all))
]

module _ (c : SegmentConfig) (n : ℕ) (fits : FitsOffsets c n) where
  abbrev pub Good : BackendCode × SegmentManager → Type 0
  Good r = r.0 ≡ BackendCode.ok → AllUsable c.key_size c.value_size r.1.segments

  after_add-Good :
      (e : Status) (m : SegmentManager) (rest : BackendCode × SegmentManager)
      → Good rest
      → Good (after_add e m rest)
  after_add-Good Status.ok m rest h done = h done
  after_add-Good e m rest h done = cc

  after_open-Good :
      (e : Status) (m : SegmentManager) (rest : BackendCode × SegmentManager)
      → (e ≡ Status.ok → Good rest)
      → Good (after_open e m rest)
  after_open-Good Status.ok m rest h done = h refl done
  after_open-Good e m rest h done = cc

  pub open_each-Good :
      (cs : List SegmentCalls) (i : ℕ) (m : SegmentManager)
      → i + length cs ≤ n
      → AllNew cs
      → AllUsable c.key_size c.value_size m.segments
      → Good (open_each c i cs m)
  unfolding open_each
  open_each-Good [] i m room new all done = all
  open_each-Good (x ∷ cs) i m room (missing, new) all done =
      let r = open_segment (create i c x.file x.script) x.file_exists x.opened x.truncated in
      let a = add_segment m (some r.1) in
      let usable = λ (fine : r.0 ≡ Status.ok).
        subst
          (λ (b : Bool).
            (open_segment (create i c x.file x.script) b x.opened x.truncated).0 ≡ Status.ok
            → IsUsable c.key_size c.value_size
                (open_segment (create i c x.file x.script) b x.opened x.truncated).1)
          (sym missing)
          (open_segment-IsUsable c n fits i (omega arith) x.file x.script x.opened x.truncated)
          fine in
      after_open-Good r.0 m _
        (λ fine. after_add-Good a.0 m _ (
          open_each-Good cs (i + 1) a.1 (omega arith) new
            (add_segment-AllUsable c.key_size c.value_size m r.1 (usable fine) all)))
        done
