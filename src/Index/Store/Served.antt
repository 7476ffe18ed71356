-- ===== src/Index/Store/Served.antt =====
-- `Put` and `Get` of `Index` over the segments: the pairs that an index serves
-- (parakv/core/index/index.cc).
use mathlib.Core.Path.{subst}
use para_kv.Prelude.{
  ℕ, ◌≡◌, ◌≢◌, refl, sym, ap, ◌∙◌, inl, inr, false, some, List, if◌then◌else◌, Bool-cases, arith,
}
use para_kv.Prelude.Bytes.{Bytes, bytes_eq, bytes_eq_iff}
use para_kv.Status.{Status, ok}
use para_kv.Index.Offset.{get_flag, flag_value, segment_slot}
use para_kv.Index.Table.{MapCalls}
use para_kv.Index.Store.{Options, Index}
use para_kv.Io.{read_range}
use para_kv.Segment.Base.{Segment}
use para_kv.Segment.File.Payload.{slot_start}
use para_kv.Segment.Manager.{get_segment}
use para_kv.Segment.Manager.Pairs.{Holds, AllUsable, SameSlot}

-- One slot holds one key.
pub one_key :
    (ss : List Segment) (a b : ℕ) (q w q' w' : Bytes)
    → Holds ss a q w
    → Holds ss b q' w'
    → SameSlot a b
    → q ≡ q'
one_key ss a b q w q' w' (s, e, (_, (held, _))) (t, e', (_, (held', _))) (seg, slot) =
    let same : s ≡ t = unwrapped s t (sym e ∙ ap (get_segment ss) seg ∙ e') in
    sym held
    ∙ (λ i. read_range (same i).file (slot_start (same i) (slot i)) (same i).config.key_size)
    ∙ held'
  where
    unwrapped : (x y : Segment) → some x ≡ some y → x ≡ y
    unwrapped x y h = cc

module _ (o : MapCalls) (opts : Options) where
  -- The key is mapped to a slot that holds it with the value.
  abbrev pub ServesIn : o.Map → List Segment → Bytes → Bytes → Type 0
  ServesIn m ss q w =
      (enc : ℕ) × (o.find m q ≡ some enc)
      × (get_flag enc ≡ flag_value segment_slot)
      × Holds ss enc q w

  -- The segments are usable, and each mapped key is served.
  pub record IsServedIn (m : o.Map) (ss : List Segment) : Type 0 where
    pub usable : AllUsable opts.key_size opts.value_size ss
    pub mapped :
        (q : Bytes) (enc : ℕ)
        → o.find m q ≡ some enc
        → (get_flag enc ≡ flag_value segment_slot) × (w : Bytes) × Holds ss enc q w

  abbrev pub IsServed : Index o → Type 0
  IsServed ix = IsServedIn ix.map ix.manager.segments

  abbrev pub Serves : Index o → Bytes → Bytes → Type 0
  Serves ix q w = ServesIn ix.map ix.manager.segments q w

  -- What a `Put` of a pair has done, by its status.
  pub record PutOutcome (key value : Bytes) (m : o.Map) (ss : List Segment) (e : Status)
      (m' : o.Map) (ss' : List Segment) : Type 0 where
    pub served : IsServedIn m' ss'
    pub stored : e ≡ ok → ServesIn m' ss' key value
    pub failed : e ≢ ok → (q w : Bytes) → ServesIn m ss q w → ServesIn m' ss' q w
    pub others : (q w : Bytes) → q ≢ key → ServesIn m ss q w → ServesIn m' ss' q w

  module _ (key value : Bytes) (m : o.Map) (ss : List Segment) (before : IsServedIn m ss) where
    -- The key is mapped to the new slot.
    pub installed :
        (m' : o.Map) (ss' : List Segment) (enc : ℕ)
        → ((q : Bytes) → o.find m' q ≡ (if bytes_eq q key then some enc else o.find m q))
        → AllUsable opts.key_size opts.value_size ss'
        → get_flag enc ≡ flag_value segment_slot
        → Holds ss' enc key value
        → ((q w : Bytes) (a : ℕ) → q ≢ key → Holds ss a q w → Holds ss' a q w)
        → PutOutcome key value m ss ok m' ss'
    installed m' ss' enc view usable flag holds keeps = record {
      served = record {
        usable = usable;
        mapped = λ q a found. elim (Bool-cases (bytes_eq q key)) [
          | inl same ↦
              let e : some enc ≡ some a = sym (ground (arith, view q, same)) ∙ found in
              let enc_a : enc ≡ a = cc in
              let q_key : q ≡ key = (bytes_eq_iff q key).0 same in
              (
                ap get_flag (sym enc_a) ∙ flag,
                value,
                subst (λ (x : Bytes). Holds ss' a x value) (sym q_key)
                    (subst (λ (x : ℕ). Holds ss' x key value) enc_a holds),
              )
          | inr other ↦
              let was : o.find m q ≡ some a = sym (ground (arith, view q, other)) ∙ found in
              let (f, w, h) = before.mapped q a was in (f, w, keeps q w a (unequal q other) h)
        ];
      };
      stored = λ _. (enc, view key ∙ ground (arith, (bytes_eq_iff key key).1 refl), flag, holds);
      failed = λ no q w s. absurd (no refl);
      others = λ q w ne (a, found, f, h).
          (a, view q ∙ ground (arith, distinct q ne, found), f, keeps q w a ne h);
    }
      where
        distinct : (q : Bytes) → q ≢ key → bytes_eq q key ≡ false
        distinct q ne = elim (Bool-cases (bytes_eq q key)) [
          | inl same ↦ absurd (ne ((bytes_eq_iff q key).0 same))
          | inr other ↦ other
        ]

        unequal : (q : Bytes) → bytes_eq q key ≡ false → q ≢ key
        unequal q other e = let same = (bytes_eq_iff q key).1 e in cc

    -- The map is as it was.
    pub restored :
        (m' : o.Map) (ss' : List Segment) (e : Status)
        → e ≢ ok
        → ((q : Bytes) → o.find m' q ≡ o.find m q)
        → AllUsable opts.key_size opts.value_size ss'
        → ((q w : Bytes) (a : ℕ) → Holds ss a q w → Holds ss' a q w)
        → PutOutcome key value m ss e m' ss'
    restored m' ss' e bad view usable keeps = record {
      served = record {
        usable = usable;
        mapped = λ q a found.
            let (f, w, h) = before.mapped q a (sym (view q) ∙ found) in (f, w, keeps q w a h);
      };
      stored = λ done. absurd (bad done);
      failed = λ _ q w (a, found, f, h). (a, view q ∙ found, f, keeps q w a h);
      others = λ q w _ (a, found, f, h). (a, view q ∙ found, f, keeps q w a h);
    }
