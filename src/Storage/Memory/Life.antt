-- ===== src/Storage/Memory/Life.antt =====
-- How long an entry of the in-memory backend lives
-- (parakv/core/kvcache_storage/mocked_inmemory_kvcache_storage.cc).
use para_kv.Prelude.{ℕ, zero, suc, ◌+◌, ◌%◌, ◌^◌, ◌≡◌, refl, ap, true, ltb, arith, if◌then◌else◌}
use para_kv.Storage.Memory.{MemoryStorage, now_ms, tick}

-- When an entry that is written at `now` runs out, by the request's limit of its life and the
-- default's, where 0 is no limit; 0 is never.
abbrev pub runs_out : ℕ → ℕ → ℕ → ℕ
runs_out now zero zero = 0
runs_out now zero (suc default_ttl) = (now + suc default_ttl) % 2 ^ 64
runs_out now (suc ttl) default_ttl = (now + suc ttl) % 2 ^ 64

-- The number of readings of the clock for the new entry's life.
abbrev pub readings_for : ℕ → ℕ → ℕ
readings_for zero zero = 0
readings_for zero (suc default_ttl) = 1
readings_for (suc ttl) default_ttl = 1

ltb_zero_suc : (n : ℕ) → ltb 0 (suc n) ≡ true
ltb_zero_suc n = ground arith

pub life-runs_out :
    (now ttl default_ttl : ℕ)
    → let life = if ltb 0 ttl then ttl else default_ttl in
      (if ltb 0 life then (now + life) % 2 ^ 64 else 0) ≡ runs_out now ttl default_ttl
life-runs_out now zero zero = refl
life-runs_out now zero (suc default_ttl) = simp (ltb_zero_suc default_ttl) refl
life-runs_out now (suc ttl) default_ttl = simp (ltb_zero_suc ttl) refl

pub tick-readings_for :
    (m : MemoryStorage) (ttl default_ttl : ℕ)
    → let life = if ltb 0 ttl then ttl else default_ttl in
      now_ms (if ltb 0 life then tick m else m)
      ≡ m.readings (m.taken + readings_for ttl default_ttl)
tick-readings_for m zero zero = ap m.readings (omega arith)
tick-readings_for m zero (suc default_ttl) = simp (ltb_zero_suc default_ttl) refl
tick-readings_for m (suc ttl) default_ttl = simp (ltb_zero_suc ttl) refl
