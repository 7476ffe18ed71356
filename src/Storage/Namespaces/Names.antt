-- ===== src/Storage/Namespaces/Names.antt =====
-- The names that `SanitizeNs` makes (parakv/core/kvcache_storage/backend_namespace_manager.cc).
use para_kv.Prelude.{◌≡◌, Bool, true, [], ◌∷◌, ◌&&◌, arith, refl}
use para_kv.Prelude.Bytes.{Bytes}
use para_kv.Prelude.Text.{text}
use para_kv.Storage.Namespaces.{is_safe, sanitize_loop, or_default, sanitize_ns}

abbrev pub all_safe : Bytes → Bool
all_safe [] = true
all_safe (c ∷ ns) = is_safe c && all_safe ns

sanitize_loop-safe : (ns : Bytes) → all_safe (sanitize_loop ns) ≡ true
sanitize_loop-safe [] = refl
sanitize_loop-safe (c ∷ ns) = ground (arith, sanitize_loop-safe ns)

sanitize_loop_fixed : (ns : Bytes) → all_safe ns ≡ true → sanitize_loop ns ≡ ns
sanitize_loop_fixed [] h = refl
sanitize_loop_fixed (c ∷ ns) h = ground (arith, sanitize_loop_fixed ns)

or_default-safe : (out : Bytes) → all_safe out ≡ true → all_safe (or_default out) ≡ true
unfolding text
or_default-safe [] h = refl
or_default-safe (c ∷ out) h = h

or_default_fixed :
    (out : Bytes) → all_safe out ≡ true → sanitize_ns (or_default out) ≡ or_default out
unfolding text
or_default_fixed [] h = refl
or_default_fixed (c ∷ out) h = λ i. or_default (sanitize_loop_fixed (c ∷ out) h i)

-- What `SanitizeNs` returns has letters, digits, `_`, `-` and `.` only, and it is not changed by
-- a second pass.
pub sanitize_ns-safe :
    (ns : Bytes)
    → (all_safe (sanitize_ns ns) ≡ true) × (sanitize_ns (sanitize_ns ns) ≡ sanitize_ns ns)
sanitize_ns-safe ns = (
  or_default-safe (sanitize_loop ns) (sanitize_loop-safe ns),
  or_default_fixed (sanitize_loop ns) (sanitize_loop-safe ns),
)
