-- ===== src/Storage/Registry/First.antt =====
-- Sequences of registrations (parakv/core/kvcache_storage/backend_registry.cc).
use mathlib.Core.Path.{◌∙◌, ap, subst}
use para_kv.Prelude.{
  ℕ, ◌≡◌, refl, Option, none, some, List, [], ◌∷◌, if◌then◌else◌, Bool-cases, inl, inr,
}
use para_kv.Prelude.Bytes.{Bytes, bytes_eq, bytes_eq_iff}
use para_kv.Prelude.Maps.{lookup, lookup-assign}
use para_kv.Storage.Registry.{
  BackendConfig, BackendFactory, BackendRegistry, register_factory, emplace, made, create_backend,
}

module _ (Backend : Type 0) where
  -- The registrations of a program, in their order.
  abbrev pub Registration : Type 0
  Registration = Bytes × Option (BackendFactory Backend)

  abbrev pub register_all : BackendRegistry Backend → List Registration → BackendRegistry Backend
  register_all factories [] = factories
  register_all factories ((name, factory) ∷ rest) =
      register_all (register_factory Backend factories name factory).1 rest

  -- The first factory that is registered under a name that is not empty.
  abbrev pub first_factory : Bytes → List Registration → Option (BackendFactory Backend)
  first_factory name [] = none
  first_factory [] (registration ∷ rest) = none
  first_factory (c ∷ name) ((n, none) ∷ rest) = first_factory (c ∷ name) rest
  first_factory (c ∷ name) ((n, some factory) ∷ rest) =
      let later = first_factory (c ∷ name) rest in
      if bytes_eq n (c ∷ name) then some factory else later

  abbrev or_else :
      Option (BackendFactory Backend)
      → Option (BackendFactory Backend)
      → Option (BackendFactory Backend)
  or_else (some factory) other = some factory
  or_else none other = other

  or_else-none : (o : Option (BackendFactory Backend)) → o ≡ or_else o none
  or_else-none none = refl
  or_else-none (some factory) = refl

  or_else_assoc :
      (o p q : Option (BackendFactory Backend)) → or_else (or_else o p) q ≡ or_else o (or_else p q)
  or_else_assoc none p q = refl
  or_else_assoc (some factory) p q = refl

  -- The factory of one registration, for a name.
  abbrev offered : Bytes → Bytes → BackendFactory Backend → Option (BackendFactory Backend)
  offered n name factory = if bytes_eq n name then some factory else none

  emplace-lookup :
      (factories : BackendRegistry Backend) (n name : Bytes) (factory : BackendFactory Backend)
      (old : Option (BackendFactory Backend))
      → lookup n factories ≡ old
      → lookup name (emplace Backend factories n factory old).1
        ≡ or_else (lookup name factories) (offered n name factory)
  emplace-lookup factories n name factory (some old) h = elim (Bool-cases (bytes_eq n name)) [
    | inl e ↦
        let there : lookup name factories ≡ some old =
          subst (λ j. lookup j factories ≡ some old) ((bytes_eq_iff n name).0 e) h in
        simp (e, there) refl
    | inr e ↦ simp (e) (or_else-none (lookup name factories))
  ]
  emplace-lookup factories n name factory none h =
      lookup-assign n name factory factories ∙ elim (Bool-cases (bytes_eq n name)) [
        | inl e ↦
            let missing : lookup name factories ≡ none =
              subst (λ j. lookup j factories ≡ none) ((bytes_eq_iff n name).0 e) h in
            simp (e, missing) refl
        | inr e ↦ simp (e) (or_else-none (lookup name factories))
      ]

  first_factory-or_else :
      (n : Bytes) (c : ℕ) (name : Bytes) (factory : BackendFactory Backend)
      (rest : List Registration)
      → or_else (offered n (c ∷ name) factory) (first_factory (c ∷ name) rest)
        ≡ first_factory (c ∷ name) ((n, some factory) ∷ rest)
  first_factory-or_else n c name factory rest = elim (Bool-cases (bytes_eq n (c ∷ name))) [
    | inl e ↦ simp (e) refl
    | inr e ↦ simp (e) refl
  ]

  register_all-lookup :
      (factories : BackendRegistry Backend) (c : ℕ) (name : Bytes) (rs : List Registration)
      → lookup (c ∷ name) (register_all factories rs)
        ≡ or_else (lookup (c ∷ name) factories) (first_factory (c ∷ name) rs)
  register_all-lookup factories c name [] = or_else-none (lookup (c ∷ name) factories)
  register_all-lookup factories c name (([], none) ∷ rs) = register_all-lookup factories c name rs
  register_all-lookup factories c name (([], some factory) ∷ rs) =
      register_all-lookup factories c name rs
  register_all-lookup factories c name ((d ∷ n, none) ∷ rs) =
      register_all-lookup factories c name rs
  register_all-lookup factories c name ((d ∷ n, some factory) ∷ rs) =
      let found = lookup (d ∷ n) factories in
      let later = first_factory (c ∷ name) rs in
      register_all-lookup (emplace Backend factories (d ∷ n) factory found).1 c name rs
      ∙ ap (λ o. or_else o later) (emplace-lookup factories (d ∷ n) (c ∷ name) factory found refl)
      ∙ or_else_assoc (lookup (c ∷ name) factories) (offered (d ∷ n) (c ∷ name) factory) later
      ∙ ap (or_else (lookup (c ∷ name) factories)) (first_factory-or_else (d ∷ n) c name factory rs)

-- What a factory gives, where there is one.
abbrev pub product :
    (Backend : Type 0) → BackendConfig → Option (BackendFactory Backend) → Option Backend
product Backend config none = none
product Backend config (some factory) = factory config

made-product :
    (Backend : Type 0) (config : BackendConfig) (factory : Option (BackendFactory Backend))
    → made Backend config factory ≡ product Backend config factory
made-product Backend config none = refl
made-product Backend config (some factory) = refl

-- After any registrations with an empty registry, creating a backend under a name that is not
-- empty calls the first factory that was registered under the name, and makes nothing where there
-- is none: later registrations of the name, and those of no factory, change nothing.
pub create_backend-first :
    (Backend : Type 0) (rs : List (Registration Backend)) (c : ℕ) (name : Bytes)
    (config : BackendConfig)
    → create_backend Backend (register_all Backend [] rs) (c ∷ name) config
      ≡ product Backend config (first_factory Backend (c ∷ name) rs)
create_backend-first Backend rs c name config =
    ap (made Backend config) (register_all-lookup Backend [] c name rs)
    ∙ made-product Backend config (first_factory Backend (c ∷ name) rs)
