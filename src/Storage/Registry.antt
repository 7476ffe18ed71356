-- ===== src/Storage/Registry.antt =====
-- `BackendConfig` and `BackendRegistry` (parakv/core/kvcache_storage/backend_registry.h,
-- parakv/core/kvcache_storage/backend_registry.cc). What the C library's `strtoll` and `strtoull`
-- find in a string is a parameter.
pub mod Builtin
pub mod First
use para_kv.Prelude.{
  ℕ, ◌+◌, Bool, true, false, not, ◌&&◌, ◌||◌, Option, none, some, List, [], ◌∷◌, ltb, leb, ◌==◌,
  map, if◌then◌else◌,
}
use para_kv.Prelude.Bytes.{Bytes, bytes_eq}
use para_kv.Prelude.Text.{text}
use para_kv.Prelude.Maps.{lookup, assign}

-- `entries_`
abbrev pub BackendConfig : Type 0
BackendConfig = List (Bytes × Bytes)

abbrev pub set_entry : BackendConfig → Bytes → Bytes → BackendConfig
set_entry entries key value = assign key value entries

abbrev pub is_some : {A : Type 0} → Option A → Bool
is_some none = false
is_some (some a) = true

abbrev pub has_entry : BackendConfig → Bytes → Bool
has_entry entries key = is_some (lookup key entries)

abbrev pub value_or : Bytes → Option Bytes → Bytes
value_or default_value none = default_value
value_or default_value (some value) = value

abbrev pub get_string : BackendConfig → Bytes → Bytes → Bytes
get_string entries key default_value = value_or default_value (lookup key entries)

-- What is parsed: the number, whether `errno` is set, whether there is a digit, and whether the
-- string ends behind the number.
pub record Parsed (Number : Type 0) : Type 0 where
  pub number : Number
  pub has_errno : Bool
  pub has_digit : Bool
  pub at_end : Bool

abbrev pub number_or : {Number : Type 0} → (Bytes → Parsed Number) → Number → Option Bytes → Number
number_or parse default_value none = default_value
number_or parse default_value (some []) = default_value
number_or parse default_value (some (c ∷ s)) =
    let p = parse (c ∷ s) in
    if p.has_errno || (not p.has_digit || not p.at_end) then default_value else p.number

-- `GetUint`, over `strtoull`.
abbrev pub get_uint : (Bytes → Parsed ℕ) → BackendConfig → Bytes → ℕ → ℕ
get_uint strtoull entries key default_value = number_or strtoull default_value (lookup key entries)

-- `int64_t`
pub data ℤ : Type 0 where
  pos : ℕ → ℤ
  negsuc : ℕ → ℤ

-- `GetInt`, over `strtoll`.
abbrev pub get_int : (Bytes → Parsed ℤ) → BackendConfig → Bytes → ℤ → ℤ
get_int strtoll entries key default_value = number_or strtoll default_value (lookup key entries)

-- `std::tolower` on a byte.
abbrev pub to_lower : ℕ → ℕ
to_lower c = if leb 65 c && leb c 90 then c + 32 else c

abbrev pub is_one_of : Bytes → List Bytes → Bool
is_one_of v [] = false
is_one_of v (word ∷ words) = bytes_eq v word || is_one_of v words

abbrev pub bool_or : Bool → Option Bytes → Bool
bool_or default_value none = default_value
bool_or default_value (some s) =
    let v = map to_lower s in
    if is_one_of v (text "1" ∷ text "true" ∷ text "yes" ∷ text "on" ∷ [])
    then true
    else if is_one_of v (text "0" ∷ text "false" ∷ text "no" ∷ text "off" ∷ [] ∷ [])
    then false
    else default_value

-- `GetBool`
abbrev pub get_bool : BackendConfig → Bytes → Bool → Bool
get_bool entries key default_value = bool_or default_value (lookup key entries)

-- `operator<` of `std::string`
abbrev pub bytes_lt : Bytes → Bytes → Bool
bytes_lt xs [] = false
bytes_lt [] (y ∷ ys) = true
bytes_lt (x ∷ xs) (y ∷ ys) = ltb x y || ((x == y) && bytes_lt xs ys)

-- `std::sort` of names
abbrev pub insert_name : Bytes → List Bytes → List Bytes
insert_name name [] = name ∷ []
insert_name name (n ∷ names) =
    let rest = insert_name name names in if bytes_lt n name then n ∷ rest else name ∷ n ∷ names

abbrev pub sort_names : List Bytes → List Bytes
sort_names [] = []
sort_names (name ∷ names) = insert_name name (sort_names names)

-- The registry: the factories by name, which make a backend from a configuration, or none.
module _ (Backend : Type 0) where
  abbrev pub BackendFactory : Type 0
  BackendFactory = BackendConfig → Option Backend

  abbrev pub BackendRegistry : Type 0
  BackendRegistry = List (Bytes × BackendFactory)

  abbrev pub emplace :
      BackendRegistry → Bytes → BackendFactory → Option BackendFactory → Bool × BackendRegistry
  emplace factories name factory (some old) = (false, factories)
  emplace factories name factory none = (true, assign name factory factories)

  -- `Register`; `none` is an empty `std::function`.
  abbrev pub register_factory :
      BackendRegistry → Bytes → Option BackendFactory → Bool × BackendRegistry
  register_factory factories [] factory = (false, factories)
  register_factory factories (c ∷ name) none = (false, factories)
  register_factory factories (c ∷ name) (some factory) =
      emplace factories (c ∷ name) factory (lookup (c ∷ name) factories)

  abbrev pub made : BackendConfig → Option BackendFactory → Option Backend
  made config none = none
  made config (some factory) = factory config

  -- `Create`
  abbrev pub create_backend : BackendRegistry → Bytes → BackendConfig → Option Backend
  create_backend factories name config = made config (lookup name factories)

  abbrev pub is_registered : BackendRegistry → Bytes → Bool
  is_registered factories name = is_some (lookup name factories)

  abbrev pub names : BackendRegistry → List Bytes
  names [] = []
  names ((name, factory) ∷ factories) = name ∷ names factories

  abbrev pub registered_names : BackendRegistry → List Bytes
  registered_names factories = sort_names (names factories)
