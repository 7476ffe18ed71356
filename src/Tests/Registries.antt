-- ===== src/Tests/Registries.antt =====
-- Runs of the backend registry and of configurations (parakv/core/kvcache_storage).
use para_kv.Prelude.{ℕ, ◌≡◌, true, false, none, some, List, [], ◌∷◌, refl}
use para_kv.Prelude.Bytes.{Bytes}
use para_kv.Prelude.Text.{text}
use para_kv.Storage.Registry.{create_backend, get_bool, set_entry, sort_names, get_uint, Parsed}
use para_kv.Storage.Registry.{ℤ, pos, negsuc, get_int}
use para_kv.Storage.Registry.Builtin.{Flags, index_options}
use para_kv.Storage.Registry.First.{
  Registration, register_all, first_factory, product, create_backend-first,
}

-- A name is registered twice, and once with no factory; backends are numbers.
abbrev registrations : List (Registration ℕ)
registrations =
    (97 ∷ [], none)
    ∷ (97 ∷ [], some (λ config. some 1))
    ∷ ([], some (λ config. some 2))
    ∷ (97 ∷ [], some (λ config. some 3))
    ∷ []

create_backend-first_example :
    create_backend ℕ (register_all ℕ [] registrations) (97 ∷ []) []
    ≡ product ℕ [] (first_factory ℕ (97 ∷ []) registrations)
create_backend-first_example = create_backend-first ℕ registrations 97 [] []

first_wins : create_backend ℕ (register_all ℕ [] registrations) (97 ∷ []) [] ≡ some 1
first_wins = refl

reads_yes : get_bool (set_entry [] (text "on") (text "Yes")) (text "on") false ≡ true
unfolding text
reads_yes = refl

sorted : sort_names (text "b" ∷ text "ab" ∷ text "a" ∷ []) ≡ text "a" ∷ text "ab" ∷ text "b" ∷ []
unfolding text
sorted = refl

-- A string that is not a number to its end gives the default.
abbrev not_at_end : Bytes → Parsed ℕ
not_at_end s = record { number = 4; has_errno = false; has_digit = true; at_end = false }

default_kept : get_uint not_at_end ((97 ∷ [], 52 ∷ 120 ∷ []) ∷ []) (97 ∷ []) 9 ≡ 9
default_kept = refl

-- The directory of a namespace that is not safe as it is.
abbrev flags : Flags ℕ
flags = record {
  segment_workspace_path = 119 ∷ [];
  segment_size = 256;
  segment_value_size = 40;
  segment_count = 2;
  index_wal_checkpoint_bytes = 1000;
  lfu_capacity_ratio = 1;
  lfu_age_tick_sec = 60;
}

root_dir_sanitized :
    (index_options ℕ flags (set_entry [] (text "namespace") (text "a/b"))).root_dir ≡ text "w/a_b"
unfolding index_options text
root_dir_sanitized = refl

-- A string that is a number to its end.
abbrev below_zero : Bytes → Parsed ℤ
below_zero s = record { number = negsuc 3; has_errno = false; has_digit = true; at_end = true }

int_read : get_int below_zero ((97 ∷ [], 45 ∷ 52 ∷ []) ∷ []) (97 ∷ []) (pos 9) ≡ negsuc 3
int_read = refl
