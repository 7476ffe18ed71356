-- ===== src/Storage/Namespaces.antt =====
-- `BackendNamespaceManager` (parakv/core/kvcache_storage/backend_namespace_manager.h,
-- parakv/core/kvcache_storage/backend_namespace_manager.cc). A pointer to a backend is the number
-- of its object, so that namespaces may share one; the objects are those of one interface.
pub mod Calls
pub mod Isolation
pub mod Names
use para_kv.Prelude.{
  ℕ, Bool, true, false, ◌&&◌, ◌||◌, Option, none, some, List, [], ◌∷◌, ◌++◌, leb, ◌==◌,
  if◌then◌else◌,
}
use para_kv.Prelude.Bytes.{Bytes}
use para_kv.Prelude.Text.{text}
use para_kv.Prelude.Maps.{lookup, assign}
use para_kv.Storage.{
  BackendCode, invalid_argument, WriteOptions, ReadOptions, WriteResult, ReadResult, failed_read,
  StorageBackend,
}

-- The tests of `SanitizeNs`, on the codes of the characters.
abbrev pub is_safe : ℕ → Bool
is_safe c =
    ((leb 97 c && leb c 122) || (leb 65 c && leb c 90))
    || ((leb 48 c && leb c 57) || ((c == 95) || ((c == 45) || (c == 46))))

abbrev pub sanitize_loop : Bytes → Bytes
sanitize_loop [] = []
sanitize_loop (c ∷ ns) = (if is_safe c then c else 95) ∷ sanitize_loop ns

-- `if (out.empty()) out = "default";`
abbrev pub or_default : Bytes → Bytes
or_default [] = text "default"
or_default (c ∷ out) = c ∷ out

abbrev pub sanitize_ns : Bytes → Bytes
sanitize_ns ns = or_default (sanitize_loop ns)

-- The answer to a namespace without a backend.
abbrev pub not_registered : Bytes → Bytes
not_registered ns = text "namespace '" ++ ns ++ text "' is not registered"

abbrev pub unregistered_write : Bytes → WriteResult
unregistered_write ns = record { code = invalid_argument; message = not_registered ns }

abbrev pub unregistered_read : Bytes → ReadResult
unregistered_read ns = failed_read invalid_argument (not_registered ns)

module _ (b : StorageBackend) where
  pub record NamespaceManager : Type 0 where
    pub backends : List (Bytes × ℕ)
    pub objects : ℕ → b.State

  -- A call replaces the state of the object behind the pointer.
  abbrev pub set_object : NamespaceManager → ℕ → b.State → NamespaceManager
  set_object m i s = record m { objects = λ j. if i == j then s else m.objects j }

  -- `emplace` keeps the backend that is there.
  abbrev pub register_at : NamespaceManager → Bytes → ℕ → Option ℕ → Bool × NamespaceManager
  register_at m ns i (some old) = (false, m)
  register_at m ns i none = (true, record m { backends = assign ns i m.backends })

  -- `Register`; `none` is the null pointer.
  abbrev pub register : NamespaceManager → Bytes → Option ℕ → Bool × NamespaceManager
  register m [] backend = (false, m)
  register m (c ∷ ns) none = (false, m)
  register m (c ∷ ns) (some i) = register_at m (c ∷ ns) i (lookup (c ∷ ns) m.backends)

  abbrev pub get_backend : NamespaceManager → Bytes → Option ℕ
  get_backend m ns = lookup ns m.backends

  abbrev pub put_at :
      NamespaceManager
      → Bytes
      → Bytes
      → Bytes
      → Bytes
      → WriteOptions
      → Option ℕ
      → WriteResult × NamespaceManager
  put_at m ns key value metadata opts none = (unregistered_write ns, m)
  put_at m ns key value metadata opts (some i) =
      let (r, s) = b.put (m.objects i) key value metadata opts in (r, set_object m i s)

  unfoldable pub put :
      NamespaceManager
      → Bytes
      → Bytes
      → Bytes
      → Bytes
      → WriteOptions
      → WriteResult × NamespaceManager
  put m ns key value metadata opts = put_at m ns key value metadata opts (get_backend m ns)

  abbrev pub get_at :
      NamespaceManager → Bytes → Bytes → ReadOptions → Option ℕ → ReadResult × NamespaceManager
  get_at m ns key opts none = (unregistered_read ns, m)
  get_at m ns key opts (some i) = let (r, s) = b.get (m.objects i) key opts in (r, set_object m i s)

  unfoldable pub get :
      NamespaceManager → Bytes → Bytes → ReadOptions → ReadResult × NamespaceManager
  get m ns key opts = get_at m ns key opts (get_backend m ns)

  abbrev pub delete_at :
      NamespaceManager → Bytes → Bytes → Option ℕ → WriteResult × NamespaceManager
  delete_at m ns key none = (unregistered_write ns, m)
  delete_at m ns key (some i) = let (r, s) = b.delete (m.objects i) key in (r, set_object m i s)

  unfoldable pub delete : NamespaceManager → Bytes → Bytes → WriteResult × NamespaceManager
  delete m ns key = delete_at m ns key (get_backend m ns)

  -- The loop of `Close` over the map that was taken, in its order.
  abbrev pub close_all : List (Bytes × ℕ) → NamespaceManager → NamespaceManager
  close_all [] m = m
  close_all ((ns, i) ∷ taken) m = close_all taken (set_object m i (b.close (m.objects i)))

  unfoldable pub close : NamespaceManager → NamespaceManager
  close m = close_all m.backends (record m { backends = [] })
