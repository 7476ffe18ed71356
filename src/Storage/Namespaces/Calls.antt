-- ===== src/Storage/Namespaces/Calls.antt =====
-- Sequences of calls of the namespace manager and of a backend object
-- (parakv/core/kvcache_storage/backend_namespace_manager.cc).
use para_kv.Prelude.{ℕ, Bool, false, Option, none, some, List, [], ◌∷◌, ◌==◌, if◌then◌else◌}
use para_kv.Prelude.Bytes.{Bytes}
use para_kv.Prelude.Maps.{lookup}
use para_kv.Storage.{WriteOptions, ReadOptions, WriteResult, ReadResult, StorageBackend}
use para_kv.Storage.Namespaces.{
  NamespaceManager, put, get, delete, unregistered_write, unregistered_read,
}

-- A call of a backend, and what it answers.
pub data Call : Type 0 where
  put_call : Bytes → Bytes → Bytes → WriteOptions → Call
  get_call : Bytes → ReadOptions → Call
  delete_call : Bytes → Call

pub data Answer : Type 0 where
  wrote : WriteResult → Answer
  was_read : ReadResult → Answer

-- The answer when there is no backend.
abbrev pub unregistered : Bytes → Call → Answer
unregistered ns (put_call key value metadata opts) = wrote (unregistered_write ns)
unregistered ns (get_call key opts) = was_read (unregistered_read ns)
unregistered ns (delete_call key) = wrote (unregistered_write ns)

-- Whether a namespace's pointer is that of an object.
abbrev pub is_own : ℕ → Option ℕ → Bool
is_own j none = false
is_own j (some i) = i == j

-- The calls that reach an object, and the answers to them.
abbrev pub own_calls : ℕ → List (Bytes × ℕ) → List (Bytes × Call) → List Call
own_calls j bs [] = []
own_calls j bs ((ns, c) ∷ calls) =
    let rest = own_calls j bs calls in if is_own j (lookup ns bs) then c ∷ rest else rest

abbrev pub own_answers : ℕ → List (Bytes × ℕ) → List (Bytes × Call) → List Answer → List Answer
own_answers j bs [] answers = []
own_answers j bs (call ∷ calls) [] = []
own_answers j bs ((ns, c) ∷ calls) (a ∷ answers) =
    let rest = own_answers j bs calls answers in if is_own j (lookup ns bs) then a ∷ rest else rest

module _ (b : StorageBackend) where
  abbrev pub object_call : b.State → Call → Answer × b.State
  object_call s (put_call key value metadata opts) =
      let (r, t) = b.put s key value metadata opts in (wrote r, t)
  object_call s (get_call key opts) = let (r, t) = b.get s key opts in (was_read r, t)
  object_call s (delete_call key) = let (r, t) = b.delete s key in (wrote r, t)

  abbrev pub manager_call : NamespaceManager b → Bytes → Call → Answer × NamespaceManager b
  manager_call m ns (put_call key value metadata opts) =
      let (r, n) = put b m ns key value metadata opts in (wrote r, n)
  manager_call m ns (get_call key opts) = let (r, n) = get b m ns key opts in (was_read r, n)
  manager_call m ns (delete_call key) = let (r, n) = delete b m ns key in (wrote r, n)

  -- A sequence of calls, and the answers in its order.
  abbrev pub manager_run :
      NamespaceManager b → List (Bytes × Call) → List Answer × NamespaceManager b
  manager_run m [] = ([], m)
  manager_run m ((ns, c) ∷ calls) =
      let (a, n) = manager_call m ns c in
      let (answers, end) = manager_run n calls in (a ∷ answers, end)

  -- A sequence of calls of one object.
  abbrev pub object_run : b.State → List Call → List Answer × b.State
  object_run s [] = ([], s)
  object_run s (c ∷ calls) =
      let (a, t) = object_call s c in let (answers, end) = object_run t calls in (a ∷ answers, end)
