-- ===== src/Storage/Namespaces/Isolation.antt =====
-- What a sequence of calls of the namespace manager does to a backend object
-- (parakv/core/kvcache_storage/backend_namespace_manager.cc).
use mathlib.Core.Path.{subst, ◌∙◌}
use para_kv.Prelude.{
  ℕ, ◌≡◌, Bool, true, false, Option, none, some, List, [], ◌∷◌, ◌==◌, ==_iff, Bool-cases, inl, inr,
  refl,
}
use para_kv.Prelude.Bytes.{Bytes}
use para_kv.Prelude.Maps.{lookup}
use para_kv.Storage.{StorageBackend}
use para_kv.Storage.Namespaces.Calls.{
  Call, put_call, get_call, delete_call, Answer, wrote, was_read, is_own, own_calls, own_answers,
  object_call, manager_call, manager_run, object_run,
}
use para_kv.Storage.Namespaces.{
  NamespaceManager, set_object, put_at, put, get_at, get, delete_at, delete,
}

module _ (b : StorageBackend) where
  abbrev manager_call_at :
      NamespaceManager b → Bytes → Call → Option ℕ → Answer × NamespaceManager b
  manager_call_at m ns (put_call key value metadata opts) o =
      let (r, n) = put_at b m ns key value metadata opts o in (wrote r, n)
  manager_call_at m ns (get_call key opts) o =
      let (r, n) = get_at b m ns key opts o in (was_read r, n)
  manager_call_at m ns (delete_call key) o = let (r, n) = delete_at b m ns key o in (wrote r, n)

  manager_call-at :
      (m : NamespaceManager b) (ns : Bytes) (c : Call)
      → manager_call b m ns c ≡ manager_call_at m ns c (lookup ns m.backends)
  unfolding put get delete
  manager_call-at m ns (put_call key value metadata opts) = refl
  manager_call-at m ns (get_call key opts) = refl
  manager_call-at m ns (delete_call key) = refl

  at-backends :
      (m : NamespaceManager b) (ns : Bytes) (c : Call) (o : Option ℕ)
      → (manager_call_at m ns c o).1.backends ≡ m.backends
  at-backends m ns (put_call key value metadata opts) none = refl
  at-backends m ns (put_call key value metadata opts) (some i) = refl
  at-backends m ns (get_call key opts) none = refl
  at-backends m ns (get_call key opts) (some i) = refl
  at-backends m ns (delete_call key) none = refl
  at-backends m ns (delete_call key) (some i) = refl

  set_object-other :
      (m : NamespaceManager b) (i j : ℕ) (s : b.State)
      → (i == j) ≡ false
      → (set_object b m i s).objects j ≡ m.objects j
  set_object-other m i j s h = simp (h) refl

  at-other :
      (m : NamespaceManager b) (ns : Bytes) (c : Call) (o : Option ℕ) (j : ℕ)
      → is_own j o ≡ false
      → (manager_call_at m ns c o).1.objects j ≡ m.objects j
  at-other m ns (put_call key value metadata opts) none j h = refl
  at-other m ns (put_call key value metadata opts) (some i) j h = set_object-other m i j _ h
  at-other m ns (get_call key opts) none j h = refl
  at-other m ns (get_call key opts) (some i) j h = set_object-other m i j _ h
  at-other m ns (delete_call key) none j h = refl
  at-other m ns (delete_call key) (some i) j h = set_object-other m i j _ h

  at-own_refl :
      (m : NamespaceManager b) (ns : Bytes) (c : Call) (i : ℕ)
      → let r = manager_call_at m ns c (some i) in
        ◌≡◌ {A = Answer × b.State} (r.0, r.1.objects i) (object_call b (m.objects i) c)
  at-own_refl m ns (put_call key value metadata opts) i = simp ((==_iff i i).1 refl) refl
  at-own_refl m ns (get_call key opts) i = simp ((==_iff i i).1 refl) refl
  at-own_refl m ns (delete_call key) i = simp ((==_iff i i).1 refl) refl

  at-own :
      (m : NamespaceManager b) (ns : Bytes) (c : Call) (o : Option ℕ) (j : ℕ)
      → is_own j o ≡ true
      → let r = manager_call_at m ns c o in
        ◌≡◌ {A = Answer × b.State} (r.0, r.1.objects j) (object_call b (m.objects j) c)
  at-own m ns c none j h = cc
  at-own m ns c (some i) j h =
      subst
        (λ j.
          let r = manager_call_at m ns c (some i) in
          ◌≡◌ {A = Answer × b.State} (r.0, r.1.objects j) (object_call b (m.objects j) c))
        ((==_iff i j).0 h) (at-own_refl m ns c i)

  call-backends :
      (m : NamespaceManager b) (ns : Bytes) (c : Call)
      → (manager_call b m ns c).1.backends ≡ m.backends
  call-backends m ns c =
      (λ i. (manager_call-at m ns c i).1.backends) ∙ at-backends m ns c (lookup ns m.backends)

  call-other :
      (m : NamespaceManager b) (ns : Bytes) (c : Call) (j : ℕ)
      → is_own j (lookup ns m.backends) ≡ false
      → (manager_call b m ns c).1.objects j ≡ m.objects j
  call-other m ns c j h =
      (λ i. (manager_call-at m ns c i).1.objects j) ∙ at-other m ns c (lookup ns m.backends) j h

  call-own :
      (m : NamespaceManager b) (ns : Bytes) (c : Call) (j : ℕ)
      → is_own j (lookup ns m.backends) ≡ true
      → let r = manager_call b m ns c in
        ◌≡◌ {A = Answer × b.State} (r.0, r.1.objects j) (object_call b (m.objects j) c)
  call-own m ns c j h =
      (λ i. ((manager_call-at m ns c i).0, (manager_call-at m ns c i).1.objects j))
      ∙ at-own m ns c (lookup ns m.backends) j h

  abbrev then_run : Answer × b.State → List Call → List Answer × b.State
  then_run r calls = let (answers, end) = object_run b r.1 calls in (r.0 ∷ answers, end)

  isolated :
      (j : ℕ) (bs : List (Bytes × ℕ)) (m : NamespaceManager b) (calls : List (Bytes × Call))
      → m.backends ≡ bs
      → let r = manager_run b m calls in
        ◌≡◌ {A = List Answer × b.State}
          (own_answers j bs calls r.0, r.1.objects j)
          (object_run b (m.objects j) (own_calls j bs calls))
  isolated j bs m [] h = refl
  isolated j bs m ((ns, c) ∷ calls) h =
      let rest = isolated j bs (manager_call b m ns c).1 calls (call-backends m ns c ∙ h) in
      elim (Bool-cases (is_own j (lookup ns bs))) [
        | inl own ↦ simp (own) (
            (λ i. ((manager_call b m ns c).0 ∷ (rest i).0, (rest i).1))
            ∙ (λ i. then_run (call-own m ns c j (here true own) i) (own_calls j bs calls)))
        | inr other ↦ simp (other) (
            rest
            ∙ (λ i. object_run b (call-other m ns c j (here false other) i) (own_calls j bs calls)))
      ]
    where
      here : (t : Bool) → is_own j (lookup ns bs) ≡ t → is_own j (lookup ns m.backends) ≡ t
      here t e = (λ i. is_own j (lookup ns (h i))) ∙ e

-- In every sequence of calls through the manager, of any namespaces, the calls whose namespace is
-- registered with an object are answered, and leave the object, as if they alone had been made on
-- the object directly: calls of namespaces of other objects and of none do not reach it, and
-- namespaces that share an object see each other's calls in their order.
pub manager_run-isolated :
    (b : StorageBackend) (j : ℕ) (m : NamespaceManager b) (calls : List (Bytes × Call))
    → let r = manager_run b m calls in
      ◌≡◌ {A = List Answer × b.State}
        (own_answers j m.backends calls r.0, r.1.objects j)
        (object_run b (m.objects j) (own_calls j m.backends calls))
manager_run-isolated b j m calls = isolated b j m.backends m calls refl
