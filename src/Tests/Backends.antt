-- ===== src/Tests/Backends.antt =====
-- Runs of the backends, the namespaces and the service
-- (parakv/core/kvcache_storage, parakv/service).
use para_kv.Prelude.{
  ◌+◌, ◌≡◌, ◌≤◌, ◌<◌, ◌&&◌, ◌⊎◌, true, false, some, List, [], ◌∷◌, ◌++◌, length, refl, arith,
  if◌then◌else◌, inr,
}
use para_kv.Prelude.Bytes.{Bytes, bytes_eq}
use para_kv.Prelude.Maps.{lookup}
use para_kv.Storage.{BackendCode, WriteOptions, ReadOptions}
use para_kv.Storage.Memory.{Entry, MemoryStorage, memory_storage, new_entry, ttl_of}
use para_kv.Storage.Memory
use para_kv.Storage.Memory.Expiry.{live, accepts, put-live}
use para_kv.Storage.Namespaces.{NamespaceManager}
use para_kv.Storage.Namespaces.Calls.{
  Call, put_call, get_call, Answer, object_run, manager_run, own_calls, own_answers,
}
use para_kv.Storage.Namespaces.Isolation.{manager_run-isolated}
use para_kv.Storage.Payload.{header_bytes, encode_payload, decode_payload}
use para_kv.Storage.Payload.RoundTrip.{decode_payload-encode_payload}
use para_kv.Service.{
  StatusCode, ServiceOptions, KvItem, ItemResult, BatchWriteRequest, BatchReadRequest,
  BatchDeleteRequest, batch_write,
}
use para_kv.Service.Batches.{Processed, batch_write-Processed}
use para_kv.Service.Splits.{batch_write-refused, batch_write-append}

abbrev pub key_a : Bytes
key_a = 97 ∷ []

abbrev pub key_b : Bytes
key_b = 98 ∷ []

-- A clock that goes on by 10 ms from reading to reading, and an entry that runs out at 50 ms.
abbrev old_entry : Entry
old_entry = record { value = 1 ∷ 2 ∷ []; metadata = 3 ∷ []; expiration_ms = 50 }

abbrev pub memory : MemoryStorage
memory = record {
  max_value_bytes = 4;
  default_ttl_ms = 100;
  store = (key_a, old_entry) ∷ [];
  readings = λ n. 30 + (n + (n + n));
  taken = 0;
}

abbrev pub plain_read : ReadOptions
plain_read = record { include_value = true; touch_on_hit = false }

abbrev careful_write : WriteOptions
careful_write = record { overwrite = false; durable = false; ttl_ms = 7 }

put-live_example :
    let r = Memory.put memory key_b (9 ∷ []) [] careful_write in
    let accepted = accepts careful_write.overwrite (live memory 33 key_b) in
    let entry : Entry = record { value = 9 ∷ []; metadata = []; expiration_ms = 37 } in
    (r.0.code ≡ (if accepted then BackendCode.ok else BackendCode.already_exists))
    × (lookup key_b r.1.store
        ≡ (if accepted && bytes_eq key_b key_b then some entry else lookup key_b memory.store))
put-live_example = put-live memory key_b (9 ∷ []) [] careful_write key_b refl

-- Two namespaces with one object, and a third.
abbrev pub manager : NamespaceManager memory_storage
manager = record { backends = (key_a, 0) ∷ (key_b, 1) ∷ (99 ∷ [], 0) ∷ []; objects = λ i. memory }

abbrev some_calls : List (Bytes × Call)
some_calls =
    (key_a, put_call key_b (5 ∷ []) [] careful_write)
    ∷ (key_b, get_call key_b plain_read)
    ∷ (99 ∷ [], get_call key_b plain_read)
    ∷ []

manager_run-isolated_example :
    let r = manager_run memory_storage manager some_calls in
    ◌≡◌ {A = List Answer × MemoryStorage}
      (own_answers 0 manager.backends some_calls r.0, r.1.objects 0)
      (object_run memory_storage (manager.objects 0) (own_calls 0 manager.backends some_calls))
manager_run-isolated_example = manager_run-isolated memory_storage 0 manager some_calls

decode_payload-encode_payload_example :
    let (code, payload, err) = encode_payload 16 (1 ∷ 2 ∷ []) (3 ∷ []) in
    ((header_bytes + (2 + 1) ≤ 16)
      × (code ≡ BackendCode.ok)
      × (length payload ≡ 16)
      × (decode_payload payload ≡ (BackendCode.ok, 1 ∷ 2 ∷ [], 3 ∷ [], [])))
    ⊎ ((16 < header_bytes + (2 + 1)) × (code ≡ BackendCode.value_too_large) × (payload ≡ []))
decode_payload-encode_payload_example =
    decode_payload-encode_payload 16 (1 ∷ 2 ∷ []) (3 ∷ []) (omega arith) (omega arith) (omega arith)

abbrev pub service_options : ServiceOptions
service_options = record { max_batch_size = 3; max_value_bytes = 0 }

abbrev item : Bytes → Bytes → KvItem
item key value = record { key = key; value = value; ttl_ms = 0; metadata = [] }

abbrev write_request : BatchWriteRequest
write_request = record {
  namespace = key_a;
  items = item key_b (7 ∷ []) ∷ item [] [] ∷ item key_a (8 ∷ []) ∷ [];
  overwrite = false;
  durable = false;
}

abbrev read_request : BatchReadRequest
read_request = record {
  namespace = key_a;
  keys = key_a ∷ key_b ∷ [];
  include_value = true;
  touch_on_hit = false;
}

abbrev delete_request : BatchDeleteRequest
delete_request = record { namespace = key_b; keys = key_a ∷ key_a ∷ [] }

batch_write-Processed_example :
    Processed
      (λ (i : KvItem). i.key)
      (λ (r : ItemResult). r.key)
      (λ r. r.code)
      write_request.items
      (batch_write memory_storage service_options write_request manager).0
batch_write-Processed_example =
    batch_write-Processed memory_storage service_options write_request manager (omega arith)
      (omega arith) (omega arith)

abbrev four_items : BatchWriteRequest
four_items = record write_request { items = item key_b [] ∷ write_request.items }

batch_write-refused_example :
    let r = batch_write memory_storage service_options four_items manager in
    (r.0.code ≡ StatusCode.invalid_argument) × (r.0.results ≡ []) × (r.1 ≡ manager)
batch_write-refused_example =
    batch_write-refused memory_storage service_options four_items manager (omega arith)
      (inr (omega arith))

batch_write-append_example :
    let whole =
      batch_write memory_storage service_options
        (record write_request { items = (item key_b (7 ∷ []) ∷ []) ++ (item key_b [] ∷ []) })
        manager in
    let first =
      batch_write memory_storage service_options
        (record write_request { items = item key_b (7 ∷ []) ∷ [] })
        manager in
    let second =
      batch_write memory_storage service_options
        (record write_request { items = item key_b [] ∷ [] })
        first.1 in
    ◌≡◌ {A = List ItemResult × NamespaceManager memory_storage}
      (whole.0.results, whole.1)
      (first.0.results ++ second.0.results, second.1)
batch_write-append_example =
    batch_write-append memory_storage service_options write_request (item key_b (7 ∷ []) ∷ [])
      (item key_b [] ∷ []) manager (omega arith) (omega arith) (omega arith) (omega arith)
