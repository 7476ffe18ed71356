-- ===== src/Tests/Services.antt =====
-- A run from a write to a read through the service (parakv/service).
use para_kv.Prelude.{true, ◌≡◌, false, [], ◌∷◌, refl, arith}
use para_kv.Storage.Memory.{memory_storage}
use para_kv.Storage.Namespaces.{NamespaceManager}
use para_kv.Service.{StatusCode, batch_write, batch_read}
use para_kv.Service.ReadBack.{write_one, read_one, batch_read-batch_write}
use para_kv.Tests.Backends.{memory, manager, key_a, key_b, service_options, plain_read}

-- The backends of `manager`, without a default life.
abbrev lasting_manager : NamespaceManager memory_storage
lasting_manager = record {
  backends = manager.backends;
  objects = λ i. record memory { default_ttl_ms = 0 };
}

batch_read-batch_write_example :
    let written =
      batch_write memory_storage service_options
        (write_one key_a key_b (4 ∷ 5 ∷ []) (6 ∷ []) true false)
        lasting_manager in
    (batch_read memory_storage service_options
      (read_one key_a key_b plain_read)
      written.1).0.results
    ≡ record {
      key = key_b;
      value = 4 ∷ 5 ∷ [];
      metadata = 6 ∷ [];
      code = StatusCode.ok;
      message = [];
      expiration_ms = 0;
    }
      ∷ []
batch_read-batch_write_example =
    batch_read-batch_write service_options lasting_manager key_a key_b (4 ∷ 5 ∷ []) (6 ∷ []) true
      false plain_read 0 (omega arith) (omega arith) refl refl refl refl refl refl
