-- ===== src/Storage.antt =====
-- The backend interface (parakv/core/kvcache_storage/kvcache_storage_backend.h): codes, options
-- and results, and what a backend offers. A `std::string` is its bytes.
pub mod Memory
pub mod Namespaces
pub mod Payload
pub mod Registry
pub mod Indexed
use para_kv.Prelude.{ℕ, Bool, [], false, true}
use para_kv.Prelude.Bytes.{Bytes}

pub data BackendCode : Type 0 where
  ok not_found already_exists value_too_large storage_full io_error : BackendCode
  unavailable corrupted invalid_argument : BackendCode

pub record WriteOptions : Type 0 where
  pub overwrite : Bool
  pub durable : Bool
  pub ttl_ms : ℕ

pub record ReadOptions : Type 0 where
  pub include_value : Bool
  pub touch_on_hit : Bool

pub record WriteResult : Type 0 where
  pub code : BackendCode
  pub message : Bytes

pub record ReadResult : Type 0 where
  pub code : BackendCode
  pub message : Bytes
  pub value : Bytes
  pub metadata : Bytes
  pub expiration_ms : ℕ

-- `{code, message, {}, {}, 0}`
abbrev pub failed_read : BackendCode → Bytes → ReadResult
failed_read code message = record {
  code = code;
  message = message;
  value = [];
  metadata = [];
  expiration_ms = 0;
}

-- `KVCacheStorageBackend`: the virtual functions, over the state of an object.
pub record StorageBackend : Type 1 where
  pub State : Type 0
  pub put : State → Bytes → Bytes → Bytes → WriteOptions → WriteResult × State
  pub get : State → Bytes → ReadOptions → ReadResult × State
  pub delete : State → Bytes → WriteResult × State
  pub close : State → State
