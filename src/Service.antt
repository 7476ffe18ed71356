-- ===== src/Service.antt =====
-- `KVCacheStorageServiceImpl` (parakv/service/kvcache_storage_service_impl.h,
-- parakv/service/kvcache_storage_service_impl.cc), with the messages of its requests and
-- responses. A handler is a function of the request and of the namespace manager; a field that is
-- not set has its default. Logging and the completion of the call are left out.
pub mod Batches
pub mod Splits
pub mod ReadBack
use para_kv.Prelude.{
  ℕ, ◌+◌, ◌%◌, ◌^◌, Bool, true, false, ◌&&◌, List, [], ◌∷◌, ltb, ◌==◌, length, if◌then◌else◌,
}
use para_kv.Prelude.Bytes.{Bytes}
use para_kv.Prelude.Text.{text}
use para_kv.Storage.{
  BackendCode, WriteOptions, ReadOptions, WriteResult, ReadResult, StorageBackend,
}
use para_kv.Storage.Namespaces.{NamespaceManager, put, get, delete}

pub data StatusCode : Type 0 where
  ok unknown invalid_argument not_found already_exists value_too_large : StatusCode
  storage_full io_error unavailable deadline_exceeded permission_denied : StatusCode
  data_corrupted : StatusCode

abbrev pub to_proto_code : BackendCode → StatusCode
to_proto_code BackendCode.ok = StatusCode.ok
to_proto_code BackendCode.not_found = StatusCode.not_found
to_proto_code BackendCode.already_exists = StatusCode.already_exists
to_proto_code BackendCode.value_too_large = StatusCode.value_too_large
to_proto_code BackendCode.storage_full = StatusCode.storage_full
to_proto_code BackendCode.io_error = StatusCode.io_error
to_proto_code BackendCode.unavailable = StatusCode.unavailable
to_proto_code BackendCode.corrupted = StatusCode.data_corrupted
to_proto_code BackendCode.invalid_argument = StatusCode.invalid_argument

-- `r.code == BackendCode::kOk`
abbrev pub is_ok : BackendCode → Bool
is_ok BackendCode.ok = true
is_ok _ = false

pub record ServiceOptions : Type 0 where
  pub max_batch_size : ℕ
  pub max_value_bytes : ℕ

pub record KvItem : Type 0 where
  pub key : Bytes
  pub value : Bytes
  pub ttl_ms : ℕ
  pub metadata : Bytes

pub record BatchWriteRequest : Type 0 where
  pub namespace : Bytes
  pub items : List KvItem
  pub overwrite : Bool
  pub durable : Bool

pub record BatchReadRequest : Type 0 where
  pub namespace : Bytes
  pub keys : List Bytes
  pub include_value : Bool
  pub touch_on_hit : Bool

pub record BatchDeleteRequest : Type 0 where
  pub namespace : Bytes
  pub keys : List Bytes

-- `BatchWriteResult` and `BatchDeleteResult`, which have the same fields.
pub record ItemResult : Type 0 where
  pub key : Bytes
  pub code : StatusCode
  pub message : Bytes

pub record BatchReadResult : Type 0 where
  pub key : Bytes
  pub value : Bytes
  pub metadata : Bytes
  pub code : StatusCode
  pub message : Bytes
  pub expiration_ms : ℕ

-- A response of any of the handlers: the counts are of successes and failures, for a read of hits
-- and misses.
pub record BatchResponse (R : Type 0) : Type 0 where
  pub code : StatusCode
  pub message : Bytes
  pub results : List R
  pub success_count : ℕ
  pub failure_count : ℕ

-- A response that returns before the loop.
abbrev pub refused : {R : Type 0} → Bytes → BatchResponse R
refused message = record {
  code = StatusCode.invalid_argument;
  message = message;
  results = [];
  success_count = 0;
  failure_count = 0;
}

-- `++success` or `++failure`, on 32 bits.
abbrev pub count : Bool → ℕ × ℕ → ℕ × ℕ
count true (success, failure) = ((success + 1) % 2 ^ 32, failure)
count false (success, failure) = (success, (failure + 1) % 2 ^ 32)

module _ {M I R : Type 0} (step : I → M → (R × Bool) × M) where
  -- The loop over the items: a result for each, and the counts.
  abbrev pub batch_loop : List I → ℕ × ℕ → M → (List R × (ℕ × ℕ)) × M
  batch_loop [] counts m = (([], counts), m)
  batch_loop (item ∷ items) counts m =
      let ((r, success), n) = step item m in
      let ((results, total), end) = batch_loop items (count success counts) n in
      ((r ∷ results, total), end)

  -- The frame of a handler: the tests of the batch's size, the loop, and the response.
  abbrev pub batch : ServiceOptions → List I → M → BatchResponse R × M
  batch options [] m = (refused (text "empty batch"), m)
  batch options (item ∷ items) m =
      let ((results, counts), end) = batch_loop (item ∷ items) (0, 0) m in
      if ltb options.max_batch_size (length (item ∷ items) % 2 ^ 32)
      then (refused (text "batch too large"), m)
      else (
        record {
          code = StatusCode.ok;
          message = [];
          results = results;
          success_count = counts.0;
          failure_count = counts.1;
        },
        end,
      )

-- `FillItemError` of a write or a delete, and of a read.
abbrev pub item_error : Bytes → StatusCode → Bytes → ItemResult
item_error key code message = record { key = key; code = code; message = message }

abbrev pub read_error : Bytes → StatusCode → Bytes → BatchReadResult
read_error key code message = record {
  key = key;
  value = [];
  metadata = [];
  code = code;
  message = message;
  expiration_ms = 0;
}

-- The answer of the manager to a write or a delete, as a result of the batch.
abbrev pub item_result : Bytes → WriteResult → ItemResult × Bool
item_result key r =
    (record { key = key; code = to_proto_code r.code; message = r.message }, is_ok r.code)

-- `opts.include_value` decides whether the value of a hit is copied.
abbrev pub read_result : Bytes → ReadOptions → ReadResult → BatchReadResult × Bool
read_result key opts r = (
  record {
    key = key;
    value = if is_ok r.code && opts.include_value then r.value else [];
    metadata = if is_ok r.code then r.metadata else [];
    code = to_proto_code r.code;
    message = r.message;
    expiration_ms = r.expiration_ms;
  },
  is_ok r.code,
)

-- `key.empty()`
abbrev pub is_empty : Bytes → Bool
is_empty [] = true
is_empty (c ∷ key) = false

module _ (b : StorageBackend) (options : ServiceOptions) where
  abbrev pub write_item :
      BatchWriteRequest → KvItem → NamespaceManager b → (ItemResult × Bool) × NamespaceManager b
  write_item request item m =
      let opts : WriteOptions = record {
        overwrite = request.overwrite;
        durable = request.durable;
        ttl_ms = item.ttl_ms;
      } in
      let (r, n) = put b m request.namespace item.key item.value item.metadata opts in
      if is_empty item.key
      then ((item_error item.key StatusCode.invalid_argument (text "empty key"), false), m)
      else if ltb 0 options.max_value_bytes && ltb options.max_value_bytes (length item.value)
      then (
        (
          item_error item.key StatusCode.value_too_large (text "value exceeds service limit"),
          false,
        ),
        m,
      )
      else (item_result item.key r, n)

  unfoldable pub batch_write :
      BatchWriteRequest → NamespaceManager b → BatchResponse ItemResult × NamespaceManager b
  batch_write request m = batch (write_item request) options request.items m

  abbrev pub read_key :
      BatchReadRequest → Bytes → NamespaceManager b → (BatchReadResult × Bool) × NamespaceManager b
  read_key request key m =
      let opts : ReadOptions = record {
        include_value = request.include_value;
        touch_on_hit = request.touch_on_hit;
      } in
      let (r, n) = get b m request.namespace key opts in
      if is_empty key
      then ((read_error key StatusCode.invalid_argument (text "empty key"), false), m)
      else (read_result key opts r, n)

  unfoldable pub batch_read :
      BatchReadRequest → NamespaceManager b → BatchResponse BatchReadResult × NamespaceManager b
  batch_read request m = batch (read_key request) options request.keys m

  abbrev pub delete_item :
      BatchDeleteRequest → Bytes → NamespaceManager b → (ItemResult × Bool) × NamespaceManager b
  delete_item request key m =
      let (r, n) = delete b m request.namespace key in
      if is_empty key
      then ((item_error key StatusCode.invalid_argument (text "empty key"), false), m)
      else (item_result key r, n)

  unfoldable pub batch_delete :
      BatchDeleteRequest → NamespaceManager b → BatchResponse ItemResult × NamespaceManager b
  batch_delete request m = batch (delete_item request) options request.keys m
