-- ===== src/Storage/Registry/Builtin.antt =====
-- The options of the two backends registered at the end of
-- parakv/core/kvcache_storage/backend_registry.cc. The flags of the process are an argument.
use para_kv.Prelude.{ℕ, ◌∷◌, ◌++◌}
use para_kv.Prelude.Bytes.{Bytes}
use para_kv.Prelude.Text.{text}
use para_kv.Storage.Namespaces.{sanitize_ns}
use para_kv.Storage.Registry.{BackendConfig, Parsed, get_string, get_uint}

-- The options of `MockedInMemoryKVCacheStorage`.
pub record MemoryOptions : Type 0 where
  pub max_value_bytes : ℕ
  pub default_ttl_ms : ℕ

-- The factory of "kvcache_memory".
unfoldable pub memory_options : (Bytes → Parsed ℕ) → BackendConfig → MemoryOptions
memory_options strtoull cfg = record {
  max_value_bytes = get_uint strtoull cfg (text "max_value_bytes") 0;
  default_ttl_ms = get_uint strtoull cfg (text "default_ttl_ms") 0;
}

-- `Ratio` is what the flags and the options have for a `double`.
module _ (Ratio : Type 0) where
  pub record Flags : Type 0 where
    pub segment_workspace_path : Bytes
    pub segment_size : ℕ
    pub segment_value_size : ℕ
    pub segment_count : ℕ
    pub index_wal_checkpoint_bytes : ℕ
    pub lfu_capacity_ratio : Ratio
    pub lfu_age_tick_sec : ℕ

  -- The options of `IndexKVCacheStorageBackend`.
  pub record IndexOptions : Type 0 where
    pub root_dir : Bytes
    pub namespace_name : Bytes
    pub segment_size : ℕ
    pub slot_value_size : ℕ
    pub segment_count : ℕ
    pub wal_checkpoint_bytes : ℕ
    pub stats_interval_sec : ℕ
    pub lfu_capacity_ratio : Ratio
    pub lfu_age_tick_sec : ℕ

  -- The factory of "kvcache_index128".
  unfoldable pub index_options : Flags → BackendConfig → IndexOptions
  index_options flags cfg =
      let ns = get_string cfg (text "namespace") (text "default") in
      record {
        root_dir = flags.segment_workspace_path ++ (47 ∷ sanitize_ns ns);
        namespace_name = ns;
        segment_size = flags.segment_size;
        slot_value_size = flags.segment_value_size;
        segment_count = flags.segment_count;
        wal_checkpoint_bytes = flags.index_wal_checkpoint_bytes;
        stats_interval_sec = 10;
        lfu_capacity_ratio = flags.lfu_capacity_ratio;
        lfu_age_tick_sec = flags.lfu_age_tick_sec;
      }
