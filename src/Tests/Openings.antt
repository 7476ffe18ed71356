-- ===== src/Tests/Openings.antt =====
-- The creation of an indexed backend in a new directory
-- (parakv/core/kvcache_storage/index_kvcache_storage_backend.cc).
use para_kv.Prelude.{◌≡◌, refl, true, false, none, List, [], ◌∷◌, arith}
use para_kv.Io.{Transfer, moved, interrupted, pwrite_all}
use para_kv.Index.Store.{Options}
use para_kv.Index.Wal.Writer.{open_writer}
use para_kv.Segment.Base.{SegmentConfig, calculate_layout}
use para_kv.Segment.Base.Layout.{IsSmall}
use para_kv.Segment.File.{blank}
use para_kv.Storage.{BackendCode}
use para_kv.Storage.Indexed.{IndexedStorage}
use para_kv.Storage.Indexed.Lfuda.{lfu_calls}
use para_kv.Storage.Indexed.Opening.{SegmentCalls, ContextCalls, create_context, ensure_dir}
use para_kv.Storage.Indexed.Created.{FitsOffsets}
use para_kv.Storage.Indexed.Ready.{IsNew, HasServed, create_context-HasServed}
use para_kv.Tests.Stores.{function_map, function_map-IsMap}

-- `/a/bc/` is made in two steps.
ensure_dir_runs :
    ensure_dir (λ d. true) false (47 ∷ 97 ∷ 47 ∷ 98 ∷ 99 ∷ 47 ∷ [])
    ≡ ((47 ∷ 97 ∷ []) ∷ (47 ∷ 97 ∷ 47 ∷ 98 ∷ 99 ∷ []) ∷ [], true)
unfolding ensure_dir
ensure_dir_runs = refl

abbrev config : SegmentConfig
config = record { key_size = 16; value_size = 40; segment_size = 5000; bitmap_alignment = 4096 }

config-IsSmall : IsSmall config
config-IsSmall = record {
  slot_pos = omega arith;
  slot_fits = omega arith;
  size_fits = omega arith;
  estimate_fits = omega arith;
  align_fits = omega arith;
}

config-FitsOffsets : FitsOffsets config 2
unfolding calculate_layout
config-FitsOffsets = record {
  small = config-IsSmall;
  bitmap = omega arith;
  slots = omega arith;
  ids = omega arith;
}

abbrev options : Options
options = record {
  key_size = 16;
  segment_key_size = 16;
  value_size = 40;
  has_wal_path = true;
  has_snapshot_dir = true;
  wal_checkpoint_bytes = 1000;
}

-- The first write of the first segment is short and then interrupted.
abbrev new_segment : List Transfer → SegmentCalls
new_segment script = record {
  file = blank 0;
  script = script;
  file_exists = false;
  opened = true;
  truncated = true;
}

abbrev no_backend : IndexedStorage function_map (lfu_calls (λ n. n)) options
no_backend = record {
  context = none;
  calls = λ _. record { dumped = true; renamed = true; reopened = true; stated = true };
  used = 0;
  save_calls = record { created = true; written = true; synced = true; renamed = true };
  state_file = none;
}

abbrev new_calls : ContextCalls function_map (lfu_calls (λ n. n)) options
new_calls = record {
  segment_size = config.segment_size;
  root_dir_made = true;
  segments = new_segment (moved 1 ∷ interrupted ∷ []) ∷ new_segment [] ∷ [];
  state_opened = true;
  state_read = true;
  snapshot = none;
  wal = record { is_open = false; file = blank 0; bytes_written = 0; script = []; syncs = [] };
  index_calls = record {
    wal_exists = false;
    reader_opened = true;
    reads = [];
    truncated = true;
    writer_opened = true;
    writer_stated = true;
  };
  new_cache = none;
  keys_of = λ m. [];
}

new_calls-IsNew :
    IsNew function_map function_map-IsMap (lfu_calls (λ n. n)) options new_calls no_backend
new_calls-IsNew = record {
  no_context = refl;
  new_files = (refl, (refl, tt));
  no_state = refl;
  no_snapshot = refl;
  no_wal = refl;
  no_keys = refl;
  fits = config-FitsOffsets;
}

new_calls-ok :
    (create_context function_map (lfu_calls (λ n. n)) options new_calls no_backend).0
    ≡ BackendCode.ok
unfolding create_context pwrite_all open_writer
new_calls-ok = refl

create_context-HasServed_example :
    HasServed function_map function_map-IsMap
      (lfu_calls (λ n. n))
      options
      new_calls
      no_backend
      (create_context function_map (lfu_calls (λ n. n)) options new_calls no_backend).1.context
create_context-HasServed_example =
    create_context-HasServed function_map function_map-IsMap (lfu_calls (λ n. n)) options new_calls
      no_backend new_calls-IsNew new_calls-ok
