-- ===== src/Lib.antt =====
-- ParaKV, a key-value cache store on local disks.
--
-- The parts of the program and how they interact. An index (parakv/core/index) maps keys to
-- tagged 64-bit addresses and logs its changes in a write-ahead log. The addresses name slots of
-- segments (parakv/core/segment): files with a bitmap of the occupied slots, followed by slots of
-- one size for a key and a value. Backends (parakv/core/kvcache_storage) put an index and a
-- segment manager together and are reached through an RPC service (parakv/service).
--
-- What models what. An operation is a function of the state that returns a status, its outputs
-- and the new state. An operation of a segment, the log's writer or the manager holds its object's
-- lock throughout and so is one step. `Index` locks only parts of its map: the model runs its
-- operations one after another, and interleavings of two of them are not modelled.
--   Status: parakv/common/status.h.
--   Io: files, the outcomes of system calls, and the loops that repeat a call until a buffer is
--     through: `PWriteAll` and `ReadAll` (parakv/core/index/wal.cc), `SegmentFile::PWrite` and
--     `SegmentFile::PRead` (parakv/core/segment/segment_file.cc).
--   Index.Offset: `OffsetCodec` (parakv/core/index/offset.h). Index.Key: `Key128`
--     (parakv/core/index/key.h).
--   Index.Wal: `Crc32`, `WalRecord`, `WalWriter` and `WalReader` (parakv/core/index/wal.h,
--     parakv/core/index/wal.cc), in the children Crc, Record, Writer and Reader.
--   Segment.Base: `SegmentBase` (parakv/core/segment/segment_base.cc), with the bitmap operations
--     in Segment.Bitmap; Segment.File: `SegmentFile` (parakv/core/segment/segment_file.cc), with
--     `BatchInsert` and `Compact` in Segment.File.Batch. Segment.BlockDev: `SegmentBlockDev`
--     (parakv/core/segment/segment_block_dev.cc) over the interface `BlockDeviceIO`, whose
--     implementations are not in the repository: they are a parameter with named laws. Segments
--     share the device, which is a state of its own.
--   Segment.Manager: `SegmentManager` (parakv/core/segment/segment_manager.cc); a pointer to a
--     segment is its id. Segment.Manager.State: its state file; Segment.Manager.Compaction and
--     Segment.Manager.Heat: `RunCompaction` and `EvaluateHotCold`.
--   Index.Table: the map of the phmap library, as an interface with the laws of a map.
--   Index.Store: `Index` (parakv/core/index/index.h, parakv/core/index/index.cc), its log,
--     checkpoints and recovery; Index.Store.Access: the data path.
--   Cache: `lfuda_cache` (parakv/core/cache/lfuda_cache.h).
--   Storage: the interface of a backend (parakv/core/kvcache_storage/kvcache_storage_backend.h).
--     Storage.Memory: `MockedInMemoryKVCacheStorage`. Storage.Namespaces:
--     `BackendNamespaceManager`. Storage.Registry: `BackendConfig` and `BackendRegistry`
--     (parakv/core/kvcache_storage/backend_registry.cc), with the options of the two registered
--     backends in Storage.Registry.Builtin. Storage.Payload and Storage.Indexed:
--     `IndexKVCacheStorageBackend` over an index and a cache, which Storage.Indexed.Lfuda fills.
--     Storage.Indexed.Opening: `EnsureDir` and `CreateContext`, where the keys of the map are taken
--     before the cache is filled.
--   Service: the handlers of `KVCacheStorageServiceImpl`
--     (parakv/service/kvcache_storage_service_impl.cc).
--
-- Bounds and fuel. Machine integers are natural numbers, with the wrap-around written out as a
-- remainder. What the operating system answers is a list of outcomes that the loops recur on, so
-- they need no fuel; a call beyond the list goes through. `replay` recurs on fuel, one unit for
-- a record and one for the end of the log; `Open` gives it one more unit than the log has bytes.
--
-- The clock is a sequence of readings or an argument. `do_dynamic_age` recurs on fuel, one unit more
-- than there are elements in use, and `EvaluateHotCold` on one more than there are hot segments;
-- each turn of their loops makes an element younger and takes a segment out of the set.
--
-- Not modelled: the statistics thread of an indexed backend and the range forms of the cache;
-- start-up, flags, RPC and etcd, which are calls of third-party libraries; the file-system calls
-- themselves, which are parameters. Of `LoadState`, a read that ends before the size of the file
-- and a count of ids that cannot be allocated are left out: the file is read whole, or the read
-- fails. Where the source's behaviour is undefined, the models say what they do: the erasure inside
-- the loop of `GetActiveSegment`, and an insertion into a cache of capacity 0.
pub mod Prelude
pub mod Status
pub mod Io
pub mod Index
pub mod Segment
pub mod Cache
pub mod Storage
pub mod Service
pub mod Tests
