-- ===== src/Index.antt =====
-- The index: address codec, write-ahead log, and the map from keys to addresses.
pub mod Key
pub mod Offset
pub mod Wal
pub mod Table
pub mod Store
