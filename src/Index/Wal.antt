-- ===== src/Index/Wal.antt =====
-- The write-ahead log (parakv/core/index/wal.h, parakv/core/index/wal.cc).
pub mod Crc
pub mod Record
pub mod Writer
pub mod Reader
