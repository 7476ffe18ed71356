-- ===== src/Segment.antt =====
-- Segments of fixed-size slots (parakv/core/segment).
pub mod Bitmap
pub mod Base
pub mod File
pub mod BlockDev
pub mod Manager
