-- ===== src/BinaryCache.antt =====
-- crates/binary-cache: what is stored beside the archives of a cache.
pub mod Compression
pub mod NarInfo
