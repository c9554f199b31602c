-- ===== src/Wal.antt =====
-- internal/wal: the -wal file's header, its frames and their running checksums.
pub mod Checksum
pub mod Frame
pub mod Header
pub mod Offsets
