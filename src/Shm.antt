-- ===== src/Shm.antt =====
-- internal/fsm/walappender/shm: the wal-index, which SQLite and the appender share.
pub mod Header
pub mod Checkpoint
pub mod Layout
pub mod Memory
pub mod Copies
pub mod RoundTrip
pub mod Rewind
pub mod Table
pub mod Segment
pub mod Insert
pub mod Frames
pub mod Fields
