-- ===== src/WalAppender.antt =====
-- internal/fsm/walappender/walappender.go: how a node writes committed frames to its own WAL.
pub mod Lock
pub mod Append
pub mod Rewind
pub mod Exclusion
pub mod Sealed
pub mod Published
pub mod Indexed
pub mod Stored
pub mod Header
pub mod Ready
pub mod Outcome
pub mod Progress
pub mod Restart
pub mod Represents
pub mod Bootstrap
pub mod Refinement
pub mod Atomic
