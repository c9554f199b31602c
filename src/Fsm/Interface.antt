-- ===== src/Fsm/Interface.antt =====
-- What the state machine asks of internal/fsm/walappender: to append frames under a write lock, and
-- to take and give back that lock.
use literaft.Base.{ℕ, Bool, Option, List}
use literaft.Errors.{Error}
use literaft.Wal.Frame.{Frame}

-- A HeldLock, by its identity; whether it is released is the appender's state.
abbrev pub HeldLock : Type 0
HeldLock = ℕ

-- How an append ends: an error, nil as `none`, and the new state; a panic of the appender; or a
-- search in the wal-index, or a wait for the lock, that never ends.
pub data Appended (S : Type 0) : Type 0 where
  appended : Option Error → S → Appended S
  append_panicked : Appended S
  append_endless : Appended S

-- `acquire` is told whether its context expires.
pub record Appender : Type 1 where
  pub State : Type 0
  pub append_under_lock : HeldLock → List Frame → State → Appended State
  pub append_frames : List Frame → State → Appended State
  pub acquire : Bool → State → Option HeldLock × State
  pub release : HeldLock → State → State
