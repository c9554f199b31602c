-- ===== src/WalAppender/Lock.antt =====
-- internal/fsm/walappender/walappender.go: the write lock, which is a token in a channel in front of
-- a lock of the operating system, and the checkpoint that its release can start.
use literaft.Base.{
  ℕ, suc, ◌≡◌, ◌<◌, Bool, true, false, not, Option, none, some, leb, ◌==◌, if◌then◌else◌,
}
use literaft.Errors.{Error}

-- `token` says whether the token is in its channel, `os_locked` whether this process has
-- WAL_WRITE_LOCK. A HeldLock is a number below `next`. `checkpoints` counts the calls of
-- WALCheckpoint; what such a call does is SQLite's.
pub record Locks : Type 0 where
  pub token : Bool
  pub os_locked : Bool
  pub released : ℕ → Bool
  pub next : ℕ
  pub dirty_page_count : ℕ
  pub threshold : ℕ
  pub closed : Bool
  pub checkpoints : ℕ

-- Open puts the token in the channel.
abbrev pub unlocked : ℕ → Locks
unlocked threshold = record {
  token = true;
  os_locked = false;
  released = λ h. false;
  next = 0;
  dirty_page_count = 0;
  threshold = threshold;
  closed = false;
  checkpoints = 0;
}

pub data Acquired : Type 0 where
  held : ℕ → Acquired
  refused : Acquired
  blocked : Acquired

-- AcquireWriteLock. `expired`: the select takes the case of the context. `os` is lockOFD's error;
-- on a closed file lockOFD fails, and the token goes back.
unfoldable pub acquire_write_lock : Bool → Option Error → Locks → Acquired × Locks
acquire_write_lock true os s = (refused, s)
acquire_write_lock false (some e) s = if s.token then (refused, s) else (blocked, s)
acquire_write_lock false none s =
    if not s.token
    then (blocked, s)
    else if s.closed
    then (refused, s)
    else (held s.next, record s { token = false; os_locked = true; next = suc s.next })

unfoldable pub checkpoint : Locks → Locks
checkpoint s = if s.closed then s else record s { checkpoints = suc s.checkpoints }

unfoldable pub maybe_threshold_checkpoint : Locks → Locks
unfolding checkpoint
maybe_threshold_checkpoint s =
    if leb s.threshold s.dirty_page_count then checkpoint (record s { dirty_page_count = 0 }) else s

unfoldable pub release : ℕ → Locks → Locks
unfolding maybe_threshold_checkpoint
release h s =
    if s.released h
    then s
    else maybe_threshold_checkpoint (record s {
      released = λ q. if q == h then true else s.released q;
      os_locked = false;
      token = true;
    })

-- Frames are appended under a lock of this appender that is not released.
abbrev pub IsHeld : ℕ → Locks → Type 0
IsHeld h s = (h < s.next) × (s.released h ≡ false)

-- Close, as far as it concerns the locks and checkpoints: the -shm file is closed, and with it goes
-- the lock that the operating system holds for it.
unfoldable pub close : Locks → Locks
close s = record s { closed = true; os_locked = false }

-- What goroutines do with the lock; only a holder releases it, again if it likes.
pub data Step (s u : Locks) : Type 0 where
  acquires :
      (expired : Bool) (os : Option Error) → u ≡ (acquire_write_lock expired os s).1 → Step s u
  releases : (h : ℕ) → h < s.next → u ≡ release h s → Step s u
  appends : (h n : ℕ) → IsHeld h s → u ≡ record s { dirty_page_count = n } → Step s u
  ticks : u ≡ checkpoint s → Step s u
  closes : u ≡ close s → Step s u

pub data Reach (s : Locks) : Locks → Type 0 where
  here : Reach s s
  next_step : {t u : Locks} → Reach s t → Step t u → Reach s u
