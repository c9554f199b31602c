-- ===== src/Node/Appender.antt =====
-- internal/fsm/walappender/walappender.go: Open and Close.
use literaft.Base.{ℕ, Bool, false, Option, none, some, ◌∷◌, ◌⊎◌, inl, inr, ltb}
use literaft.Errors.{Error, wrapped}
use literaft.WalAppender.Append.{Store}
use literaft.WalAppender.Lock as Lock
use literaft.WalAppender.Lock.{Locks, unlocked}
use literaft.WalAppender.Rewind.{Append, appended, append_panicked, endless}
use literaft.Node.Handles.{appender_db, wal_file, shm_file, Open, close}

-- What the system says to the calls of Open: sqlite3.Open, the priming read, os.OpenFile, shm.Open.
pub record Calls : Type 0 where
  pub open_db : Option Error
  pub prime : Option Error
  pub open_wal : Option Error
  pub open_shm : Option Error

-- An appender: its locks, its store, and whether the checkpointer's ticker runs. Close
-- stops the ticker, but not the goroutine that waits for it.
pub record Appender : Type 0 where
  pub locks : Locks
  pub store : Store
  pub ticking : Bool

-- What a constructor returns, with what is open then; a panic or an endless loop ends nowhere.
pub data Result (A : Type 0) : Type 0 where
  returned : Error ⊎ A → Open → Result A
  stuck : Result A

-- The connection, which is primed, and both files.
unfoldable pub open_files : Calls → Open → Option Error × Open
open_files calls hs = elim calls.open_db [
  | some e ↦ (some (wrapped "failed to open database" e), hs)
  | none ↦
      let hs1 = appender_db ∷ hs in
      elim calls.prime [
        | some e ↦ (some (wrapped "failed to prime checkpoint connection" e), close appender_db hs1)
        | none ↦ elim calls.open_wal [
          | some e ↦ (some (wrapped "failed to open -wal file" e), close appender_db hs1)
          | none ↦
              let hs2 = wal_file ∷ hs1 in
              elim calls.open_shm [
                | some e ↦ (
                  some (wrapped "failed to open -shm file" e),
                  close wal_file (close appender_db hs2),
                )
                | none ↦ (none, shm_file ∷ hs2)
              ]
        ]
      ]
]

-- Behind maybeBootstrap.
unfoldable pub start : ℕ → ℕ → Append → Open → Result Appender
start threshold interval (appended (some e) s) hs =
    returned (inl (wrapped "failed to bootstrap WAL" e)) hs
start threshold interval (appended none s) hs =
    returned (inr (record { locks = unlocked threshold; store = s; ticking = ltb 0 interval })) hs
start threshold interval append_panicked hs = stuck
start threshold interval endless hs = stuck

unfoldable pub open_appender : Calls → ℕ → ℕ → Append → Open → Result Appender
unfolding open_files start
open_appender calls threshold interval bootstrapped hs =
    let (err, hs') = open_files calls hs in
    elim err [ some e ↦ returned (inl e) hs' | none ↦ start threshold interval bootstrapped hs' ]

unfoldable pub close_appender : Appender → Open → Appender × Open
close_appender a hs = (
  record a { locks = Lock.close a.locks; ticking = false },
  close shm_file (close wal_file (close appender_db hs)),
)
