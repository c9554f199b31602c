-- ===== src/Tests/Nodes.antt =====
-- fsm/fsm.go: New of a node whose -wal file cannot be opened.
use literaft.Base.{◌≡◌, refl, none, some, [], ◌∷◌, ◌++◌, inl, inr}
use literaft.Errors.{Error, plain, wrapped}
use literaft.WalAppender.Rewind.{endless}
use literaft.Node.Handles.{fsm_db, Open}
use literaft.Node.Appender.{returned}
use literaft.Node.Machine.{MachineCalls, Machine, new, close_machine, with_checkpoint_interval}
use literaft.Node.Opening.{close_machine-new}

abbrev denied : MachineCalls
denied = record {
  open_db = none;
  enable_wal = none;
  prepare = none;
  rows = 4096 ∷ [];
  reset = none;
  open_lock = none;
  read_lock = some (plain "resource temporarily unavailable");
  appender = record { open_db = none; prime = none; open_wal = none; open_shm = none };
  bootstrapped = λ size. endless;
}

close_machine-new_example :
    ((f : Machine)
      → new denied "a.db" (with_checkpoint_interval 0 ∷ []) [] ≡ returned (inr f) (fsm_db ∷ [])
      → (close_machine f (fsm_db ∷ [])).1 ≡ [])
    × ((e : Error)
        → new denied "a.db" (with_checkpoint_interval 0 ∷ []) [] ≡ returned (inl e) (fsm_db ∷ [])
        → (rest : Open) × (fsm_db ∷ [] ≡ rest ++ (fsm_db ∷ [])))
close_machine-new_example =
    close_machine-new denied "a.db" (with_checkpoint_interval 0 ∷ []) [] (fsm_db ∷ []) refl refl

lock_denied :
    new denied "a.db" [] []
    ≡ returned
        (inl (wrapped "failed to acquire a shared lock" (plain "resource temporarily unavailable")))
        (fsm_db ∷ [])
unfolding new
lock_denied = refl
