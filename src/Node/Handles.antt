-- ===== src/Node/Handles.antt =====
-- What is open in the process: SQLite connections, files and mapped memory, the newest first.
use literaft.Base.{ℕ, List, [], ◌∷◌, ◌==◌, if◌then◌else◌}

pub data Handle : Type 0 where
  appender_db wal_file shm_file fsm_db db_lock : Handle

abbrev tag : Handle → ℕ
tag appender_db = 0
tag wal_file = 1
tag shm_file = 2
tag fsm_db = 3
tag db_lock = 4

abbrev pub Open : Type 0
Open = List Handle

-- Close of the newest handle of its kind.
abbrev pub close : Handle → Open → Open
close h [] = []
close h (q ∷ hs) = let rest = close h hs in if tag q == tag h then hs else q ∷ rest
