-- ===== src/Gate/Leadership.antt =====
-- internal/gate/gate.go: watchLeadership and drain, beside raft's changes of leadership, as steps of
-- one state. A step is what happens between two points at which other goroutines can run.
use literaft.Base.{
  ℕ, ◌≤◌, ◌<◌, ◌≡◌, Bool, true, false, Option, none, some, List, [], ◌∷◌, ◌++◌, ◌==◌, ◌&&◌,
  if◌then◌else◌,
}

-- Where the goroutine of watchLeadership is: at its select, with a notification that it has
-- received, or past the reset of `ready` with leadership gained.
pub data Watcher : Type 0 where
  waiting : Watcher
  received : Bool → Watcher
  gained : Watcher

-- A goroutine of drain with its term: before the barrier has succeeded, or behind it. `behind` also
-- remembers raft's term at that moment, which the code does not read.
pub data Drain : Type 0 where
  before : ℕ → Drain
  behind : ℕ → ℕ → Drain

-- `leader` and `term` are raft's; `notified` is the one place of LeaderCh, whose value a newer one
-- replaces; `owed` is a change of state that raft has made and not yet announced. `ready` is the
-- gate's, and `holder` the drain that has its lock and has passed the check. `drained` is the term in
-- which the barrier succeeded that `ready` was last set for.
pub record Leadership : Type 0 where
  pub leader : Bool
  pub term : ℕ
  pub owed : Bool
  pub notified : Option Bool
  pub watcher : Watcher
  pub drains : List Drain
  pub holder : Option (ℕ × ℕ)
  pub ready : Bool
  pub drained : ℕ

-- A new gate beside raft in some term.
abbrev pub started : ℕ → Leadership
started n = record {
  leader = false;
  term = n;
  owed = false;
  notified = none;
  watcher = waiting;
  drains = [];
  holder = none;
  ready = false;
  drained = 0;
}

-- leaderReady, while no drain has the lock.
unfoldable pub is_ready : Leadership → Bool
is_ready s = s.leader && s.ready

unfoldable pub receive : Bool → Leadership → Leadership
receive is_leader s = record s { notified = none; watcher = received is_leader }

-- The reset of `ready`, under its lock.
unfoldable pub reset_ready : Bool → Leadership → Leadership
reset_ready is_leader s = record s {
  ready = false;
  watcher = if is_leader then gained else waiting;
}

unfoldable pub start_drain : Leadership → Leadership
start_drain s = record s { watcher = waiting; drains = before s.term ∷ s.drains }

-- drain's check under the lock; `rest` are the other drains.
unfoldable pub check_drain : ℕ → ℕ → List Drain → Leadership → Leadership
check_drain n barrier_term rest s =
    if s.leader && (s.term == n)
    then record s { drains = rest; holder = some (n, barrier_term) }
    else record s { drains = rest }

unfoldable pub set_ready : ℕ → Leadership → Leadership
set_ready barrier_term s = record s { holder = none; ready = true; drained = barrier_term }

-- raft changes its state on its own and announces it later. A drain may give up at any time: at its
-- first check, or when the gate is closed.
pub data Step (s u : Leadership) : Type 0 where
  elected :
      (n : ℕ)
      → s.leader ≡ false
      → s.term < n
      → u ≡ record s { leader = true; term = n; owed = true }
      → Step s u
  deposed : s.leader ≡ true → u ≡ record s { leader = false; owed = true } → Step s u
  new_term : (n : ℕ) → s.leader ≡ false → s.term ≤ n → u ≡ record s { term = n } → Step s u
  announced : s.owed ≡ true → u ≡ record s { owed = false; notified = some s.leader } → Step s u
  receives : (b : Bool) → s.watcher ≡ waiting → s.notified ≡ some b → u ≡ receive b s → Step s u
  resets : (b : Bool) → s.watcher ≡ received b → s.holder ≡ none → u ≡ reset_ready b s → Step s u
  starts : s.watcher ≡ gained → u ≡ start_drain s → Step s u
  gives_up :
      (d : Drain) (front back : List Drain)
      → s.drains ≡ front ++ d ∷ back
      → u ≡ record s { drains = front ++ back }
      → Step s u
  barrier :
      (n : ℕ) (front back : List Drain)
      → s.drains ≡ front ++ before n ∷ back
      → s.leader ≡ true
      → u ≡ record s { drains = front ++ behind n s.term ∷ back }
      → Step s u
  checks :
      (n m : ℕ) (front back : List Drain)
      → s.drains ≡ front ++ behind n m ∷ back
      → s.holder ≡ none
      → u ≡ check_drain n m (front ++ back) s
      → Step s u
  sets : (n m : ℕ) → s.holder ≡ some (n, m) → u ≡ set_ready m s → Step s u

pub data Reach (s : Leadership) : Leadership → Type 0 where
  here : Reach s s
  next : {t u : Leadership} → Reach s t → Step t u → Reach s u
