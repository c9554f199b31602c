-- ===== src/Node/Machine.antt =====
-- fsm/fsm.go, fsm/dblock.go and fsm/options.go: New with its options, and Close.
use Prim.Native.String.{String}
use text.Mathlib.Text.{◌==◌ as str_eq}
use literaft.Base.{ℕ, ◌%◌, Option, none, some, List, [], ◌∷◌, ◌⊎◌, inl, inr, ◌==◌, if◌then◌else◌}
use literaft.Base.Bytes.{u32_mod}
use literaft.Errors.{Error, plain, wrapped}
use literaft.WalAppender.Rewind.{Append}
use literaft.Node.Handles.{fsm_db, db_lock, Open, close}
use literaft.Node.Appender.{Calls, Appender, Result, returned, stuck, open_appender, close_appender}

-- Durations are in milliseconds. A logger is its name; nil is `none`.
pub record Options : Type 0 where
  pub checkpoint_interval : ℕ
  pub checkpoint_threshold_pages : ℕ
  pub logger : String

abbrev pub default_options : Options
default_options = record {
  checkpoint_interval = 5000;
  checkpoint_threshold_pages = 1000;
  logger = "";
}

unfoldable pub with_logger : Option String → Options → Options
with_logger none o = o
with_logger (some l) o = record o { logger = l }

unfoldable pub with_checkpoint_interval : ℕ → Options → Options
with_checkpoint_interval d o = record o { checkpoint_interval = d }

unfoldable pub with_checkpoint_threshold_pages : ℕ → Options → Options
with_checkpoint_threshold_pages n o = record o { checkpoint_threshold_pages = n }

abbrev pub apply_all : List (Options → Options) → Options → Options
apply_all [] o = o
apply_all (opt ∷ opts) o = apply_all opts (opt o)

-- What the system says to the calls of New. `rows` are the answers to PRAGMA page_size;
-- `bootstrapped` is what maybeBootstrap comes to with a page size.
pub record MachineCalls : Type 0 where
  pub open_db : Option Error
  pub enable_wal : Option Error
  pub prepare : Option Error
  pub rows : List ℕ
  pub reset : Option Error
  pub open_lock : Option Error
  pub read_lock : Option Error
  pub appender : Calls
  pub bootstrapped : ℕ → Append

pub record Machine : Type 0 where
  pub db_path : String
  pub page_size : ℕ
  pub appender : Appender
  pub last_applied : ℕ

abbrev last_row : ℕ → List ℕ → ℕ
last_row size [] = size
last_row size (row ∷ rows) = last_row (row % u32_mod) rows

unfoldable pub get_page_size : MachineCalls → Error ⊎ ℕ
get_page_size calls = elim calls.prepare [
  | some e ↦ inl (wrapped "failed to prepare PRAGMA page_size statement" e)
  | none ↦ elim calls.reset [
    | some e ↦ inl (wrapped "failed to reset PRAGMA page_size statement" e)
    | none ↦
        if last_row 0 calls.rows == 0
        then inl (plain "invalid page size 0 returned from PRAGMA page_size")
        else inr (last_row 0 calls.rows)
  ]
]

unfoldable pub acquire_shared_db_lock : MachineCalls → Open → Option Error × Open
acquire_shared_db_lock calls hs = elim calls.open_lock [
  | some e ↦ (some (wrapped "failed to open" e), hs)
  | none ↦ elim calls.read_lock [
    | some e ↦ (some (wrapped "failed to acquire a shared lock" e), close db_lock (db_lock ∷ hs))
    | none ↦ (none, db_lock ∷ hs)
  ]
]

unfoldable pub with_appender : String → ℕ → Result Appender → Result Machine
with_appender path size (returned (inl e) hs) =
    returned (inl (wrapped "failed to open WAL appender" e)) hs
with_appender path size (returned (inr a) hs) =
    returned (inr (record { db_path = path; page_size = size; appender = a; last_applied = 0 })) hs
with_appender path size stuck = stuck

unfoldable pub with_page_size : MachineCalls → String → Options → Error ⊎ ℕ → Open → Result Machine
unfolding acquire_shared_db_lock with_appender
with_page_size calls path o (inl e) hs = returned (inl (wrapped "failed to get page size" e)) hs
with_page_size calls path o (inr size) hs =
    let (err, hs') = acquire_shared_db_lock calls hs in
    elim err [
      | some e ↦ returned (inl e) hs'
      | none ↦ with_appender path size (
          open_appender calls.appender o.checkpoint_threshold_pages o.checkpoint_interval
            (calls.bootstrapped size) hs')
    ]

unfoldable pub new : MachineCalls → String → List (Options → Options) → Open → Result Machine
unfolding get_page_size with_page_size
new calls path opts hs =
    if str_eq path ""
    then returned (inl (plain "dbPath is required")) hs
    else let o = apply_all opts default_options in
      elim calls.open_db [
        | some e ↦ returned (inl (wrapped "failed to open database" e)) hs
        | none ↦ elim calls.enable_wal [
          | some e ↦ returned (inl (wrapped "failed to enable WAL mode" e)) (fsm_db ∷ hs)
          | none ↦ with_page_size calls path o (get_page_size calls) (fsm_db ∷ hs)
        ]
      ]

unfoldable pub close_machine : Machine → Open → Machine × Open
unfolding close_appender
close_machine f hs =
    let (a, hs') = close_appender f.appender (close fsm_db hs) in
    (record f { appender = a }, close db_lock hs')
