-- ===== src/Node/Opening.antt =====
-- fsm/fsm.go and internal/fsm/walappender/walappender.go: what is open behind New and Close.
use Prim.Native.String.{String}
use text.Mathlib.Text.{◌==◌ as str_eq}
use literaft.Base.{
  ℕ, ◌≡◌, refl, sym, ap, subst, ◌∙◌, false, none, some, Option-cases, List, [], ◌∷◌, ◌++◌, ◌⊎◌, inl,
  inr, arith,
}
use literaft.Errors.{Error, wrapped}
use literaft.WalAppender.Rewind.{Append, appended, append_panicked, endless}
use literaft.Node.Handles.{appender_db, wal_file, shm_file, fsm_db, db_lock, Open}
use literaft.Node.Appender.{
  Calls, Appender, Result, returned, stuck, open_files, start, open_appender,
}
use literaft.Node.Machine.{
  Options, default_options, apply_all, MachineCalls, Machine, get_page_size, acquire_shared_db_lock,
  with_appender, with_page_size, new, close_machine,
}

abbrev pub with_files : Open → Open
with_files hs = shm_file ∷ wal_file ∷ appender_db ∷ hs

-- The part of Open that opens undoes itself on a failure.
open_files_cases :
    (calls : Calls) (hs : Open)
    → ((e : Error) × (open_files calls hs ≡ (some e, hs)))
      ⊎ (open_files calls hs ≡ (none, with_files hs))
unfolding open_files
open_files_cases calls hs = elim (Option-cases calls.open_db) [
  | inr (e, k) ↦ inl (wrapped "failed to open database" e, ground (arith, k))
  | inl k ↦ elim (Option-cases calls.prime) [
    | inr (e, p) ↦ inl (wrapped "failed to prime checkpoint connection" e, ground (arith, k, p))
    | inl p ↦ elim (Option-cases calls.open_wal) [
      | inr (e, w) ↦ inl (wrapped "failed to open -wal file" e, ground (arith, k, p, w))
      | inl w ↦ elim (Option-cases calls.open_shm) [
        | inr (e, m) ↦ inl (wrapped "failed to open -shm file" e, ground (arith, k, p, w, m))
        | inl m ↦ inr (ground (arith, k, p, w, m))
      ]
    ]
  ]
]

acquire_shared_db_lock_cases :
    (calls : MachineCalls) (hs : Open)
    → ((e : Error) × (acquire_shared_db_lock calls hs ≡ (some e, hs)))
      ⊎ (acquire_shared_db_lock calls hs ≡ (none, db_lock ∷ hs))
unfolding acquire_shared_db_lock
acquire_shared_db_lock_cases calls hs = elim (Option-cases calls.open_lock) [
  | inr (e, k) ↦ inl (wrapped "failed to open" e, ground (arith, k))
  | inl k ↦ elim (Option-cases calls.read_lock) [
    | inr (e, r) ↦ inl (wrapped "failed to acquire a shared lock" e, ground (arith, k, r))
    | inl r ↦ inr (ground (arith, k, r))
  ]
]

-- What Open of an appender leaves.
data Leaves (hs : Open) : Result Appender → Type 0 where
  undone : (e : Error) → Leaves hs (returned (inl e) hs)
  leaked : (e : Error) → Leaves hs (returned (inl e) (with_files hs))
  opened : (a : Appender) → Leaves hs (returned (inr a) (with_files hs))
  never : Leaves hs stuck

start-Leaves :
    (threshold interval : ℕ) (r : Append) (hs : Open)
    → Leaves hs (start threshold interval r (with_files hs))
unfolding start
start-Leaves threshold interval (appended (some e) s) hs = leaked _
start-Leaves threshold interval (appended none s) hs = opened _
start-Leaves threshold interval append_panicked hs = never
start-Leaves threshold interval endless hs = never

open_appender-Leaves :
    (calls : Calls) (threshold interval : ℕ) (r : Append) (hs : Open)
    → Leaves hs (open_appender calls threshold interval r hs)
unfolding open_appender
open_appender-Leaves calls threshold interval r hs = elim (open_files_cases calls hs) [
  | inl (e, k) ↦
      let err : (open_files calls hs).0 ≡ some e = ap (λ p. p.0) k in
      let left : (open_files calls hs).1 ≡ hs = ap (λ p. p.1) k in
      rw (err, open_appender) (rw left (undone e))
  | inr k ↦
      let err : (open_files calls hs).0 ≡ none = ap (λ p. p.0) k in
      let left : (open_files calls hs).1 ≡ with_files hs = ap (λ p. p.1) k in
      rw (err, open_appender) (rw left (start-Leaves threshold interval r hs))
]

-- What New leaves of what it opened behind its database connection.
data Behind (hs : Open) : Result Machine → Type 0 where
  fails : (e : Error) (u rest : Open) → u ≡ rest ++ (fsm_db ∷ hs) → Behind hs (returned (inl e) u)
  succeeds : (f : Machine) → Behind hs (returned (inr f) (with_files (db_lock ∷ fsm_db ∷ hs)))
  hangs : Behind hs stuck

with_appender-Behind :
    (path : String) (size : ℕ) (r : Result Appender) (hs : Open)
    → Leaves (db_lock ∷ fsm_db ∷ hs) r
    → Behind hs (with_appender path size r)
unfolding with_appender
with_appender-Behind path size r hs (undone e) = fails _ _ (db_lock ∷ []) refl
with_appender-Behind path size r hs (leaked e) =
    fails _ _ (shm_file ∷ wal_file ∷ appender_db ∷ db_lock ∷ []) refl
with_appender-Behind path size r hs (opened a) = succeeds _
with_appender-Behind path size r hs never = hangs

with_page_size-Behind :
    (calls : MachineCalls) (path : String) (o : Options) (got : Error ⊎ ℕ) (hs : Open)
    → Behind hs (with_page_size calls path o got (fsm_db ∷ hs))
unfolding with_page_size
with_page_size-Behind calls path o (inl e) hs = fails _ _ [] refl
with_page_size-Behind calls path o (inr size) hs =
    elim (acquire_shared_db_lock_cases calls (fsm_db ∷ hs)) [
      | inl (e, k) ↦
          let err : (acquire_shared_db_lock calls (fsm_db ∷ hs)).0 ≡ some e = ap (λ p. p.0) k in
          let left : (acquire_shared_db_lock calls (fsm_db ∷ hs)).1 ≡ fsm_db ∷ hs =
            ap (λ p. p.1) k in
          rw (err, with_page_size) (rw left (fails e _ [] refl))
      | inr k ↦
          let err : (acquire_shared_db_lock calls (fsm_db ∷ hs)).0 ≡ none = ap (λ p. p.0) k in
          let left : (acquire_shared_db_lock calls (fsm_db ∷ hs)).1 ≡ db_lock ∷ fsm_db ∷ hs =
            ap (λ p. p.1) k in
          rw (err, with_page_size)
            (rw left (
              with_appender-Behind path size _ hs (
                open_appender-Leaves calls.appender o.checkpoint_threshold_pages
                  o.checkpoint_interval (calls.bootstrapped size) (db_lock ∷ fsm_db ∷ hs))))
    ]

new-Behind :
    (calls : MachineCalls) (path : String) (opts : List (Options → Options)) (hs : Open)
    → str_eq path "" ≡ false
    → calls.open_db ≡ none
    → Behind hs (new calls path opts hs)
unfolding new
new-Behind calls path opts hs named opened_db = elim (Option-cases calls.enable_wal) [
  | inr (e, k) ↦ rw (named, opened_db, k, new) (fails _ _ [] refl)
  | inl k ↦
      rw (named, opened_db, k, new)
        (with_page_size-Behind calls path (apply_all opts default_options) (get_page_size calls) hs)
]

-- Once New has opened its database connection: if it succeeds, Close closes everything that it opened;
-- if it fails, the connection stays open.
pub close_machine-new :
    (calls : MachineCalls) (path : String) (opts : List (Options → Options)) (hs u : Open)
    → str_eq path "" ≡ false
    → calls.open_db ≡ none
    → ((f : Machine) → new calls path opts hs ≡ returned (inr f) u → (close_machine f u).1 ≡ hs)
      × ((e : Error)
          → new calls path opts hs ≡ returned (inl e) u
          → (rest : Open) × (u ≡ rest ++ (fsm_db ∷ hs)))
unfolding close_machine
close_machine-new calls path opts hs u named opened_db =
    ends (new calls path opts hs) (new-Behind calls path opts hs named opened_db)
  where
    ends :
        (r : Result Machine)
        → Behind hs r
        → ((f : Machine) → r ≡ returned (inr f) u → (close_machine f u).1 ≡ hs)
          × ((e : Error) → r ≡ returned (inl e) u → (rest : Open) × (u ≡ rest ++ (fsm_db ∷ hs)))
    ends r (fails e v rest same) =
        (λ f k. absurd (cc (k)), λ e' k. (rest, (let at : v ≡ u = cc (k) in sym at ∙ same)))
    ends r (succeeds f) = (
      λ f' k.
          (let at : with_files (db_lock ∷ fsm_db ∷ hs) ≡ u = cc (k) in
            subst (λ v. (close_machine f' v).1 ≡ hs) at refl),
      λ e k. absurd (cc (k)),
    )
    ends r hangs = (λ f k. absurd (cc (k)), λ e k. absurd (cc (k)))
