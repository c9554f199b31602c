-- ===== src/Tests/Store.antt =====
-- Runs of raft's log and stable store on two tables.
use literaft.Base.{ℕ, ◌<◌, ◌≡◌, refl, none, List, [], ◌∷◌, inl, inr, ◌⊎◌, arith}
use Prim.Native.String.{String}
use literaft.Base.Int.{pos, int64_of, uint64_of, wrap_int64, i64_mod}
use literaft.RaftStore.{
  sql_error, key_not_found, Log, value, refused, panicked, row_of, store_logs, delete_range,
  first_index, put, get, set_uint64, get_uint64,
}
use literaft.RaftStore.Refinement.{run_refines}
use literaft.RaftStore.LogMap.{Op, Fits, stores, deletes, run, replay, perform, Reads}
use literaft.RaftStore.Stable.{get_uint64-set_uint64, delete_range-reversed}
use literaft.Tests.Tables.{Tables, tables, tables_laws, empty_tables, rows_of_empty}

abbrev log_at : ℕ → Log
log_at i = record {
  index = i;
  term = 2;
  log_type = 0;
  content = i ∷ [];
  extensions = [];
  appended_at = pos 7;
}

log_at-Fits : (i : ℕ) → i < i64_mod → Fits (log_at i)
unfolding wrap_int64 int64_of
log_at-Fits i lt = record { indexed = lt; in_term = omega arith; typed = omega arith; timed = refl }

abbrev some_ops : List Op
some_ops = stores (log_at 4 ∷ log_at 5 ∷ log_at 6 ∷ []) ∷ deletes 1 4 ∷ stores (log_at 6 ∷ []) ∷ []

run_refines_example :
    Reads tables
      (run tables some_ops empty_tables).1
      (replay (run tables some_ops empty_tables).0 (λ i. none))
run_refines_example =
    run_refines tables tables_laws some_ops empty_tables
      (
        (
          log_at-Fits 4 (omega arith),
          (log_at-Fits 5 (omega arith), (log_at-Fits 6 (omega arith), tt)),
        ),
        ((omega arith, omega arith), ((log_at-Fits 6 (omega arith), tt), tt)),
      )
      rows_of_empty

abbrev term_key : List ℕ
term_key = 7 ∷ []

abbrev with_term : Tables
with_term = (set_uint64 tables term_key 300 empty_tables).1

abbrev with_vote : Tables
with_vote = (put tables term_key (1 ∷ []) with_term).1

get_uint64-set_uint64_example :
    ((e : String) × (get_uint64 tables term_key with_term ≡ refused (sql_error e)))
    ⊎ (get_uint64 tables term_key with_term ≡ value 300)
unfolding set_uint64 put
get_uint64-set_uint64_example =
    get_uint64-set_uint64 tables tables_laws term_key 300 empty_tables with_term (omega arith) refl

first_kept : first_index tables (run tables some_ops empty_tables).1 ≡ inr 5
unfolding first_index run perform store_logs delete_range row_of int64_of uint64_of wrap_int64
first_kept = refl

-- An index above 2 ^ 63 - 1 turns DeleteRange around.
delete_range-reversed_example :
    tables_laws.rows (delete_range tables 1 18446744073709551615 with_term).1
    ≡ tables_laws.rows with_term
delete_range-reversed_example =
    delete_range-reversed tables tables_laws 1 18446744073709551615 with_term (omega arith)
      (omega arith)

missing : get tables term_key empty_tables ≡ inl key_not_found
unfolding get
missing = refl

short_value : get_uint64 tables term_key with_vote ≡ panicked
unfolding get_uint64 put
short_value = refl
