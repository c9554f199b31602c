-- ===== src/RaftStore.antt =====
-- raftsqlite/store.go: raft's log and stable store over two SQL tables.
-- What database/sql and SQLite do is a Database; its laws are in RaftStore/Laws. A nil slice is the
-- empty list here.
pub mod Laws
pub mod Contents
pub mod LogMap
pub mod Refinement
pub mod Stable
use Prim.Native.String.{String}
use literaft.Base.{
  ℕ, zero, suc, ◌-◌, ◌%◌, ◌/◌, ◌*◌, ◌+◌, ◌^◌, Bool, true, false, Option, none, some, List, [], ◌∷◌,
  length, get_or, ltb, ◌==◌, ◌⊎◌, inl, inr, if◌then◌else◌,
}
use literaft.Base.Int.{ℤ, pos, negsuc, int64_of, uint64_of, wrap_int64}

pub data StoreError : Type 0 where
  log_not_found key_not_found path_required : StoreError
  sql_error : String → StoreError

-- raft.Log. `appended_at` is the instant in nanoseconds since 1970; a Go time also has a location,
-- which GetLog sets to UTC.
pub record Log : Type 0 where
  pub index : ℕ
  pub term : ℕ
  pub log_type : ℕ
  pub content : List ℕ
  pub extensions : List ℕ
  pub appended_at : ℤ

-- A row of the table `logs` without its key `idx`, as SQLite's signed integers and blobs.
pub record Row : Type 0 where
  pub term : ℤ
  pub log_type : ℤ
  pub content : List ℕ
  pub extensions : List ℕ
  pub appended_at : ℤ

-- The statements of the store, each of which may fail.
pub record Database : Type 1 where
  pub State : Type 0
  pub Tx : Type 0
  pub min_idx : State → String ⊎ Option ℤ
  pub max_idx : State → String ⊎ Option ℤ
  pub select_log : State → ℤ → String ⊎ Option Row
  pub begin : State → String ⊎ Tx
  pub prepare : Tx → Option String
  pub upsert_log : Tx → ℤ → Row → Option String × Tx
  pub commit : Tx → Option String × State
  pub rollback : Tx → State
  pub delete_logs : State → ℤ → ℤ → Option String × State
  pub upsert_value : State → List ℕ → List ℕ → Option String × State
  pub select_value : State → List ℕ → String ⊎ Option (List ℕ)

abbrev pub sql_result : Option String → Option StoreError
sql_result none = none
sql_result (some e) = some (sql_error e)

-- The values that StoreLogs binds: UnixNano counts in int64.
unfoldable pub row_of : Log → Row
row_of log = record {
  term = int64_of log.term;
  log_type = pos log.log_type;
  content = log.content;
  extensions = log.extensions;
  appended_at = wrap_int64 log.appended_at;
}

-- Scan into a *uint64 refuses a negative integer.
unfoldable pub scan_uint64 : ℤ → StoreError ⊎ ℕ
scan_uint64 (pos n) = inr n
scan_uint64 (negsuc n) = inl (sql_error "converting driver.Value type int64 to a uint64")

-- raft.LogType is a uint8.
unfoldable pub log_type_of : ℤ → ℕ
unfolding uint64_of
log_type_of typ = uint64_of typ % 256

unfoldable pub log_of : ℕ → Row → StoreError ⊎ Log
unfolding scan_uint64 log_type_of
log_of index row = elim (scan_uint64 row.term) [
  | inl e ↦ inl e
  | inr term ↦ inr (record {
    index = index;
    term = term;
    log_type = log_type_of row.log_type;
    content = row.content;
    extensions = row.extensions;
    appended_at = row.appended_at;
  })
]

-- An sql.NullInt64 is 0 where it is NULL.
unfoldable pub null_int64 : Option ℤ → ℕ
unfolding uint64_of
null_int64 none = 0
null_int64 (some k) = uint64_of k

unfoldable pub scan_index : String ⊎ Option ℤ → StoreError ⊎ ℕ
unfolding null_int64
scan_index (inl e) = inl (sql_error e)
scan_index (inr k) = inr (null_int64 k)

unfoldable pub scan_log : ℕ → String ⊎ Option Row → StoreError ⊎ Log
unfolding log_of
scan_log index (inl e) = inl (sql_error e)
scan_log index (inr none) = inl log_not_found
scan_log index (inr (some row)) = log_of index row

unfoldable pub scan_value : String ⊎ Option (List ℕ) → StoreError ⊎ List ℕ
scan_value (inl e) = inl (sql_error e)
scan_value (inr none) = inl key_not_found
scan_value (inr (some v)) = inr v

-- binary.BigEndian.PutUint64 and Uint64; the latter panics on fewer than eight bytes.
abbrev pub be64 : ℕ → ℕ → List ℕ
be64 zero v = []
be64 (suc n) v = (v / 256 ^ n) % 256 ∷ be64 n v

abbrev pub from_be : ℕ → ℕ → List ℕ → ℕ
from_be zero acc bytes = acc
from_be (suc n) acc [] = acc
from_be (suc n) acc (b ∷ bytes) = from_be n (acc * 256 + b) bytes

pub data Uint64 : Type 0 where
  value : ℕ → Uint64
  refused : StoreError → Uint64
  panicked : Uint64

unfoldable pub decode_uint64 : StoreError ⊎ List ℕ → Uint64
decode_uint64 (inl e) = refused e
decode_uint64 (inr bytes) = if ltb (length bytes) 8 then panicked else value (from_be 8 0 bytes)

module _ (db : Database) where
  unfoldable pub first_index : db.State → StoreError ⊎ ℕ
  unfolding scan_index
  first_index s = scan_index (db.min_idx s)

  unfoldable pub last_index : db.State → StoreError ⊎ ℕ
  unfolding scan_index
  last_index s = scan_index (db.max_idx s)

  unfoldable pub get_log : ℕ → db.State → StoreError ⊎ Log
  unfolding scan_log
  get_log index s = scan_log index (db.select_log s (int64_of index))

  -- The end of StoreLogs; the deferred Rollback does nothing behind a Commit.
  unfoldable pub finish : db.Tx → Option StoreError × db.State
  finish tx = let (err, s) = db.commit tx in (sql_result err, s)

  unfoldable pub insert_all : List Log → db.Tx → Option StoreError × db.State
  unfolding row_of finish
  insert_all [] tx = finish tx
  insert_all (log ∷ logs) tx =
      let (err, tx') = db.upsert_log tx (int64_of log.index) (row_of log) in
      elim err [ some e ↦ (some (sql_error e), db.rollback tx') | none ↦ insert_all logs tx' ]

  unfoldable pub with_statement : List Log → Option String → db.Tx → Option StoreError × db.State
  unfolding insert_all
  with_statement logs (some e) tx = (some (sql_error e), db.rollback tx)
  with_statement logs none tx = insert_all logs tx

  unfoldable pub in_transaction :
      List Log → String ⊎ db.Tx → db.State → Option StoreError × db.State
  unfolding with_statement
  in_transaction logs (inl e) s = (some (sql_error e), s)
  in_transaction logs (inr tx) s = with_statement logs (db.prepare tx) tx

  unfoldable pub store_logs : List Log → db.State → Option StoreError × db.State
  unfolding in_transaction
  store_logs logs s = in_transaction logs (db.begin s) s

  unfoldable pub store_log : Log → db.State → Option StoreError × db.State
  unfolding store_logs
  store_log log s = store_logs (log ∷ []) s

  unfoldable pub delete_range : ℕ → ℕ → db.State → Option StoreError × db.State
  delete_range min max s =
      let (err, s') = db.delete_logs s (int64_of min) (int64_of max) in (sql_result err, s')

  unfoldable pub put : List ℕ → List ℕ → db.State → Option StoreError × db.State
  put key val s = let (err, s') = db.upsert_value s key val in (sql_result err, s')

  unfoldable pub get : List ℕ → db.State → StoreError ⊎ List ℕ
  unfolding scan_value
  get key s = scan_value (db.select_value s key)

  unfoldable pub set_uint64 : List ℕ → ℕ → db.State → Option StoreError × db.State
  unfolding put
  set_uint64 key val s = put key (be64 8 val) s

  unfoldable pub get_uint64 : List ℕ → db.State → Uint64
  unfolding get decode_uint64
  get_uint64 key s = decode_uint64 (get key s)
