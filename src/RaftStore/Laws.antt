-- ===== src/RaftStore/Laws.antt =====
-- What raftsqlite/store.go relies on of SQLite: atomic transactions, the primary key's order, and
-- statements that change nothing when they fail. A Commit that fails rolls back.
use Prim.Native.String.{String}
use literaft.Base.{◌≡◌, ◌≢◌, true, ◌&&◌, Option, none, some, List, inr, if◌then◌else◌, ℕ}
use literaft.Base.Int.{ℤ, leb_ℤ, eq_ℤ}
use literaft.RaftStore.{Row, Database}

pub record SqlLaws (db : Database) : Type 0 where
  pub rows : db.State → ℤ → Option Row
  pub values : db.State → List ℕ → Option (List ℕ)
  pub pending : db.Tx → ℤ → Option Row
  pub base : db.Tx → ℤ → Option Row
  pub min_of_none : (s : db.State) → db.min_idx s ≡ inr none → (k : ℤ) → rows s k ≡ none
  pub min_of_some :
      (s : db.State) (k : ℤ)
      → db.min_idx s ≡ inr (some k)
      → (rows s k ≢ none) × ((j : ℤ) → rows s j ≢ none → leb_ℤ k j ≡ true)
  pub max_of_none : (s : db.State) → db.max_idx s ≡ inr none → (k : ℤ) → rows s k ≡ none
  pub max_of_some :
      (s : db.State) (k : ℤ)
      → db.max_idx s ≡ inr (some k)
      → (rows s k ≢ none) × ((j : ℤ) → rows s j ≢ none → leb_ℤ j k ≡ true)
  pub selected :
      (s : db.State) (k : ℤ) (row : Option Row) → db.select_log s k ≡ inr row → row ≡ rows s k
  pub begun :
      (s : db.State) (tx : db.Tx)
      → db.begin s ≡ inr tx
      → (k : ℤ) → (pending tx k ≡ rows s k) × (base tx k ≡ rows s k)
  pub upserted :
      (tx u : db.Tx) (k : ℤ) (row : Row)
      → db.upsert_log tx k row ≡ (none, u)
      → (j : ℤ) → pending u j ≡ (if eq_ℤ j k then some row else pending tx j)
  pub base_kept :
      (tx : db.Tx) (k : ℤ) (row : Row) (j : ℤ) → base (db.upsert_log tx k row).1 j ≡ base tx j
  pub committed :
      (tx : db.Tx) (s : db.State) → db.commit tx ≡ (none, s) → (k : ℤ) → rows s k ≡ pending tx k
  pub uncommitted :
      (tx : db.Tx) (s : db.State) (e : String)
      → db.commit tx ≡ (some e, s)
      → (k : ℤ) → rows s k ≡ base tx k
  pub rolled_back : (tx : db.Tx) (k : ℤ) → rows (db.rollback tx) k ≡ base tx k
  pub deleted :
      (s u : db.State) (a b : ℤ)
      → db.delete_logs s a b ≡ (none, u)
      → (k : ℤ) → rows u k ≡ (if leb_ℤ a k && leb_ℤ k b then none else rows s k)
  pub undeleted :
      (s u : db.State) (a b : ℤ) (e : String)
      → db.delete_logs s a b ≡ (some e, u)
      → (k : ℤ) → rows u k ≡ rows s k
  pub value_put :
      (s u : db.State) (key val : List ℕ)
      → db.upsert_value s key val ≡ (none, u)
      → (values u key ≡ some val) × ((q : List ℕ) → q ≢ key → values u q ≡ values s q)
  pub value_selected :
      (s : db.State) (key : List ℕ) (val : Option (List ℕ))
      → db.select_value s key ≡ inr val
      → val ≡ values s key
