-- ===== src/RaftStore/Stable.antt =====
-- raftsqlite/store.go: the stable store's values, and the ranges that int64 turns around.
use Prim.Native.String.{String}
use literaft.Base.{
  ℕ, ◌-◌, ◌≡◌, ◌≢◌, ◌≤◌, ◌<◌, refl, ap, ◌∙◌, fun_ext, Option, none, some, List, ◌⊎◌, inl, inr,
  arith,
}
use literaft.Base.Int.{ℤ, pos, negsuc, i64_mod, u64_mod, u64_max, int64_of_pos, int64_of_neg}
use literaft.RaftStore.{
  StoreError, sql_error, Database, sql_result, be64, value, refused, decode_uint64, scan_value, put,
  get, set_uint64, get_uint64, delete_range,
}
use literaft.RaftStore.Laws.{SqlLaws}
use literaft.RaftStore.Contents.{Contents, outcome, without, delete_range-AllOrNothing}

decode-be64 : (v : ℕ) → v < u64_mod → decode_uint64 (inr (be64 8 v)) ≡ value v
unfolding decode_uint64
decode-be64 v lt = ap value (omega arith)

nothing_between : (a b : ℕ) (k : ℤ) (c : Contents) → without (pos a) (negsuc b) c k ≡ c k
nothing_between a b (pos n) c = ground arith
nothing_between a b (negsuc n) c = refl

outcome_same : (err : Option StoreError) (c d : Contents) → c ≡ d → outcome err c d ≡ d
outcome_same none c d e = e
outcome_same (some x) c d e = refl

module _ (db : Database) (laws : SqlLaws db) where
  sql_none :
      (r : Option String × db.State) (u : db.State)
      → ◌≡◌ {A = Option StoreError × db.State} (sql_result r.0, r.1) (none, u)
      → r ≡ (none, u)
  sql_none (none, v) u h = ap (λ (q : Option StoreError × db.State). (none, q.1)) h
  sql_none (some e, v) u h = absurd (cc (ap (λ (q : Option StoreError × db.State). q.0) h))

  scan_value_lem :
      (s : db.State) (key : List ℕ) (v : Option (List ℕ)) (got : String ⊎ Option (List ℕ))
      → laws.values s key ≡ v
      → db.select_value s key ≡ got
      → ((e : String) × (scan_value got ≡ inl (sql_error e)))
        ⊎ (scan_value got ≡ scan_value (inr v))
  unfolding scan_value
  scan_value_lem s key v (inl e) at h = inl (e, refl)
  scan_value_lem s key v (inr w) at h =
      inr (ap (λ q. scan_value (inr q)) (laws.value_selected s key w h ∙ at))

  -- After a SetUint64 of a 64-bit number that succeeds, GetUint64 of the key returns the number,
  -- unless the database fails it.
  pub get_uint64-set_uint64 :
      (key : List ℕ) (v : ℕ) (s u : db.State)
      → v < u64_mod
      → set_uint64 db key v s ≡ (none, u)
      → ((e : String) × (get_uint64 db key u ≡ refused (sql_error e)))
        ⊎ (get_uint64 db key u ≡ value v)
  unfolding set_uint64 get_uint64 put get decode_uint64 scan_value
  get_uint64-set_uint64 key v s u lt h =
      let r = db.upsert_value s key (be64 8 v) in
      let written : r ≡ (none, u) = sql_none r u h in
      let at = (laws.value_put s u key (be64 8 v) written).0 in
      elim (scan_value_lem u key (some (be64 8 v)) (db.select_value u key) at refl) [
        | inl (e, k) ↦ inl (e, ap decode_uint64 k)
        | inr k ↦ inr (ap decode_uint64 k ∙ decode-be64 v lt)
      ]

  -- After a Set that succeeds, Get returns the value for its key, and for every other key what was
  -- there before, or ErrKeyNotFound for a key that was never set; unless the database fails it.
  pub get-put :
      (key q : List ℕ) (val : List ℕ) (s u : db.State)
      → put db key val s ≡ (none, u)
      → (((e : String) × (get db key u ≡ inl (sql_error e))) ⊎ (get db key u ≡ inr val))
        × (q ≢ key
            → ((e : String) × (get db q u ≡ inl (sql_error e)))
              ⊎ (get db q u ≡ scan_value (inr (laws.values s q))))
  unfolding put get
  get-put key q val s u h =
      let r = db.upsert_value s key val in
      let (here, others) = laws.value_put s u key val (sql_none r u h) in
      (
        scan_value_lem u key (some val) (db.select_value u key) here refl,
        λ ne. scan_value_lem u q (laws.values s q) (db.select_value u q) (others q ne) refl,
      )

  -- A DeleteRange from below 2 ^ 63 to 2 ^ 63 or above leaves every row as it is.
  pub delete_range-reversed :
      (min max : ℕ) (s : db.State)
      → min < i64_mod
      → i64_mod ≤ max
      → laws.rows (delete_range db min max s).1 ≡ laws.rows s
  delete_range-reversed min max s lo hi =
      delete_range-AllOrNothing db laws min max s
      ∙ outcome_same (delete_range db min max s).0 _ _ (
          fun_ext (λ k.
            rw (int64_of_pos min lo)
              (rw (int64_of_neg max hi) (nothing_between min (u64_max - max) k (laws.rows s)))))
