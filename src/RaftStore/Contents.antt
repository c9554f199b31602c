-- ===== src/RaftStore/Contents.antt =====
-- raftsqlite/store.go: what StoreLogs and DeleteRange do to the rows of the table, whether or not
-- their statements fail.
use Prim.Native.String.{String}
use literaft.Base.{
  ℕ, ◌≡◌, refl, ap, ◌∙◌, fun_ext, ◌&&◌, Option, none, some, Option-cases, List, [], ◌∷◌, ◌⊎◌, inl,
  inr, if◌then◌else◌,
}
use literaft.Base.Int.{ℤ, leb_ℤ, eq_ℤ, int64_of}
use literaft.RaftStore.{
  StoreError, Log, Row, Database, row_of, finish, insert_all, with_statement, in_transaction,
  store_logs, delete_range,
}
use literaft.RaftStore.Laws.{SqlLaws}

abbrev pub Contents : Type 0
Contents = ℤ → Option Row

abbrev pub put_row : ℤ → Row → Contents → Contents
put_row k row c = λ j. if eq_ℤ j k then some row else c j

-- The rows behind the logs, each in its place; a later one wins.
unfoldable pub stored : List Log → Contents → Contents
stored [] c = c
stored (log ∷ logs) c = stored logs (put_row (int64_of log.index) (row_of log) c)

abbrev pub without : ℤ → ℤ → Contents → Contents
without a b c = λ j. if leb_ℤ a j && leb_ℤ j b then none else c j

-- One of two values, for success and for failure.
abbrev pub outcome {ℓ} : {A : Type ℓ} → Option StoreError → A → A → A
outcome none a b = a
outcome (some e) a b = b

module _ (db : Database) (laws : SqlLaws db) where
  -- A call that changes the rows as `ok` says, or fails and leaves them.
  abbrev pub AllOrNothing : Option StoreError × db.State → Contents → Contents → Type 0
  AllOrNothing (err, u) before ok = laws.rows u ≡ outcome err ok before

  finish-AllOrNothing : (tx : db.Tx) → AllOrNothing (finish db tx) (laws.base tx) (laws.pending tx)
  unfolding finish
  finish-AllOrNothing tx = elim (Option-cases (db.commit tx).0) [
    | inl k ↦
        rw k (fun_ext (laws.committed tx (db.commit tx).1 (ap (λ e. (e, (db.commit tx).1)) k)))
    | inr (e, k) ↦
        rw k (fun_ext (laws.uncommitted tx (db.commit tx).1 e (ap (λ x. (x, (db.commit tx).1)) k)))
  ]

  insert_all-AllOrNothing :
      (logs : List Log) (tx : db.Tx)
      → AllOrNothing (insert_all db logs tx) (laws.base tx) (stored logs (laws.pending tx))
  unfolding insert_all stored
  insert_all-AllOrNothing [] tx = finish-AllOrNothing tx
  insert_all-AllOrNothing (log ∷ logs) tx =
      let k = int64_of log.index in
      let r = db.upsert_log tx k (row_of log) in
      let same : laws.base r.1 ≡ laws.base tx = fun_ext (laws.base_kept tx k (row_of log)) in
      elim (Option-cases r.0) [
        | inr (e, h) ↦ rw (h, insert_all) (fun_ext (laws.rolled_back r.1) ∙ same)
        | inl h ↦
            let put : laws.pending r.1 ≡ put_row k (row_of log) (laws.pending tx) =
              fun_ext (laws.upserted tx r.1 k (row_of log) (ap (λ x. (x, r.1)) h)) in
            let rest = insert_all-AllOrNothing logs r.1 in
            rw (h, insert_all)
              (rest
                ∙ ap
                    (λ (p : Contents × Contents).
                      outcome (insert_all db logs r.1).0 (stored logs p.0) p.1)
                    (λ i. (put i, same i)))
      ]

  with_statement-AllOrNothing :
      (logs : List Log) (err : Option String) (tx : db.Tx)
      → AllOrNothing (with_statement db logs err tx) (laws.base tx) (stored logs (laws.pending tx))
  unfolding with_statement
  with_statement-AllOrNothing logs (some e) tx = fun_ext (laws.rolled_back tx)
  with_statement-AllOrNothing logs none tx = insert_all-AllOrNothing logs tx

  in_transaction-AllOrNothing :
      (logs : List Log) (got : String ⊎ db.Tx) (s : db.State)
      → db.begin s ≡ got
      → AllOrNothing (in_transaction db logs got s) (laws.rows s) (stored logs (laws.rows s))
  unfolding in_transaction
  in_transaction-AllOrNothing logs (inl e) s h = refl
  in_transaction-AllOrNothing logs (inr tx) s h =
      let pending : laws.pending tx ≡ laws.rows s = fun_ext (λ k. (laws.begun s tx h k).0) in
      let base : laws.base tx ≡ laws.rows s = fun_ext (λ k. (laws.begun s tx h k).1) in
      rw pending at (rw base at (with_statement-AllOrNothing logs (db.prepare tx) tx))

  -- StoreLogs stores all of the logs, or fails and stores none of them.
  pub store_logs-AllOrNothing :
      (logs : List Log) (s : db.State)
      → AllOrNothing (store_logs db logs s) (laws.rows s) (stored logs (laws.rows s))
  unfolding store_logs
  store_logs-AllOrNothing logs s = in_transaction-AllOrNothing logs (db.begin s) s refl

  pub delete_range-AllOrNothing :
      (min max : ℕ) (s : db.State)
      → AllOrNothing
          (delete_range db min max s)
          (laws.rows s)
          (without (int64_of min) (int64_of max) (laws.rows s))
  unfolding delete_range
  delete_range-AllOrNothing min max s =
      let r = db.delete_logs s (int64_of min) (int64_of max) in
      elim (Option-cases r.0) [
        | inl k ↦
            rw k (fun_ext (laws.deleted s r.1 (int64_of min) (int64_of max) (ap (λ e. (e, r.1)) k)))
        | inr (e, k) ↦
            rw k (
              fun_ext (laws.undeleted s r.1 (int64_of min) (int64_of max) e (ap (λ x. (x, r.1)) k)))
      ]
