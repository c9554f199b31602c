-- ===== src/RaftStore/Refinement.antt =====
-- raftsqlite/store.go: the store is a map from indices to logs, as raft wants it to be.
use Prim.Native.String.{String}
use literaft.Base.{
  ℕ, ◌≡◌, ◌≢◌, ◌<◌, refl, ap, subst, ◌∙◌, Option, none, some, Option-cases, List, [], ◌∷◌, ◌⊎◌, inl,
  inr, leb→le,
}
use literaft.Base.Int.{ℤ, pos, negsuc, i64_mod, int64_of_pos, uint64_of}
use literaft.Proto.RoundTrip.{All}
use literaft.RaftStore.{
  StoreError, Row, Database, row_of, log_of, scan_log, null_int64, scan_index, first_index,
  last_index, get_log, store_logs, delete_range,
}
use literaft.RaftStore.Laws.{SqlLaws}
use literaft.RaftStore.Contents.{
  Contents, outcome, store_logs-AllOrNothing, delete_range-AllOrNothing,
}
use literaft.RaftStore.LogMap.{
  Answered, LogMap, Op, stores, deletes, spec, replay, OpFits, found, IsFirst, IsLast, row_of?,
  Holds, stored-Holds, without-Holds, outcome-Holds, decode, Reads, perform, run,
}

module _ (db : Database) (laws : SqlLaws db) where
  perform-Holds :
      (op : Op) (s : db.State) (m : LogMap)
      → OpFits op
      → Holds (laws.rows s) m
      → Holds (laws.rows (perform db op s).1) (outcome (perform db op s).0 (spec op m) m)
  unfolding perform
  perform-Holds (stores logs) s m fits v =
      outcome-Holds (store_logs db logs s).0 _ _ _ m _ (store_logs-AllOrNothing db laws logs s) v
        (stored-Holds logs _ m fits v)
  perform-Holds (deletes min max) s m (lo, hi) v =
      outcome-Holds (delete_range db min max s).0 _ _ _ m _
        (delete_range-AllOrNothing db laws min max s) v (without-Holds min max _ m lo hi v)

  scan_log-Holds :
      (s : db.State) (m : LogMap) (i : ℕ) (got : String ⊎ Option Row)
      → db.select_log s (pos i) ≡ got
      → Holds (laws.rows s) m
      → Answered (scan_log i got) (scan_log i got ≡ found (m i))
  unfolding scan_log
  scan_log-Holds s m i (inl e) h v = inl (e, refl)
  scan_log-Holds s m i (inr row) h v =
      let e : row ≡ row_of? (m i) = laws.selected s (pos i) row h ∙ v.held i in
      rw e (
        inr (elim (Option-cases (m i)) [
          | inl k ↦ rw k refl
          | inr (log, k) ↦
              let (fits, at) = v.fits i log k in
              rw k (subst (λ (j : ℕ). log_of j (row_of log) ≡ inr log) at (decode log fits))
        ]))

  get_log-Holds :
      (s : db.State) (m : LogMap) (i : ℕ)
      → i < i64_mod
      → Holds (laws.rows s) m
      → Answered (get_log db i s) (get_log db i s ≡ found (m i))
  unfolding get_log
  get_log-Holds s m i lt v =
      rw (int64_of_pos i lt) (scan_log-Holds s m i (db.select_log s (pos i)) refl v)

  no_rows : (c : Contents) (m : LogMap) → Holds c m → ((k : ℤ) → c k ≡ none) → (i : ℕ) → m i ≡ none
  no_rows c m v h i = elim (Option-cases (m i)) [
    | inl k ↦ k
    | inr (log, k) ↦
        let a : c (pos i) ≡ some (row_of log) = v.held i ∙ ap row_of? k in
        absurd (cc (a, h (pos i)))
  ]

  in_rows : (c : Contents) (m : LogMap) → Holds c m → (i : ℕ) → m i ≢ none → c (pos i) ≢ none
  in_rows c m v i ne z = elim (Option-cases (m i)) [
    | inl k ↦ ne k
    | inr (log, k) ↦
        let a : c (pos i) ≡ some (row_of log) = v.held i ∙ ap row_of? k in absurd (cc (a, z))
  ]

  in_map : (c : Contents) (m : LogMap) → Holds c m → (i : ℕ) → c (pos i) ≢ none → m i ≢ none
  in_map c m v i ne z = ne (v.held i ∙ ap row_of? z)

  min_idx-Holds :
      (s : db.State) (m : LogMap) (got : String ⊎ Option ℤ)
      → db.min_idx s ≡ got
      → Holds (laws.rows s) m
      → Answered (scan_index got) ((n : ℕ) × (scan_index got ≡ inr n) × IsFirst m n)
  unfolding scan_index null_int64 uint64_of
  min_idx-Holds s m (inl e) h v = inl (e, refl)
  min_idx-Holds s m (inr none) h v =
      inr (0, refl, inl (refl, no_rows (laws.rows s) m v (laws.min_of_none s h)))
  min_idx-Holds s m (inr (some (negsuc n))) h v =
      absurd ((laws.min_of_some s (negsuc n) h).0 (v.negative n))
  min_idx-Holds s m (inr (some (pos n))) h v =
      let (is, least) = laws.min_of_some s (pos n) h in
      inr (
        n,
        refl,
        inr (
          in_map (laws.rows s) m v n is,
          λ i ne. leb→le n i (least (pos i) (in_rows (laws.rows s) m v i ne)),
        ),
      )

  max_idx-Holds :
      (s : db.State) (m : LogMap) (got : String ⊎ Option ℤ)
      → db.max_idx s ≡ got
      → Holds (laws.rows s) m
      → Answered (scan_index got) ((n : ℕ) × (scan_index got ≡ inr n) × IsLast m n)
  unfolding scan_index null_int64 uint64_of
  max_idx-Holds s m (inl e) h v = inl (e, refl)
  max_idx-Holds s m (inr none) h v =
      inr (0, refl, inl (refl, no_rows (laws.rows s) m v (laws.max_of_none s h)))
  max_idx-Holds s m (inr (some (negsuc n))) h v =
      absurd ((laws.max_of_some s (negsuc n) h).0 (v.negative n))
  max_idx-Holds s m (inr (some (pos n))) h v =
      let (is, greatest) = laws.max_of_some s (pos n) h in
      inr (
        n,
        refl,
        inr (
          in_map (laws.rows s) m v n is,
          λ i ne. leb→le i n (greatest (pos i) (in_rows (laws.rows s) m v i ne)),
        ),
      )

  Holds-Reads : (s : db.State) (m : LogMap) → Holds (laws.rows s) m → Reads db s m
  unfolding first_index last_index
  Holds-Reads s m v = record {
    log_read = λ i lt. get_log-Holds s m i lt v;
    first_read = min_idx-Holds s m (db.min_idx s) refl v;
    last_read = max_idx-Holds s m (db.max_idx s) refl v;
  }

  replay-outcome :
      (err : Option StoreError) (op : Op) (done : List Op) (m : LogMap)
      → replay done (outcome err (spec op m) m) ≡ replay (outcome err (op ∷ done) done) m
  replay-outcome none op done m = refl
  replay-outcome (some e) op done m = refl

  run-Holds :
      (ops : List Op) (s : db.State) (m : LogMap)
      → All OpFits ops
      → Holds (laws.rows s) m
      → Holds (laws.rows (run db ops s).1) (replay (run db ops s).0 m)
  unfolding run
  run-Holds [] s m fits v = v
  run-Holds (op ∷ ops) s m (first, rest) v =
      let r = perform db op s in
      let w = run-Holds ops r.1 _ rest (perform-Holds op s m first v) in
      subst (Holds (laws.rows (run db ops r.1).1)) (replay-outcome r.0 op (run db ops r.1).0 m) w

  -- Whatever logs an empty store is given and whatever ranges are deleted, each of these calls failing
  -- or not, if the indices and terms are below 2 ^ 63 and int64 holds the times: the store then
  -- reads as the map that the calls which succeeded make in their order. GetLog returns the map's
  -- log at each index, or that it is not found, and FirstIndex and LastIndex its least and greatest
  -- index, or 0 if it is empty; each of them does so unless the database fails it.
  pub run_refines :
      (ops : List Op) (s : db.State)
      → All OpFits ops
      → ((k : ℤ) → laws.rows s k ≡ none)
      → Reads db (run db ops s).1 (replay (run db ops s).0 (λ i. none))
  run_refines ops s fits empty = Holds-Reads (run db ops s).1 _ (
      run-Holds ops s _ fits (record {
        negative = λ n. empty (negsuc n);
        held = λ i. empty (pos i);
        fits = λ i l e. absurd (cc (e));
      }))
