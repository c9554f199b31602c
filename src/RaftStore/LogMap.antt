-- ===== src/RaftStore/LogMap.antt =====
-- The map from indices to logs that raft takes raftsqlite/store.go to be.
use Prim.Native.String.{String}
use literaft.Base.{
  ℕ, ◌%◌, ◌≡◌, ◌≢◌, ◌≤◌, ◌<◌, refl, sym, subst, ◌&&◌, Option, none, some, Bool-cases, List, [], ◌∷◌,
  ◌⊎◌, inl, inr, leb, ◌==◌, if◌then◌else◌, arith,
}
use literaft.Base.Int.{pos, negsuc, i64_mod, int64_of, int64_of_pos, uint64_of, wrap_int64}
use literaft.Proto.RoundTrip.{All}
use literaft.RaftStore.{
  StoreError, sql_error, log_not_found, Log, Row, Database, row_of, log_of, log_type_of,
  scan_uint64, first_index, last_index, get_log, store_logs, delete_range,
}
use literaft.RaftStore.Contents.{Contents, put_row, stored, without, outcome}

abbrev pub LogMap : Type 0
LogMap = ℕ → Option Log

abbrev pub put_logs : List Log → LogMap → LogMap
put_logs [] m = m
put_logs (log ∷ logs) m = put_logs logs (λ i. if i == log.index then some log else m i)

abbrev pub delete_between : ℕ → ℕ → LogMap → LogMap
delete_between min max m = λ i. if leb min i && leb i max then none else m i

pub data Op : Type 0 where
  stores : List Log → Op
  deletes : ℕ → ℕ → Op

abbrev pub spec : Op → LogMap → LogMap
spec (stores logs) = put_logs logs
spec (deletes min max) = delete_between min max

abbrev pub replay : List Op → LogMap → LogMap
replay [] m = m
replay (op ∷ ops) m = replay ops (spec op m)

-- A log that int64 holds: an index and a term below 2 ^ 63, a time that UnixNano can give.
pub record Fits (log : Log) : Type 0 where
  pub indexed : log.index < i64_mod
  pub in_term : log.term < i64_mod
  pub typed : log.log_type < 256
  pub timed : wrap_int64 log.appended_at ≡ log.appended_at

abbrev pub OpFits : Op → Type 0
OpFits (stores logs) = All Fits logs
OpFits (deletes min max) = (min < i64_mod) × (max < i64_mod)

-- Error text aside, what GetLog says of a map.
abbrev pub found : Option Log → StoreError ⊎ Log
found none = inl log_not_found
found (some log) = inr log

-- The first and the last index of a map; 0 if it has none.
abbrev pub IsFirst : LogMap → ℕ → Type 0
IsFirst m n = ((n ≡ 0) × ((i : ℕ) → m i ≡ none)) ⊎ ((m n ≢ none) × ((i : ℕ) → m i ≢ none → n ≤ i))

abbrev pub IsLast : LogMap → ℕ → Type 0
IsLast m n = ((n ≡ 0) × ((i : ℕ) → m i ≡ none)) ⊎ ((m n ≢ none) × ((i : ℕ) → m i ≢ none → i ≤ n))

-- A statement of the database failed, or the answer is right.
abbrev pub Answered {ℓ} : {A : Type ℓ} → StoreError ⊎ A → Type ℓ → Type ℓ
Answered r P = ((e : String) × (r ≡ inl (sql_error e))) ⊎ P

abbrev pub row_of? : Option Log → Option Row
row_of? none = none
row_of? (some log) = some (row_of log)

-- The rows are those of the map.
pub record Holds (c : Contents) (m : LogMap) : Type 0 where
  pub negative : (n : ℕ) → c (negsuc n) ≡ none
  pub held : (i : ℕ) → c (pos i) ≡ row_of? (m i)
  pub fits : (i : ℕ) (log : Log) → m i ≡ some log → Fits log × (log.index ≡ i)

pub put_row-Holds :
    (c : Contents) (m : LogMap) (log : Log)
    → Fits log
    → Holds c m
    → Holds
        (put_row (int64_of log.index) (row_of log) c)
        (λ i. if i == log.index then some log else m i)
put_row-Holds c m log fits v = rw (int64_of_pos log.index fits.indexed) (record {
  negative = v.negative;
  held = λ i. elim (Bool-cases (i == log.index)) [ inl h ↦ rw h refl | inr h ↦ rw h (v.held i) ];
  fits = λ i l e. elim (Bool-cases (i == log.index)) [
    | inl h ↦
        let got : some log ≡ some l = rw h at e in
        let same : log ≡ l = cc got in
        subst (λ (x : Log). Fits x × (x.index ≡ i)) same (fits, ground (arith, h))
    | inr h ↦ v.fits i l (rw h at e)
  ];
})

pub stored-Holds :
    (logs : List Log) (c : Contents) (m : LogMap)
    → All Fits logs
    → Holds c m
    → Holds (stored logs c) (put_logs logs m)
unfolding stored
stored-Holds [] c m fits v = v
stored-Holds (log ∷ logs) c m (first, rest) v =
    stored-Holds logs _ _ rest (put_row-Holds c m log first v)

pub without-Holds :
    (min max : ℕ) (c : Contents) (m : LogMap)
    → min < i64_mod
    → max < i64_mod
    → Holds c m
    → Holds (without (int64_of min) (int64_of max) c) (delete_between min max m)
without-Holds min max c m lo hi v = rw (int64_of_pos min lo) (
    rw (int64_of_pos max hi) (record {
      negative = v.negative;
      held = λ i. elim (Bool-cases (leb min i && leb i max)) [
        | inl h ↦ rw h refl
        | inr h ↦ rw h (v.held i)
      ];
      fits = λ i l e. elim (Bool-cases (leb min i && leb i max)) [
        | inl h ↦ absurd (let got : none ≡ some l = rw h at e in cc got)
        | inr h ↦ v.fits i l (rw h at e)
      ];
    }))

pub outcome-Holds :
    (err : Option StoreError) (c before ok : Contents) (m m' : LogMap)
    → c ≡ outcome err ok before
    → Holds before m
    → Holds ok m'
    → Holds c (outcome err m' m)
outcome-Holds none c before ok m m' e v w = subst (λ x. Holds x m') (sym e) w
outcome-Holds (some x) c before ok m m' e v w = subst (λ y. Holds y m) (sym e) v

pub decode : (log : Log) → Fits log → log_of log.index (row_of log) ≡ inr log
unfolding log_of row_of scan_uint64 log_type_of uint64_of
decode log fits =
    let typed : log.log_type % 256 ≡ log.log_type = omega (arith, fits.typed) in
    rw (int64_of_pos log.term fits.in_term) (rw typed (rw fits.timed refl))

module _ (db : Database) where
  -- What GetLog, FirstIndex and LastIndex say of a map.
  pub record Reads (s : db.State) (m : LogMap) : Type 0 where
    pub log_read : (i : ℕ) → i < i64_mod → Answered (get_log db i s) (get_log db i s ≡ found (m i))
    pub first_read :
        Answered (first_index db s) ((n : ℕ) × (first_index db s ≡ inr n) × IsFirst m n)
    pub last_read : Answered (last_index db s) ((n : ℕ) × (last_index db s ≡ inr n) × IsLast m n)

  unfoldable pub perform : Op → db.State → Option StoreError × db.State
  perform (stores logs) s = store_logs db logs s
  perform (deletes min max) s = delete_range db min max s

  -- The operations that succeeded, in their order, and the state at the end.
  unfoldable pub run : List Op → db.State → List Op × db.State
  unfolding perform
  run [] s = ([], s)
  run (op ∷ ops) s =
      let (err, u) = perform op s in let (done, v) = run ops u in (outcome err (op ∷ done) done, v)
