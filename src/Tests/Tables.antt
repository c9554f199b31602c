-- ===== src/Tests/Tables.antt =====
-- Two tables as lists, in the way that raftsqlite/store.go relies on SQLite.
use Prim.Native.String.{String}
use literaft.Base.{
  ℕ, ◌≡◌, ◌≢◌, refl, sym, ap, subst, ◌∙◌, Bool, true, false, ◌&&◌, Option, none, some, List, [],
  ◌∷◌, ◌⊎◌, inl, inr, ◌==◌, if◌then◌else◌, arith, Bool-cases, Option-cases,
}
use literaft.Base.Int.{ℤ, pos, negsuc, leb_ℤ, eq_ℤ}
use literaft.RaftStore.{Row, Database}
use literaft.RaftStore.Laws.{SqlLaws}

abbrev pub Entries : Type 0
Entries = List (ℤ × Row)

abbrev pub row_at : Entries → ℤ → Option Row
row_at [] k = none
row_at ((j, row) ∷ l) k = if eq_ℤ k j then some row else row_at l k

abbrev pub remove : (ℤ → Bool) → Entries → Entries
remove t [] = []
remove t ((j, row) ∷ l) = let rest = remove t l in if t j then rest else (j, row) ∷ rest

-- The first of the keys in an order.
abbrev pub better : (ℤ → ℤ → Bool) → ℤ → Option ℤ → ℤ
better le k none = k
better le k (some j) = if le k j then k else j

abbrev pub bound : (ℤ → ℤ → Bool) → Entries → Option ℤ
bound le [] = none
bound le ((j, row) ∷ l) = some (better le j (bound le l))

abbrev pub geb_ℤ : ℤ → ℤ → Bool
geb_ℤ j k = leb_ℤ k j

abbrev pub same_key : List ℕ → List ℕ → Bool
same_key [] [] = true
same_key [] (y ∷ ys) = false
same_key (x ∷ xs) [] = false
same_key (x ∷ xs) (y ∷ ys) = (x == y) && same_key xs ys

abbrev pub value_at : List (List ℕ × List ℕ) → List ℕ → Option (List ℕ)
value_at [] q = none
value_at ((key, val) ∷ l) q = if same_key q key then some val else value_at l q

pub record Tables : Type 0 where
  pub logs : Entries
  pub stable : List (List ℕ × List ℕ)

abbrev pub tables : Database
tables = record {
  State = Tables;
  Tx = Tables × Tables;
  min_idx = λ s. inr (bound leb_ℤ s.logs);
  max_idx = λ s. inr (bound geb_ℤ s.logs);
  select_log = λ s k. inr (row_at s.logs k);
  begin = λ s. inr (s, s);
  prepare = λ tx. none;
  upsert_log = λ tx k row. (none, (tx.0, record tx.1 { logs = (k, row) ∷ tx.1.logs }));
  commit = λ tx. (none, tx.1);
  rollback = λ tx. tx.0;
  delete_logs = λ s a b. (none, record s { logs = remove (λ k. leb_ℤ a k && leb_ℤ k b) s.logs });
  upsert_value = λ s key val. (none, record s { stable = (key, val) ∷ s.stable });
  select_value = λ s key. inr (value_at s.stable key);
}

eq_ℤ_refl : (k : ℤ) → eq_ℤ k k ≡ true
eq_ℤ_refl (pos n) = ground arith
eq_ℤ_refl (negsuc n) = ground arith

eq_ℤ_eq : (j k : ℤ) → eq_ℤ j k ≡ true → j ≡ k
eq_ℤ_eq (pos a) (pos b) h = ap pos (ground arith)
eq_ℤ_eq (pos a) (negsuc b) h = absurd (cc (h))
eq_ℤ_eq (negsuc a) (pos b) h = absurd (cc (h))
eq_ℤ_eq (negsuc a) (negsuc b) h = ap negsuc (ground arith)

leb_ℤ_total : (j k : ℤ) → leb_ℤ j k ≡ false → leb_ℤ k j ≡ true
leb_ℤ_total (pos a) (pos b) h = ground arith
leb_ℤ_total (pos a) (negsuc b) h = refl
leb_ℤ_total (negsuc a) (pos b) h = absurd (cc (h))
leb_ℤ_total (negsuc a) (negsuc b) h = ground arith

leb_ℤ_trans : (i j k : ℤ) → leb_ℤ i j ≡ true → leb_ℤ j k ≡ true → leb_ℤ i k ≡ true
leb_ℤ_trans i j k g h = ground arith

leb_ℤ_refl : (k : ℤ) → leb_ℤ k k ≡ true
leb_ℤ_refl (pos n) = ground arith
leb_ℤ_refl (negsuc n) = ground arith

same_key_refl : (q : List ℕ) → same_key q q ≡ true
same_key_refl [] = refl
same_key_refl (x ∷ xs) = rw (same_key_refl xs) (ground arith)

same_key_eq : (q p : List ℕ) → same_key q p ≡ true → q ≡ p
same_key_eq [] [] h = refl
same_key_eq [] (y ∷ ys) h = absurd (cc (h))
same_key_eq (x ∷ xs) [] h = absurd (cc (h))
same_key_eq (x ∷ xs) (y ∷ ys) h = ground (arith, same_key_eq xs ys)

row_at-remove :
    (t : ℤ → Bool) (l : Entries) (k : ℤ)
    → row_at (remove t l) k ≡ (if t k then none else row_at l k)
row_at-remove t [] k = elim (Bool-cases (t k)) [ inl h ↦ rw h refl | inr h ↦ rw h refl ]
row_at-remove t ((j, row) ∷ l) k =
    let ih = row_at-remove t l k in
    elim (Bool-cases (t j)) [
      | inl tj ↦ elim (Bool-cases (eq_ℤ k j)) [
        | inl h ↦ let tk : t k ≡ true = ap t (eq_ℤ_eq k j h) ∙ tj in rw tj (ih ∙ rw tk refl)
        | inr h ↦ rw tj (rw h ih)
      ]
      | inr tj ↦ elim (Bool-cases (eq_ℤ k j)) [
        | inl h ↦ let tk : t k ≡ false = ap t (eq_ℤ_eq k j h) ∙ tj in rw tj (rw h (rw tk refl))
        | inr h ↦ rw tj (rw h ih)
      ]
    ]

bound-none : (le : ℤ → ℤ → Bool) (l : Entries) → bound le l ≡ none → (k : ℤ) → row_at l k ≡ none
bound-none le [] h k = refl
bound-none le ((j, row) ∷ l) h k = absurd (cc (h))

-- `b` is one of the keys, and `below` says that it comes before each of them.
abbrev IsBound : (ℤ → ℤ → Bool) → Entries → ℤ → Type 0
IsBound le l b = (row_at l b ≢ none) × ((j : ℤ) → row_at l j ≢ none → le b j ≡ true)

IsBound-single :
    (le : ℤ → ℤ → Bool) (j : ℤ) (row : Row) (l : Entries)
    → ((k : ℤ) → le k k ≡ true)
    → ((k : ℤ) → row_at l k ≡ none)
    → IsBound le ((j, row) ∷ l) j
IsBound-single le j row l rf none_in = (
  rw (eq_ℤ_refl j) (λ z. absurd (cc (z))),
  λ k ne. elim (Bool-cases (eq_ℤ k j)) [
    | inl h ↦ rw (eq_ℤ_eq k j h) (rf j)
    | inr h ↦ absurd ((rw h at ne) (none_in k))
  ],
)

-- The better of a new key and the bound of the rest.
IsBound-cons :
    (le : ℤ → ℤ → Bool) (j b c : ℤ) (row : Row) (l : Entries)
    → ((k : ℤ) → le k k ≡ true)
    → ((i k q : ℤ) → le i k ≡ true → le k q ≡ true → le i q ≡ true)
    → le c j ≡ true
    → le c b ≡ true
    → (c ≡ j) ⊎ (c ≡ b)
    → IsBound le l b
    → IsBound le ((j, row) ∷ l) c
IsBound-cons le j b c row l rf tr cj cb one (is, best) = (
  elim one [
    | inl e ↦ rw e (rw (eq_ℤ_refl j) (λ z. absurd (cc (z))))
    | inr e ↦
        rw e
          (elim (Bool-cases (eq_ℤ b j)) [ inl h ↦ rw h (λ z. absurd (cc (z))) | inr h ↦ rw h is ])
  ],
  λ k ne. elim (Bool-cases (eq_ℤ k j)) [
    | inl h ↦ rw (eq_ℤ_eq k j h) cj
    | inr h ↦ tr c b k cb (best k (rw h at ne))
  ],
)

record Order (le : ℤ → ℤ → Bool) : Type 0 where
  reflexive : (k : ℤ) → le k k ≡ true
  transitive : (i k q : ℤ) → le i k ≡ true → le k q ≡ true → le i q ≡ true
  total : (j k : ℤ) → le j k ≡ false → le k j ≡ true

bound-IsBound :
    (le : ℤ → ℤ → Bool) (l : Entries) (b : ℤ) → Order le → bound le l ≡ some b → IsBound le l b
bound-IsBound le [] b o h = absurd (cc (h))
bound-IsBound le ((j, row) ∷ l) b o h = elim (Option-cases (bound le l)) [
  | inl k ↦
      let got : some j ≡ some b = (rw k at h) in
      let e : j ≡ b = cc (got) in
      subst (IsBound le ((j, row) ∷ l)) e
        (IsBound-single le j row l o.reflexive (bound-none le l k))
  | inr (c, k) ↦
      let ih = bound-IsBound le l c o k in
      let got : some (if le j c then j else c) ≡ some b = (rw k at h) in
      let e : (if le j c then j else c) ≡ b = cc (got) in
      subst (IsBound le ((j, row) ∷ l)) e (elim (Bool-cases (le j c)) [
        | inl t ↦
            rw t
              (IsBound-cons le j c j row l o.reflexive o.transitive (o.reflexive j) t (inl refl) ih)
        | inr t ↦ rw t (
            IsBound-cons le j c c row l o.reflexive o.transitive (o.total j c t) (o.reflexive c)
              (inr refl) ih)
      ])
]

leb_ℤ-Order : Order leb_ℤ
leb_ℤ-Order = record { reflexive = leb_ℤ_refl; transitive = leb_ℤ_trans; total = leb_ℤ_total }

geb_ℤ-Order : Order geb_ℤ
geb_ℤ-Order = record {
  reflexive = leb_ℤ_refl;
  transitive = λ i k q a b. leb_ℤ_trans q k i b a;
  total = λ j k h. leb_ℤ_total k j h;
}

pub tables_laws : SqlLaws tables
tables_laws = record {
  rows = λ s. row_at s.logs;
  values = λ s. value_at s.stable;
  pending = λ tx. row_at tx.1.logs;
  base = λ tx. row_at tx.0.logs;
  min_of_none = λ s h. bound-none leb_ℤ s.logs (cc (h));
  min_of_some = λ s k h. bound-IsBound leb_ℤ s.logs k leb_ℤ-Order (cc (h));
  max_of_none = λ s h. bound-none geb_ℤ s.logs (cc (h));
  max_of_some = λ s k h. bound-IsBound geb_ℤ s.logs k geb_ℤ-Order (cc (h));
  selected = λ s k row h. cc (h);
  begun = λ s tx h k.
      let e : (s, s) ≡ tx = cc (h) in
      subst
        (λ (t : Tables × Tables).
          (row_at t.1.logs k ≡ row_at s.logs k) × (row_at t.0.logs k ≡ row_at s.logs k))
        e (refl, refl);
  upserted =
      λ tx u k row h j. ap (λ (r : Option String × (Tables × Tables)). row_at r.1.1.logs j) (sym h);
  base_kept = λ tx k row j. refl;
  committed = λ tx s h k. ap (λ (r : Option String × Tables). row_at r.1.logs k) (sym h);
  uncommitted = λ tx s e h k. absurd (cc (ap (λ (r : Option String × Tables). r.0) h));
  rolled_back = λ tx k. refl;
  deleted = λ s u a b h k.
      ap (λ (r : Option String × Tables). row_at r.1.logs k) (sym h)
      ∙ row_at-remove (λ j. leb_ℤ a j && leb_ℤ j b) s.logs k;
  undeleted = λ s u a b e h k. absurd (cc (ap (λ (r : Option String × Tables). r.0) h));
  value_put = λ s u key val h.
      let stored : (key, val) ∷ s.stable ≡ u.stable =
        ap (λ (r : Option String × Tables). r.1.stable) h in
      subst
        (λ (l : List (List ℕ × List ℕ)).
          (value_at l key ≡ some val)
          × ((q : List ℕ) → q ≢ key → value_at l q ≡ value_at s.stable q))
        stored
        (
          rw (same_key_refl key) refl,
          λ q ne. elim (Bool-cases (same_key q key)) [
            | inl t ↦ absurd (ne (same_key_eq q key t))
            | inr t ↦ rw t refl
          ],
        );
  value_selected = λ s key val h. cc (h);
}

abbrev pub empty_tables : Tables
empty_tables = record { logs = []; stable = [] }

pub rows_of_empty : (k : ℤ) → tables_laws.rows empty_tables k ≡ none
unfolding tables_laws
rows_of_empty k = refl
