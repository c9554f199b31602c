-- ===== src/Dbdiff/DiffBytes.antt =====
-- diffBytes of cmd/dbdiff/main.go, and the last line of an output.
use literaft.Base.{
  ℕ, zero, suc, ◌+◌, ◌≤◌, ◌≡◌, refl, sym, ap, ◌∙◌, Option, none, some, List, [], ◌∷◌, ◌++◌, inl,
  inr, length, take, drop, ◌==◌, arith, Bool-cases,
}
use literaft.Dbdiff.{Line, diff_from}

pub diff_from-same : (i : ℕ) (p : List ℕ) → diff_from i none 0 p p ≡ (none, 0)
unfolding diff_from
diff_from-same i [] = refl
diff_from-same i (x ∷ p) = ground (arith, diff_from-same (suc i) p)

pub le-diff_from :
    (i : ℕ) (first : Option ℕ) (count : ℕ) (a b : List ℕ) → count ≤ (diff_from i first count a b).1
unfolding diff_from
le-diff_from i first count [] b = omega arith
le-diff_from i first count (x ∷ a) [] = omega arith
le-diff_from i first count (x ∷ a) (y ∷ b) = elim (Bool-cases (x == y)) [
  | inl h ↦ rw h (le-diff_from (suc i) first count a b)
  | inr h ↦ rw h (
      omega (
        arith,
        le-diff_from (suc i) (elim first [ none ↦ some i | some k ↦ some k ]) (suc count) a b,
      ))
]

pub no_diff :
    (i : ℕ) (first : Option ℕ) (count : ℕ) (a b : List ℕ)
    → length a ≡ length b
    → (diff_from i first count a b).1 ≡ 0
    → a ≡ b
unfolding diff_from
no_diff i first count [] [] len z = refl
no_diff i first count [] (y ∷ b) len z = absurd (omega (arith, len))
no_diff i first count (x ∷ a) [] len z = absurd (omega (arith, len))
no_diff i first count (x ∷ a) (y ∷ b) len z = elim (Bool-cases (x == y)) [
  | inl h ↦
      let e : x ≡ y = ground (arith, h) in
      let rest = no_diff (suc i) first count a b (omega (arith, len)) (rw h at z) in
      λ k. e k ∷ rest k
  | inr h ↦ absurd (
      omega (
        arith,
        le-diff_from (suc i) (elim first [ none ↦ some i | some k ↦ some k ]) (suc count) a b,
        (rw h at z),
      ))
]

abbrev pub no_bytes : List ℕ
no_bytes = []

pub nil_take : (n : ℕ) → take n no_bytes ≡ no_bytes
nil_take zero = refl
nil_take (suc n) = refl

pub take-add : (m k : ℕ) (xs : List ℕ) → take (m + k) xs ≡ take m xs ++ take k (drop m xs)
take-add zero k xs = ap (λ n. take n xs) (omega arith)
take-add (suc m) k [] = nil_take (suc m + k) ∙ sym (nil_take k)
take-add (suc m) k (x ∷ xs) =
    let e : suc m + k ≡ suc (m + k) = omega arith in
    ap (λ n. take n (x ∷ xs)) e ∙ ap (λ ys. x ∷ ys) (take-add m k xs)

pub take_all : (n : ℕ) (xs : List ℕ) → n ≡ length xs → take n xs ≡ xs
take_all n [] e = nil_take n
take_all zero (x ∷ xs) e = absurd (omega (arith, e))
take_all (suc n) (x ∷ xs) e = ap (λ ys. x ∷ ys) (take_all n xs (omega (arith, e)))

abbrev pub last_line : List Line → Option Line
last_line [] = none
last_line (l ∷ []) = some l
last_line (l ∷ m ∷ ls) = last_line (m ∷ ls)

pub last_line-append :
    (ls ms : List Line) (e : Line) → last_line ms ≡ some e → last_line (ls ++ ms) ≡ some e
last_line-append [] ms e h = h
last_line-append (k ∷ []) [] e h = absurd (cc (h))
last_line-append (k ∷ []) (m ∷ ms) e h = h
last_line-append (k ∷ l ∷ ls) ms e h = last_line-append (l ∷ ls) ms e h
