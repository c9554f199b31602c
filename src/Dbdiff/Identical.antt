-- ===== src/Dbdiff/Identical.antt =====
-- cmd/dbdiff/main.go: the files that it calls identical are equal.
use Prim.Native.String.{String}
use native.Mathlib.Nat.{div-add-mod', div-mul-le_self, mul-le-mul_right}
use literaft.Base.{
  ℕ, zero, suc, ◌+◌, ◌*◌, ◌/◌, ◌%◌, ◌≤◌, ◌<◌, ◌≡◌, ◌↔◌, refl, sym, ap, ◌∙◌, Bool, false, Option,
  none, some, List, [], ◌∷◌, ◌++◌, ◌⊎◌, inl, inr, length, take, drop, leb, ◌==◌, if◌then◌else◌,
  arith, Bool-cases, length-take, length-drop,
}
use literaft.Dbdiff.{
  Line, identical, pages_differ, page_size, diff_bytes, page_of, compare_pages, compare_at,
  compare_from, max_pages, warnings, sizes, diff, diff_sizes, diff_paths,
}
use literaft.Dbdiff.DiffBytes.{
  diff_from-same, no_diff, take-add, take_all, last_line, last_line-append,
}

module _ (verbose : Bool) (path_a path_b : String) (size : ℕ) (a b : List ℕ) where
  abbrev differs_at : ℕ → Bool
  differs_at i = (compare_at verbose path_a path_b size a b i).0

  abbrev total : ℕ → ℕ → ℕ → ℕ
  total n i d = (compare_from verbose path_a path_b size a b n i d).0

  total-step : (n i d : ℕ) → total (suc n) i d ≡ total n (suc i) (if differs_at i then suc d else d)
  unfolding compare_from
  total-step n i d = refl

  le-total : (n i d : ℕ) → d ≤ total n i d
  unfolding compare_from
  le-total zero i d = omega arith
  le-total (suc n) i d =
      let rest = le-total n (suc i) (if differs_at i then suc d else d) in
      rw total-step (elim (Bool-cases (differs_at i)) [
        | inl h ↦ omega (arith, rest, ap (λ (t : Bool). if t then suc d else d) h)
        | inr h ↦ omega (arith, rest, ap (λ (t : Bool). if t then suc d else d) h)
      ])

  no_differing : (n i d : ℕ) → total n i d ≡ 0 → (k : ℕ) → k < n → differs_at (i + k) ≡ false
  no_differing zero i d z k lt = absurd (omega arith)
  no_differing (suc n) i d z zero lt =
      let at : i + 0 ≡ i = omega arith in
      rw at (elim (Bool-cases (differs_at i)) [
        | inr h ↦ h
        | inl h ↦ absurd (
            omega (
              arith,
              z,
              total-step n i d,
              le-total n (suc i) (if differs_at i then suc d else d),
              ap (λ (t : Bool). if t then suc d else d) h,
            ))
      ])
  no_differing (suc n) i d z (suc k) lt =
      let at : i + suc k ≡ suc i + k = omega arith in
      rw at (no_differing n (suc i) _ (sym (total-step n i d) ∙ z) k (omega arith))

  none_differing : (n i : ℕ) → ((k : ℕ) → k < n → differs_at (i + k) ≡ false) → total n i 0 ≡ 0
  none_differing zero i h = unfold compare_from in refl
  none_differing (suc n) i h =
      let at : i + 0 ≡ i = omega arith in
      let first : differs_at i ≡ false = rw at at (h 0 (omega arith)) in
      total-step n i 0
      ∙ (ap (λ (t : Bool). total n (suc i) (if t then 1 else 0)) first
          ∙ none_differing n (suc i) (λ k lt.
            let next : i + suc k ≡ suc i + k = omega arith in rw next at (h (suc k) (omega arith))))

  -- What it takes of a page not to differ.
  same_page :
      (i : ℕ)
      → differs_at i ≡ false
      → (i < length a / size)
        × (i < length b / size)
        × ((diff_bytes (page_of size i a) (page_of size i b)).1 ≡ 0)
  unfolding compare_at compare_pages
  same_page i h = ground arith

  compared :
      (i : ℕ) (pa pb : List ℕ)
      → (diff_bytes pa pb).1 ≡ 0
      → (compare_pages verbose path_a path_b size a b i pa pb).0 ≡ false
  unfolding compare_pages
  compared i pa pb z = ground (arith, z)

  page_same :
      (i : ℕ)
      → i < length a / size
      → i < length b / size
      → page_of size i a ≡ page_of size i b
      → differs_at i ≡ false
  unfolding compare_at diff_bytes
  page_same i la lb e =
      let in_a : leb (length a / size) i ≡ false = ground arith in
      let in_b : leb (length b / size) i ≡ false = ground arith in
      let none_differ : (diff_bytes (page_of size i a) (page_of size i b)).1 ≡ 0 =
        rw (e, diff_bytes) (ap (λ (p : Option ℕ × ℕ). p.1) (diff_from-same 0 (page_of size i b))) in
      ground (arith, in_a, in_b, compared i (page_of size i a) (page_of size i b) none_differ)

  length-page_of : (db : List ℕ) (i : ℕ) → i < length db / size → length (page_of size i db) ≡ size
  length-page_of db i lt =
      let room = div-mul-le_self (length db) size in
      let next : suc i * size ≤ length db / size * size = mul-le-mul_right size lt in
      omega (arith, length-take size (drop (i * size) db), length-drop (i * size) db, room, next)

  takes_agree :
      (n : ℕ)
      → ((i : ℕ) → i < n → page_of size i a ≡ page_of size i b)
      → take (n * size) a ≡ take (n * size) b
  takes_agree zero h = let e : 0 * size ≡ 0 = omega arith in rw e refl
  takes_agree (suc n) h =
      let e : suc n * size ≡ n * size + size = omega arith in
      rw e (
        take-add (n * size) size a
        ∙ (λ k. takes_agree n (λ i lt. h i (omega arith)) k ++ h n (omega arith) k)
        ∙ sym (take-add (n * size) size b))

  counts_agree :
      (n : ℕ)
      → n ≡ max_pages verbose path_a path_b size a b
      → ((k : ℕ) → k < n → (k < length a / size) × (k < length b / size))
      → (n ≡ length a / size) × (n ≡ length b / size)
  counts_agree n e h = ground (arith, e, h (length a / size), h (length b / size))

  module _ (whole_a : length a % size ≡ 0) (whole_b : length b % size ≡ 0) where
    files_equal : total (max_pages verbose path_a path_b size a b) 0 0 ≡ 0 → a ≡ b
    unfolding diff_bytes
    files_equal z =
        let n = max_pages verbose path_a path_b size a b in
        let same : (k : ℕ) → k < n → differs_at k ≡ false =
          λ k lt. (let at : 0 + k ≡ k = omega arith in rw at at (no_differing n 0 0 z k lt)) in
        let pages : (k : ℕ) → k < n → page_of size k a ≡ page_of size k b = λ k lt.
          let (la, lb, none_differ) = same_page k (same k lt) in
          no_diff 0 none 0 _ _ (length-page_of a k la ∙ sym (length-page_of b k lb)) none_differ in
        let (in_a, in_b) =
          counts_agree n refl
            (λ k lt. let (la, lb, none_differ) = same_page k (same k lt) in (la, lb)) in
        let cut = takes_agree n pages in
        let len_a : n * size ≡ length a =
          ap (λ k. k * size) in_a ∙ omega (arith, div-add-mod' (length a) size, whole_a) in
        let len_b : n * size ≡ length b =
          ap (λ k. k * size) in_b ∙ omega (arith, div-add-mod' (length b) size, whole_b) in
        sym (take_all (n * size) a len_a) ∙ (cut ∙ take_all (n * size) b len_b)

    equal_files : a ≡ b → total (max_pages verbose path_a path_b size a b) 0 0 ≡ 0
    equal_files e = none_differing (max_pages verbose path_a path_b size a b) 0 (λ k lt.
        let at : 0 + k ≡ k = omega arith in
        let same : length a / size ≡ length b / size = ap (λ (d : List ℕ). length d / size) e in
        rw at (
          page_same k (ground (arith, same, lt)) (ground (arith, same, lt))
            (ap (page_of size k) e)))

    abbrev end_line : Line
    end_line =
        if total (max_pages verbose path_a path_b size a b) 0 0 == 0
        then identical
        else pages_differ (total (max_pages verbose path_a path_b size a b) 0 0)

    last-diff : last_line (diff verbose path_a path_b size a b) ≡ some end_line
    unfolding diff
    last-diff = last_line-append (warnings verbose path_a path_b size a b path_a a) _ end_line (
        last_line-append (warnings verbose path_a path_b size a b path_b b) _ end_line (
          last_line-append
            (sizes size (length a / size) (length b / size)
              ∷ (compare_from verbose path_a path_b size a b
                  (max_pages verbose path_a path_b size a b) 0 0).1)
            (end_line ∷ []) end_line refl))

    identical_iff : (last_line (diff verbose path_a path_b size a b) ≡ some identical) ↔ (a ≡ b)
    identical_iff = (
      λ e. elim (Bool-cases (total (max_pages verbose path_a path_b size a b) 0 0 == 0)) [
        | inl h ↦ files_equal (ground (arith, h))
        | inr h ↦ absurd (cc (rw h at (sym last-diff ∙ e)))
      ],
      λ e. last-diff ∙ (let none_differ = equal_files e in rw none_differ refl),
    )

-- Two readable files with the same page size, each a whole number of pages: dbdiff compares them, and
-- ends by calling them identical exactly if they are equal.
pub diff_paths-identical_iff :
    (read_file : String → String ⊎ List ℕ) (verbose : Bool) (path_a path_b : String) (a b : List ℕ)
    (size : ℕ)
    → read_file path_a ≡ inr a
    → read_file path_b ≡ inr b
    → page_size a ≡ inr size
    → page_size b ≡ inr size
    → length a % size ≡ 0
    → length b % size ≡ 0
    → (lines : List Line) × (diff_paths read_file verbose (path_a ∷ path_b ∷ []) ≡ inr lines)
      × ((last_line lines ≡ some identical) ↔ (a ≡ b))
unfolding diff_paths diff_sizes
diff_paths-identical_iff read_file verbose path_a path_b a b size ra rb pa pb wa wb = (
  diff verbose path_a path_b size a b,
  rw (ra, diff_paths) (rw (rb, pa, pb, diff_sizes) (ground arith)),
  identical_iff verbose path_a path_b size a b wa wb,
)
