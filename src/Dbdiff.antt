-- ===== src/Dbdiff.antt =====
-- cmd/dbdiff/main.go: two database files compared page by page. A printed line is a Line; the texts of
-- the lines and of the errors are left out, and so is main's exit.
pub mod DiffBytes
pub mod Identical
use Prim.Native.String.{String}
use Prim.Native.Nat.{bit_and}
use text.Mathlib.Text.{◌==◌ as str_eq}
use literaft.Base.{
  ℕ, zero, suc, ◌+◌, ◌-◌, ◌*◌, ◌/◌, ◌%◌, Bool, true, false, not, ◌||◌, Option, none, some, List, [],
  ◌∷◌, ◌++◌, ◌⊎◌, inl, inr, length, take, drop, get_or, ltb, leb, ◌==◌, if◌then◌else◌,
}

pub data Line : Type 0 where
  usage : Line
  partial_page : String → ℕ → ℕ → Line
  sizes : ℕ → ℕ → ℕ → Line
  only_in : ℕ → String → Line
  page_differs : ℕ → ℕ → ℕ → Line
  window : ℕ → List ℕ → Line
  identical : Line
  pages_differ : ℕ → Line

pub data DiffError : Type 0 where
  bad_usage : DiffError
  unreadable : String → DiffError
  short_file : ℕ → DiffError
  bad_size : ℕ → DiffError
  sizes_differ : ℕ → ℕ → DiffError

abbrev pub sqlite_header_size : ℕ
sqlite_header_size = 100

unfoldable pub page_size : List ℕ → DiffError ⊎ ℕ
page_size db =
    let size = get_or db 16 0 * 256 + get_or db 17 0 in
    if ltb (length db) sqlite_header_size
    then inl (short_file (length db))
    else if size == 1
    then inr 65536
    else if ltb size 512 || ltb 32768 size || not (bit_and size (size - 1) == 0)
    then inl (bad_size size)
    else inr size

-- The loop of diffBytes at byte `i`; -1 is `none`. The pages are of one length, so that every index
-- of the one is an index of the other.
unfoldable pub diff_from : ℕ → Option ℕ → ℕ → List ℕ → List ℕ → Option ℕ × ℕ
diff_from i first count [] b = (first, count)
diff_from i first count (x ∷ a) [] = (first, count)
diff_from i first count (x ∷ a) (y ∷ b) =
    let same = diff_from (suc i) first count a b in
    let other =
      diff_from (suc i) (elim first [ none ↦ some i | some k ↦ some k ]) (suc count) a b in
    if not (x == y) then other else same

unfoldable pub diff_bytes : List ℕ → List ℕ → Option ℕ × ℕ
unfolding diff_from
diff_bytes a b = diff_from 0 none 0 a b

abbrev pub page_of : ℕ → ℕ → List ℕ → List ℕ
page_of size i db = take size (drop (i * size) db)

-- hexWindow, less its formatting: it is called at a byte of the page.
abbrev pub hex_window : List ℕ → ℕ → Line
hex_window page offset = window offset (take 16 (drop offset page))

abbrev pub windows : Bool → List ℕ → List ℕ → Option ℕ → List Line
windows false pa pb first = []
windows true pa pb none = []
windows true pa pb (some k) = hex_window pa k ∷ hex_window pb k ∷ []

abbrev pub offset_of : Option ℕ → ℕ
offset_of none = 0
offset_of (some k) = k

-- One page of both files, or of the one that has it: whether it differs, and what is printed.
module _ (verbose : Bool) (path_a path_b : String) (size : ℕ) (a b : List ℕ) where
  unfoldable pub compare_pages : ℕ → List ℕ → List ℕ → Bool × List Line
  compare_pages i pa pb =
      let (first, count) = diff_bytes pa pb in
      if count == 0
      then (false, [])
      else (true, page_differs (suc i) count (offset_of first) ∷ windows verbose pa pb first)

  unfoldable pub compare_at : ℕ → Bool × List Line
  unfolding compare_pages
  compare_at i =
      if leb (length a / size) i
      then (true, only_in (suc i) path_b ∷ [])
      else if leb (length b / size) i
      then (true, only_in (suc i) path_a ∷ [])
      else compare_pages i (page_of size i a) (page_of size i b)

  -- The loop over `n` more pages.
  unfoldable pub compare_from : ℕ → ℕ → ℕ → ℕ × List Line
  unfolding compare_at
  compare_from zero i differing = (differing, [])
  compare_from (suc n) i differing =
      let (differs, lines) = compare_at i in
      let (total, rest) = compare_from n (suc i) (if differs then suc differing else differing) in
      (total, lines ++ rest)

  abbrev pub max_pages : ℕ
  max_pages = if ltb (length a / size) (length b / size) then length b / size else length a / size

  abbrev pub warnings : String → List ℕ → List Line
  warnings path db =
      if length db % size == 0 then [] else partial_page path size (length db % size) ∷ []

  unfoldable pub diff : List Line
  unfolding compare_from
  diff =
      let (differing, lines) = compare_from max_pages 0 0 in
      warnings path_a a
      ++ (warnings path_b b
          ++ (sizes size (length a / size) (length b / size)
              ∷ (lines ++ ((if differing == 0 then identical else pages_differ differing) ∷ []))))

unfoldable pub diff_sizes :
    Bool → String → String → List ℕ → List ℕ → DiffError ⊎ ℕ → DiffError ⊎ ℕ → DiffError ⊎ List Line
unfolding diff
diff_sizes verbose path_a path_b a b (inl e) other = inl e
diff_sizes verbose path_a path_b a b (inr size) (inl e) = inl e
diff_sizes verbose path_a path_b a b (inr size) (inr size') =
    if not (size == size')
    then inl (sizes_differ size size')
    else inr (diff verbose path_a path_b size a b)

module _ (read_file : String → String ⊎ List ℕ) where
  unfoldable pub diff_paths : Bool → List String → DiffError ⊎ List Line
  unfolding diff_sizes
  diff_paths verbose [] = inl bad_usage
  diff_paths verbose (path_a ∷ []) = inl bad_usage
  diff_paths verbose (path_a ∷ path_b ∷ []) = elim (read_file path_a) [
    | inl e ↦ inl (unreadable e)
    | inr a ↦ elim (read_file path_b) [
      | inl e ↦ inl (unreadable e)
      | inr b ↦ diff_sizes verbose path_a path_b a b (page_size a) (page_size b)
    ]
  ]
  diff_paths verbose (path_a ∷ path_b ∷ path_c ∷ more) = inl bad_usage

  -- The loop over the arguments, with the paths so far in order.
  unfoldable pub run_from : Bool → List String → List String → DiffError ⊎ List Line
  unfolding diff_paths
  run_from verbose paths [] = diff_paths verbose paths
  run_from verbose paths (arg ∷ args) =
      let flagged = run_from true paths args in
      let path = run_from verbose (paths ++ (arg ∷ [])) args in
      if str_eq arg "-v" || str_eq arg "--verbose"
      then flagged
      else if str_eq arg "-h" || str_eq arg "--help"
      then inr (usage ∷ [])
      else path

  unfoldable pub run : List String → DiffError ⊎ List Line
  unfolding run_from
  run args = run_from false [] args
