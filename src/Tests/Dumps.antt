-- ===== src/Tests/Dumps.antt =====
-- cmd/dbdiff/main.go on two files of one page.
use Prim.Native.String.{String}
use text.Mathlib.Text.{◌==◌ as str_eq}
use literaft.Base.{ℕ, ◌≡◌, ◌↔◌, refl, false, some, List, [], ◌∷◌, ◌⊎◌, inr, if◌then◌else◌}
use literaft.Base.Bytes.{zeros, put8, bytes_of}
use literaft.Dbdiff.{
  Line, identical, page_differs, sizes, pages_differ, page_size, diff_paths, run, diff_bytes,
}
use literaft.Dbdiff.Identical.{diff_paths-identical_iff}
use literaft.Dbdiff.DiffBytes.{last_line}

abbrev old_page : List ℕ
old_page = bytes_of (put8 zeros 16 2) 0 512

abbrev new_page : List ℕ
new_page = bytes_of (put8 (put8 zeros 16 2) 40 9) 0 512

abbrev files : String → String ⊎ List ℕ
files path = if str_eq path "a" then inr old_page else inr new_page

diff_paths-identical_iff_example :
    (lines : List Line) × (diff_paths files false ("a" ∷ "b" ∷ []) ≡ inr lines)
    × ((last_line lines ≡ some identical) ↔ (old_page ≡ new_page))
unfolding page_size bytes_of put8
diff_paths-identical_iff_example =
    diff_paths-identical_iff files false "a" "b" old_page new_page 512 refl refl refl refl refl refl

one_byte :
    run files ("a" ∷ "b" ∷ []) ≡ inr (sizes 512 1 1 ∷ page_differs 1 1 40 ∷ pages_differ 1 ∷ [])
unfolding run page_size bytes_of put8 diff_bytes
one_byte = refl
