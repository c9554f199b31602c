-- ===== src/Snapshot.antt =====
-- internal/fsm/snapshotter: a snapshot is a header and the database's pages; a restore writes the pages
-- to the WAL as one transaction.
pub mod Restore
pub mod Capture
pub mod Install
use literaft.Base.{
  ℕ, zero, suc, ◌+◌, ◌*◌, ◌/◌, ◌%◌, ◌==◌, Option, none, some, List, [], ◌∷◌, length, get_or, not,
  if◌then◌else◌,
}
use literaft.Base.Bytes.{big, Bytes, zeros, get32, put32, u32_mod}
use literaft.Errors.{Error, plain, wrapped}
use literaft.Wal.Frame.{Frame, set_pg_no, set_n_truncate}

abbrev pub current_magic : ℕ
current_magic = 0x4C524654

abbrev pub current_version : ℕ
current_version = 1

unfoldable pub magic : Bytes → ℕ
magic h = get32 big h 0

unfoldable pub set_magic : Bytes → ℕ → Bytes
set_magic h m = put32 big h 0 m

unfoldable pub version : Bytes → ℕ
version h = get32 big h 4

unfoldable pub set_version : Bytes → ℕ → Bytes
set_version h v = put32 big h 4 v

-- A big-endian 64-bit field is its high and its low word.
unfoldable pub last_applied_index : Bytes → ℕ
last_applied_index h = get32 big h 8 * u32_mod + get32 big h 12

unfoldable pub set_last_applied_index : Bytes → ℕ → Bytes
set_last_applied_index h i = put32 big (put32 big h 8 (i / u32_mod)) 12 (i % u32_mod)

unfoldable pub new_snapshot_header : ℕ → Bytes
unfolding set_magic set_version set_last_applied_index
new_snapshot_header index =
    set_last_applied_index (set_version (set_magic zeros current_magic) current_version) index

unfoldable pub validate : Bytes → Option Error
unfolding magic version
validate h =
    if not (magic h == current_magic)
    then some (plain "invalid snapshot magic")
    else if not (version h == current_version)
    then some (plain "unsupported snapshot version")
    else none

-- io.ReadFull of a page: a whole page with the rest of the stream, io.EOF, or an end inside a page.
pub data Read : Type 0 where
  whole : List ℕ → List ℕ → Read
  end_of_file : Read
  cut_short : Read

-- Reading on, with the page so far; `n` bytes are missing.
unfoldable pub read_rest : ℕ → List ℕ → Option (List ℕ × List ℕ)
read_rest zero bs = some ([], bs)
read_rest (suc n) [] = none
read_rest (suc n) (b ∷ bs) = elim (read_rest n bs) [
  | none ↦ none
  | some (p, rest) ↦ some (b ∷ p, rest)
]

unfoldable pub read_full : ℕ → List ℕ → Read
unfolding read_rest
read_full page [] = end_of_file
read_full page (b ∷ bs) = elim (read_rest page (b ∷ bs)) [
  | none ↦ cut_short
  | some (p, rest) ↦ whole p rest
]

unfoldable pub restored_frame : ℕ → ℕ → List ℕ → Frame
restored_frame number truncate page = record {
  header = set_n_truncate (set_pg_no zeros number) truncate;
  image = page;
}

-- Restore's loop over the pages, on fuel: the frames that it sends and its read error. `cur` is the
-- page that was read before. `none` means that the fuel is used up.
unfoldable pub restore_pages : ℕ → ℕ → ℕ → List ℕ → List ℕ → Option (List Frame × Option Error)
unfolding read_full restored_frame
restore_pages zero page n cur stream = none
restore_pages (suc fuel) page n cur stream = elim (read_full page stream) [
  | end_of_file ↦ some (restored_frame n n cur ∷ [], none)
  | cut_short ↦ some ([], some (plain "failed to read page from snapshot"))
  | whole p rest ↦ elim (restore_pages fuel page ((n + 1) % u32_mod) p rest) [
    | none ↦ none
    | some (fs, err) ↦ some (restored_frame n 0 cur ∷ fs, err)
  ]
]

-- The page size that the first page names.
unfoldable pub named_page_size : Bytes → ℕ
named_page_size first = let size = first 16 * 256 + first 17 in if size == 1 then 65536 else size

abbrev pub array_of : List ℕ → Bytes
array_of p i = get_or p i 0

-- What Restore does: it refuses a stream, or sends frames to the appender for the index of the header,
-- with an error of reading. The appender and the checkpoint that follow stand outside.
pub data Restored : Type 0 where
  refused : Error → Restored
  sent : ℕ → List Frame → Option Error → Restored
  endless : Restored

unfoldable pub finish_restore : Bytes → Option (List Frame × Option Error) → Restored
finish_restore h none = endless
finish_restore h (some (fs, err)) = sent (last_applied_index h) fs err

unfoldable pub restore_first : ℕ → Bytes → Read → Restored
unfolding named_page_size restore_pages finish_restore
restore_first page h end_of_file = refused (plain "failed to first page from snapshot")
restore_first page h cut_short = refused (plain "failed to first page from snapshot")
restore_first page h (whole p rest) =
    if not (named_page_size (array_of p) == page)
    then refused (plain "snapshot page size does not match cluster page size")
    else finish_restore h (restore_pages (suc (length rest)) page 1 p rest)

unfoldable pub restore_valid : ℕ → Bytes → Option Error → List ℕ → Restored
unfolding restore_first read_full
restore_valid page h (some e) bs = refused (wrapped "failed to validate snapshot header" e)
restore_valid page h none bs = restore_first page h (read_full page bs)

unfoldable pub restore : ℕ → List ℕ → Restored
unfolding restore_valid validate read_rest
restore page bs = elim (read_rest 16 bs) [
  | none ↦ refused (plain "failed to read snapshot header")
  | some (hb, rest) ↦ restore_valid page (array_of hb) (validate (array_of hb)) rest
]
