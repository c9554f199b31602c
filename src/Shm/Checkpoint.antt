-- ===== src/Shm/Checkpoint.antt =====
-- internal/fsm/walappender/shm/walindex.go: the checkpoint information behind the two headers.
use literaft.Base.{ℕ, zero, suc, ◌+◌, ◌*◌, Option, none, some, ltb, if◌then◌else◌}
use literaft.Base.Bytes.{little, Bytes, get32, put32}

abbrev pub n_readers : ℕ
n_readers = 5

abbrev pub checkpoint_info_size : ℕ
checkpoint_info_size = 40

abbrev pub read_mark_not_used : ℕ
read_mark_not_used = 0xffffffff

unfoldable pub n_backfill : Bytes → ℕ
n_backfill c = get32 little c 0

unfoldable pub set_n_backfill : Bytes → ℕ → Bytes
set_n_backfill c n = put32 little c 0 n

-- `none` is the panic on a reader that does not exist.
unfoldable pub read_mark : Bytes → ℕ → Option ℕ
read_mark c i = if ltb i n_readers then some (get32 little c (4 + i * 4)) else none

unfoldable pub set_read_mark : Bytes → ℕ → ℕ → Option Bytes
set_read_mark c i mark = if ltb i n_readers then some (put32 little c (4 + i * 4) mark) else none

unfoldable pub n_backfill_attempted : Bytes → ℕ
n_backfill_attempted c = get32 little c 32

unfoldable pub set_n_backfill_attempted : Bytes → ℕ → Bytes
set_n_backfill_attempted c n = put32 little c 32 n

-- The loop over the readers from `i` on, `n` of them.
unfoldable pub drop_marks : ℕ → ℕ → Bytes → Option Bytes
unfolding set_read_mark
drop_marks zero i c = some c
drop_marks (suc n) i c = elim (set_read_mark c i read_mark_not_used) [
  | none ↦ none
  | some c' ↦ drop_marks n (suc i) c'
]

unfoldable pub reset_for_rewind : Bytes → Option Bytes
unfolding set_n_backfill set_read_mark drop_marks set_n_backfill_attempted
reset_for_rewind c = elim (set_read_mark (set_n_backfill c 0) 1 0) [
  | none ↦ none
  | some c1 ↦ elim (drop_marks 3 2 c1) [
    | none ↦ none
    | some c2 ↦ some (set_n_backfill_attempted c2 0)
  ]
]
