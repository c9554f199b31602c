-- ===== src/Tests/Logs.antt =====
-- internal/fsm/walappender/walappender.go: a transaction of two pages of eight bytes behind a fresh log.
use literaft.Base.{ℕ, refl, false, Option, none, some, List, [], ◌∷◌, inr, arith}
use literaft.Base.Bytes.{zeros, get32, put32}
use literaft.Errors.{Error}
use literaft.Wal.Frame as WalFrame
use literaft.Wal.Frame.{Frame, n_truncate}
use literaft.Wal.Header as WalHeader
use literaft.Shm.Memory.{map_regions, get_region, write_header}
use literaft.WalAppender.Append.{Store, write_wal}
use literaft.WalAppender.Rewind.{
  Append, appended, append_panicked, endless, append_frames_locked, bootstrap,
  write_wal_file_header,
}
use literaft.WalAppender.Refinement.{Base, Appends, append_refines}
use literaft.WalAppender.Bootstrap.{bootstrap-Represents}
use literaft.WalAppender.Represents.{Represents}

abbrev works : List (ℕ × List ℕ) → ℕ → Option Error
works w off = none

abbrev maps : ℕ → Option Error
maps id = none

abbrev eight : List ℕ
eight = 1 ∷ 2 ∷ 3 ∷ 4 ∷ 5 ∷ 6 ∷ 7 ∷ 8 ∷ []

abbrev two_frames : List Frame
two_frames =
    record { header = WalFrame.set_pg_no zeros 3; image = eight }
    ∷ record { header = WalFrame.set_n_truncate (WalFrame.set_pg_no zeros 4) 4; image = eight }
    ∷ []

abbrev nothing : Store
nothing = record {
  wal = [];
  shm = record { content = λ q. zeros; mapped = 0 };
  dirty_page_count = 0;
}

abbrev stored_by : Append → Store
stored_by (appended err s) = s
stored_by append_panicked = nothing
stored_by endless = nothing

abbrev fresh : Store
fresh = stored_by (bootstrap works maps 8 (inr 0) (some zeros) nothing)

fresh-Represents : Represents maps 8 fresh []
unfolding bootstrap write_wal_file_header write_wal write_header get_region map_regions
    WalHeader.init_header
fresh-Represents = bootstrap-Represents works maps 8 0 (some zeros) nothing fresh refl

append_refines_example :
    (base : List Frame) × Base works maps 8 false fresh [] base
    × Appends works maps 8 two_frames base
        (append_frames_locked works maps 8 false (some zeros) two_frames fresh)
unfolding n_truncate WalFrame.set_pg_no WalFrame.set_n_truncate WalFrame.pg_no get32 put32
append_refines_example =
    append_refines works maps 8 false (some zeros) two_frames fresh [] (refl, omega arith)
      ((omega arith, omega arith), ((omega arith, omega arith), tt)) (omega arith) fresh-Represents
