-- ===== src/Tests/Log.antt =====
-- internal/wal and proto on concrete frames.
use literaft.Base.{ℕ, ◌≡◌, ◌↔◌, refl, true, [], ◌∷◌, map, arith}
use literaft.Base.Bytes.{zeros, little, get32, put32}
use literaft.Wal.Frame.{Frame, set_pg_no, set_n_truncate, pg_no, n_truncate}
use literaft.Wal.Checksum.{compute_checksums}
use literaft.Wal.Checksum.Detect.{Block, checksums_detect_block}
use literaft.Wal.Offsets.{is_frame_header_offset, frame_offset, header_offset_iff}
use literaft.Proto.{Page, frames, new_transaction}
use literaft.Proto.RoundTrip.{redo, frames-new_transaction, new_transaction-frames}

abbrev some_block : Block
some_block = record { d0 = 1; d1 = 0; d2 = 0; d3 = 0; d4 = 2; d5 = 0; d6 = 0; d7 = 0 }

checksums_detect_block_example : some_block ≡ some_block
unfolding compute_checksums
checksums_detect_block_example =
    checksums_detect_block little (1 ∷ 1 ∷ 1 ∷ 1 ∷ 2 ∷ 2 ∷ 2 ∷ 2 ∷ []) [] some_block some_block 0 0
      (omega arith) (omega arith)
      (record {
        b0 = omega arith;
        b1 = omega arith;
        b2 = omega arith;
        b3 = omega arith;
        b4 = omega arith;
        b5 = omega arith;
        b6 = omega arith;
        b7 = omega arith;
      })
      (record {
        b0 = omega arith;
        b1 = omega arith;
        b2 = omega arith;
        b3 = omega arith;
        b4 = omega arith;
        b5 = omega arith;
        b6 = omega arith;
        b7 = omega arith;
      })
      refl refl refl

header_offset_iff_example :
    (is_frame_header_offset 4096 4152 ≡ true) ↔ ((i : ℕ) × (frame_offset 4096 i ≡ 4152))
header_offset_iff_example = header_offset_iff 4096 4152

abbrev first_frame : Frame
first_frame = record { header = set_pg_no zeros 3; image = 7 ∷ 8 ∷ [] }

abbrev last_frame : Frame
last_frame = record { header = set_n_truncate (set_pg_no zeros 5) 6; image = 9 ∷ 10 ∷ [] }

frames-new_transaction_example :
    map redo (frames (new_transaction (first_frame ∷ last_frame ∷ [])))
    ≡ map redo (first_frame ∷ last_frame ∷ [])
unfolding pg_no n_truncate set_pg_no set_n_truncate get32 put32
frames-new_transaction_example =
    frames-new_transaction (first_frame ∷ last_frame ∷ []) (refl, omega arith)
      ((omega arith, omega arith), ((omega arith, omega arith), tt))

abbrev a_page : Page
a_page = record { page_no = 3; image = 7 ∷ [] }

new_transaction-frames_example :
    new_transaction (frames (record { pages = a_page ∷ a_page ∷ []; truncate = 4 }))
    ≡ record { pages = a_page ∷ a_page ∷ []; truncate = 4 }
new_transaction-frames_example =
    new_transaction-frames a_page (a_page ∷ []) 4 (omega arith)
      (record { page_fits = omega arith }, (record { page_fits = omega arith }, tt))
