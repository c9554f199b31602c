-- ===== src/Tests/Index.antt =====
-- internal/fsm/walappender/shm on a fresh -shm file.
use literaft.Base.{ℕ, ◌+◌, ◌-◌, ◌*◌, ◌≤◌, ◌≡◌, ◌≢◌, refl, Option, none, some, inr, arith}
use literaft.Base.Bytes.{Bytes, zeros, clone, bytes_of, get32}
use literaft.Errors.{Error}
use literaft.Wal.Checksum.{compute_checksums}
use literaft.Shm.Header.{update_checksums, init_header, checksum1, checksum2}
use literaft.Shm.Checkpoint.{reset_for_rewind}
use literaft.Shm.Layout.{
  region_for_frame, frame_zero_for_region, index_in_region, probed, page_numbers_offset,
  hash_offset, region_size, place_in_bounds,
}
use literaft.Shm.Memory.{
  SharedMemory, is_checked, copy_offsets, write_copies, get_region, map_regions, read_header,
  write_header, write_checkpoint_info, add_frame,
}
use literaft.Shm.Rewind.{Rewound, reset_for_rewind-Rewound}
use literaft.Shm.Copies.{Agree, Survives, stopped, torn_header}
use literaft.Shm.RoundTrip.{read_header-write_header}
use literaft.Shm.Segment.{Segment, page_at}
use literaft.Shm.Frames.{add_frame-Segment}

abbrev no_fault : ℕ → Option Error
no_fault id = none

abbrev fresh : SharedMemory
fresh = record { content = λ q. zeros; mapped = 0 }

abbrev mapped : SharedMemory
mapped = record fresh { mapped = 1 }

abbrev a_header : Bytes
a_header = init_header 4096 1 2 3 4

abbrev after_header : SharedMemory
after_header = (write_header no_fault a_header fresh).1

abbrev after_info : SharedMemory
after_info = (write_checkpoint_info no_fault zeros fresh).1

place_in_bounds_example :
    let r = region_for_frame 5000 in
    let i = index_in_region 5000 in
    (frame_zero_for_region r + i ≡ 5000)
    × (1 ≤ i)
    × (page_numbers_offset r + (i - 1) * 4 + 4 ≤ hash_offset)
    × ((n : ℕ) → hash_offset + probed n 77 * 2 + 2 ≤ region_size)
place_in_bounds_example = place_in_bounds 5000 77 (omega arith) (omega arith)

abbrev a_frame : ℕ
a_frame = 5000

reset_for_rewind-Rewound_example : (d : Bytes) × (reset_for_rewind zeros ≡ some d) × Rewound zeros d
reset_for_rewind-Rewound_example = reset_for_rewind-Rewound zeros

torn_header_example :
    Survives
      (clone zeros 0 48)
      (update_checksums a_header)
      (λ j. 1)
      (stopped copy_offsets 1 (λ j. 1) zeros (update_checksums a_header))
    × (stopped copy_offsets 3 (λ j. 1) zeros (update_checksums a_header)
        ≡ write_copies zeros (update_checksums a_header))
unfolding is_checked compute_checksums bytes_of clone checksum1 checksum2 get32
torn_header_example = torn_header 1 zeros a_header (λ j. 1) refl

read_header-write_header_example :
    (c : Bytes) × (read_header no_fault after_header ≡ (inr (some c), after_header))
    × Agree c (update_checksums a_header)
    × ((j : ℕ) → 96 ≤ j → after_header.content 0 j ≡ fresh.content 0 j)
    × ((id : ℕ) → id ≢ 0 → after_header.content id ≡ fresh.content id)
unfolding write_header get_region map_regions
read_header-write_header_example =
    read_header-write_header no_fault a_header fresh after_header refl

add_frame-Segment_example :
    (u : SharedMemory) × (add_frame no_fault 1 9 fresh ≡ some (none, u))
    × Segment (region_for_frame 1) (index_in_region 1) (u.content (region_for_frame 1))
    × (page_at (region_for_frame 1) (u.content (region_for_frame 1)) (index_in_region 1) ≡ 9)
    × ((q : ℕ) → q ≢ region_for_frame 1 → u.content q ≡ mapped.content q)
unfolding region_for_frame index_in_region frame_zero_for_region get_region map_regions
add_frame-Segment_example =
    add_frame-Segment no_fault 1 9 fresh mapped (omega arith) (omega arith) (omega arith) refl
      (λ ne. absurd (ne refl))
