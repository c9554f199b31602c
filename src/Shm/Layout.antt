-- ===== src/Shm/Layout.antt =====
-- internal/fsm/walappender/shm/walindex.go: where a frame's entry stands in the wal-index.
use literaft.Base.{ℕ, zero, suc, ◌+◌, ◌-◌, ◌*◌, ◌/◌, ◌%◌, ◌≤◌, ◌<◌, ◌≡◌, arith, ◌==◌, if◌then◌else◌}
use literaft.Base.Bytes.{u32_mod}

abbrev pub region_size : ℕ
region_size = 32768

abbrev pub header_size : ℕ
header_size = 136

abbrev pub page_count_per_region : ℕ
page_count_per_region = 4096

abbrev pub region0_page_count : ℕ
region0_page_count = 4062

abbrev pub slot_count : ℕ
slot_count = 8192

unfoldable pub region_for_frame : ℕ → ℕ
region_for_frame frame_idx =
    (frame_idx + page_count_per_region - region0_page_count - 1) / page_count_per_region

-- The conversion to uint32 is written out.
unfoldable pub frame_zero_for_region : ℕ → ℕ
frame_zero_for_region region =
    if region == 0 then 0 else (region0_page_count + (region - 1) * page_count_per_region) % u32_mod

-- The product wraps at 32 bits; `& (slot_count - 1)` is the remainder by the power of two.
unfoldable pub hash_slot_for_page : ℕ → ℕ
hash_slot_for_page pg_no = pg_no * 383 % u32_mod % slot_count

unfoldable pub next_hash_slot : ℕ → ℕ
next_hash_slot slot = (slot + 1) % slot_count

abbrev pub page_numbers_offset : ℕ → ℕ
page_numbers_offset region = if region == 0 then header_size else 0

abbrev pub hash_offset : ℕ
hash_offset = 16384

-- The frame's place in its region, counted from 1; `frameIdx - frameZeroForRegion` on uint32. It
-- is positive for every frame but 0, which a wrapped frame number is, and 0 for that.
unfoldable pub index_in_region : ℕ → ℕ
unfolding region_for_frame frame_zero_for_region
index_in_region frame_idx = frame_idx - frame_zero_for_region (region_for_frame frame_idx)

-- The slot that AddFrame's search looks at behind `n` others.
abbrev pub probed : ℕ → ℕ → ℕ
probed zero pg_no = hash_slot_for_page pg_no
probed (suc n) pg_no = next_hash_slot (probed n pg_no)

probed-lt : (n pg_no : ℕ) → probed n pg_no < slot_count
unfolding hash_slot_for_page next_hash_slot
probed-lt zero pg_no = omega arith
probed-lt (suc n) pg_no = omega arith

-- Every frame that a uint32 can count from 1 has a place: its region begins before it, its page
-- number is written between the region's start, or header, and the hash table, and every slot that
-- the search for its page can look at, however far it goes, is inside the region.
pub place_in_bounds :
    (frame_idx pg_no : ℕ)
    → 0 < frame_idx
    → frame_idx < u32_mod
    → let r = region_for_frame frame_idx in
      let i = index_in_region frame_idx in
      (frame_zero_for_region r + i ≡ frame_idx)
      × (1 ≤ i)
      × (page_numbers_offset r + (i - 1) * 4 + 4 ≤ hash_offset)
      × ((n : ℕ) → hash_offset + probed n pg_no * 2 + 2 ≤ region_size)
unfolding region_for_frame frame_zero_for_region index_in_region
place_in_bounds frame_idx pg_no pos lt =
    let slots : (n : ℕ) → hash_offset + probed n pg_no * 2 + 2 ≤ region_size =
      λ n. omega (arith, probed-lt n pg_no) in
    (ground arith, ground arith, ground arith, slots)

-- And no two frames share a place.
pub place_injective :
    (a b : ℕ)
    → 0 < a
    → a < u32_mod
    → 0 < b
    → b < u32_mod
    → region_for_frame a ≡ region_for_frame b
    → index_in_region a ≡ index_in_region b
    → a ≡ b
place_injective a b pa la pb lb r i =
    let ea = (place_in_bounds a 0 pa la).0 in
    let eb = (place_in_bounds b 0 pb lb).0 in ground (arith, ea, eb, r, i)
