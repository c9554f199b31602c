-- ===== src/Shm/Memory.antt =====
-- internal/fsm/walappender/shm/shm.go: the regions of the -shm file and what is read and written
-- there. Memory that is shared with SQLite is the state here; each operation runs under the write
-- lock of the log.
use literaft.Base.{
  ℕ, zero, suc, ◌+◌, ◌-◌, ◌*◌, Bool, true, false, ◌&&◌, Option, none, some, List, [], ◌∷◌, ◌⊎◌, inl,
  inr, leb, ltb, ◌==◌, if◌then◌else◌,
}
use literaft.Base.Bytes.{little, Bytes, put32, get16, put16, copy_into, clone, bytes_of}
use literaft.Errors.{Error, wrapped}
use literaft.Wal.Checksum.{compute_checksums}
use literaft.Shm.Header.{header_copy_size, checksum1, checksum2, update_checksums}
use literaft.Shm.Checkpoint.{checkpoint_info_size}
use literaft.Shm.Layout.{
  region_size, region_for_frame, hash_slot_for_page, next_hash_slot, page_numbers_offset,
  hash_offset, index_in_region, slot_count,
}

-- `content` is the file's, region by region; the first `mapped` regions are mapped.
pub record SharedMemory : Type 0 where
  pub content : ℕ → Bytes
  pub mapped : ℕ

abbrev pub set_region : SharedMemory → ℕ → Bytes → SharedMemory
set_region s id r = record s { content = λ q. if q == id then r else s.content q }

-- Whether a copy of the header has its own checksum.
unfoldable pub is_checked : Bytes → Bool
is_checked c = elim (compute_checksums little (bytes_of c 0 40) 0 0) [
  | none ↦ false
  | some (c1, c2) ↦ c1 == checksum1 c && c2 == checksum2 c
]

-- ReadHeader on region 0. `none` is the nil pointer.
unfoldable pub read_copies : Bytes → Option Bytes
unfolding is_checked
read_copies r0 =
    let copy0 = clone r0 0 header_copy_size in
    let copy1 = clone r0 header_copy_size header_copy_size in
    if is_checked copy0 then some copy0 else if is_checked copy1 then some copy1 else none

-- Where WriteHeader copies the header to, in this order.
abbrev pub copy_offsets : List ℕ
copy_offsets = header_copy_size ∷ 0 ∷ []

unfoldable pub write_copies_at : List ℕ → Bytes → Bytes → Bytes
write_copies_at [] r0 h = r0
write_copies_at (off ∷ offs) r0 h = write_copies_at offs (copy_into r0 off header_copy_size h) h

unfoldable pub write_copies : Bytes → Bytes → Bytes
unfolding write_copies_at
write_copies r0 h = write_copies_at copy_offsets r0 h

-- The search for a free slot, on fuel; `none` means that the fuel is used up.
unfoldable pub free_slot : ℕ → Bytes → ℕ → Option ℕ
free_slot zero region slot = none
free_slot (suc fuel) region slot = elim (get16 region (hash_offset + slot * 2) == 0) [
  | true ↦ some slot
  | false ↦ free_slot fuel region (next_hash_slot slot)
]

-- The segment after the wipe that the first frame of a region makes.
unfoldable pub wipe_segment : ℕ → ℕ → Bytes → Bytes
wipe_segment region idx r =
    if idx == 1
    then (λ j. if leb (page_numbers_offset region) j && ltb j region_size then 0 else r j)
    else r

-- AddFrame inside its region. `pgNoOff+(idx-1)*4` is an int: place 0, which only region 0 has, is below
-- the page numbers. The fuel is one pass over all slots.
unfoldable pub add_entry : ℕ → ℕ → ℕ → Bytes → Option Bytes
unfolding wipe_segment free_slot
add_entry region idx pg_no r =
    let r1 =
      put32 little (wipe_segment region idx r) (page_numbers_offset region + idx * 4 - 4) pg_no in
    elim (free_slot slot_count r1 (hash_slot_for_page pg_no)) [
      | none ↦ none
      | some slot ↦ some (put16 r1 (hash_offset + slot * 2) idx)
    ]

-- The end of AddFrame: `none` would be a search that never ends.
abbrev pub store_entry : ℕ → SharedMemory → Option Bytes → Option (Option Error × SharedMemory)
store_entry id s none = none
store_entry id s (some r) = some (none, set_region s id r)

unfoldable pub add_in_region :
    Option Error → ℕ → ℕ → ℕ → SharedMemory → Option (Option Error × SharedMemory)
unfolding add_entry
add_in_region (some e) id idx pg_no s = some (some (wrapped "failed to get region" e), s)
add_in_region none id idx pg_no s = store_entry id s (add_entry id idx pg_no (s.content id))

-- The file below: whether mapping a region fails.
module _ (fault : ℕ → Option Error) where
  -- getRegion's loop, for `n` regions more.
  unfoldable pub map_regions : ℕ → SharedMemory → Option Error × SharedMemory
  map_regions zero s = (none, s)
  map_regions (suc n) s = elim (fault s.mapped) [
    | some e ↦ (some e, s)
    | none ↦ map_regions n (record s { mapped = suc s.mapped })
  ]

  unfoldable pub get_region : ℕ → SharedMemory → Option Error × SharedMemory
  unfolding map_regions
  get_region id s = map_regions (suc id - s.mapped) s

  unfoldable pub read_header : SharedMemory → (Error ⊎ Option Bytes) × SharedMemory
  unfolding get_region read_copies
  read_header s =
      let (err, s') = get_region 0 s in
      elim err [
        | some e ↦ (inl (wrapped "failed to get region 0" e), s')
        | none ↦ (inr (read_copies (s'.content 0)), s')
      ]

  unfoldable pub write_header : Bytes → SharedMemory → Option Error × SharedMemory
  unfolding get_region write_copies
  write_header h s =
      let (err, s') = get_region 0 s in
      elim err [
        | some e ↦ (some (wrapped "failed to get region 0" e), s')
        | none ↦ (none, set_region s' 0 (write_copies (s'.content 0) (update_checksums h)))
      ]

  unfoldable pub read_checkpoint_info : SharedMemory → (Error ⊎ Bytes) × SharedMemory
  unfolding get_region
  read_checkpoint_info s =
      let (err, s') = get_region 0 s in
      elim err [
        | some e ↦ (inl (wrapped "failed to get region 0" e), s')
        | none ↦ (inr (clone (s'.content 0) (2 * header_copy_size) checkpoint_info_size), s')
      ]

  unfoldable pub write_checkpoint_info : Bytes → SharedMemory → Option Error × SharedMemory
  unfolding get_region
  write_checkpoint_info info s =
      let (err, s') = get_region 0 s in
      elim err [
        | some e ↦ (some (wrapped "failed to get region 0" e), s')
        | none ↦ (
          none,
          set_region s' 0
              (copy_into (s'.content 0) (2 * header_copy_size) checkpoint_info_size info),
        )
      ]

  unfoldable pub add_frame : ℕ → ℕ → SharedMemory → Option (Option Error × SharedMemory)
  unfolding get_region add_in_region
  add_frame frame_idx pg_no s =
      let id = region_for_frame frame_idx in
      let (err, s') = get_region id s in add_in_region err id (index_in_region frame_idx) pg_no s'
