-- ===== src/Shm/Frames.antt =====
-- internal/fsm/walappender/shm/shm.go: AddFrame on the whole wal-index.
use literaft.Base.{ℕ, ◌-◌, ◌≤◌, ◌<◌, ◌≡◌, ◌≢◌, ap, ◌∙◌, Option, none, some, arith}
use literaft.Base.Bytes.{Bytes, u32_mod}
use literaft.Errors.{Error}
use literaft.Shm.Layout.{region_for_frame, frame_zero_for_region, index_in_region}
use literaft.Shm.Memory.{
  SharedMemory, set_region, get_region, add_entry, store_entry, add_in_region, add_frame,
}
use literaft.Shm.Segment.{Segment, page_at}
use literaft.Shm.Insert.{capacity, add_entry-Segment}

index-capacity :
    (frame_idx : ℕ)
    → 0 < frame_idx
    → frame_idx < u32_mod
    → (1 ≤ index_in_region frame_idx)
      × (index_in_region frame_idx ≤ capacity (region_for_frame frame_idx))
unfolding index_in_region region_for_frame frame_zero_for_region
index-capacity frame_idx pos lt = ground arith

module _ (fault : ℕ → Option Error) where
  add_frame_lem :
      (frame_idx pg_no : ℕ) (s v : SharedMemory) (r : Bytes)
      → get_region fault (region_for_frame frame_idx) s ≡ (none, v)
      → add_entry
          (region_for_frame frame_idx)
          (index_in_region frame_idx)
          pg_no
          (v.content (region_for_frame frame_idx))
        ≡ some r
      → add_frame fault frame_idx pg_no s ≡ some (none, set_region v (region_for_frame frame_idx) r)
  unfolding add_frame add_in_region
  add_frame_lem frame_idx pg_no s v r got added =
      let id = region_for_frame frame_idx in
      ap
        (λ (p : Option Error × SharedMemory).
          add_in_region p.0 id (index_in_region frame_idx) pg_no p.1)
        got
      ∙ ap (store_entry id v) added

  -- What AddFrame does to the wal-index, with the page numbers that the region had.
  pub add_frame-Indexed :
      (frame_idx pg_no : ℕ) (s v : SharedMemory)
      → 0 < frame_idx
      → frame_idx < u32_mod
      → pg_no < u32_mod
      → let id = region_for_frame frame_idx in
        let i = index_in_region frame_idx in
        get_region fault id s ≡ (none, v)
        → (i ≢ 1 → Segment id (i - 1) (v.content id))
        → (u : SharedMemory) × (add_frame fault frame_idx pg_no s ≡ some (none, u))
          × Segment id i (u.content id)
          × (page_at id (u.content id) i ≡ pg_no)
          × ((q : ℕ) → q ≢ id → u.content q ≡ v.content q)
          × ((k : ℕ) → 1 ≤ k → k < i → page_at id (u.content id) k ≡ page_at id (v.content id) k)
  add_frame-Indexed frame_idx pg_no s v pos lt pl got before =
      let id = region_for_frame frame_idx in
      let i = index_in_region frame_idx in
      let (lo, hi) = index-capacity frame_idx pos lt in
      let (r, added, seg, page, kept) =
        add_entry-Segment id i pg_no (v.content id) lo hi pl before in
      let u = set_region v id r in
      let at : u.content id ≡ r = ground arith in
      (
        u,
        add_frame_lem frame_idx pg_no s v r got added,
        rw at seg,
        rw at page,
        λ q ne. ground (arith, ne),
        rw at kept,
      )

  -- AddFrame of any frame that a uint32 counts from 1, once its region is mapped: if the region
  -- indexes the frames before it (and whatever it holds if the frame is its first), AddFrame returns
  -- without an error, and the region then indexes the frames up to this one, with its page number at
  -- its place. No other region changes.
  pub add_frame-Segment :
      (frame_idx pg_no : ℕ) (s v : SharedMemory)
      → 0 < frame_idx
      → frame_idx < u32_mod
      → pg_no < u32_mod
      → let id = region_for_frame frame_idx in
        let i = index_in_region frame_idx in
        get_region fault id s ≡ (none, v)
        → (i ≢ 1 → Segment id (i - 1) (v.content id))
        → (u : SharedMemory) × (add_frame fault frame_idx pg_no s ≡ some (none, u))
          × Segment id i (u.content id)
          × (page_at id (u.content id) i ≡ pg_no)
          × ((q : ℕ) → q ≢ id → u.content q ≡ v.content q)
  add_frame-Segment frame_idx pg_no s v pos lt pl got before =
      let (u, added, seg, page, others, kept) =
        add_frame-Indexed frame_idx pg_no s v pos lt pl got before in
      (u, added, seg, page, others)
