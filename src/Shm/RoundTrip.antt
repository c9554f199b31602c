-- ===== src/Shm/RoundTrip.antt =====
-- internal/fsm/walappender/shm/shm.go: what is written to the wal-index is read back.
use literaft.Base.{
  ℕ, zero, suc, ◌+◌, ◌-◌, ◌≤◌, ◌<◌, ◌≡◌, ◌≢◌, sym, ap, ◌∙◌, Option, none, some, inl, inr, arith,
  Option-cases,
}
use literaft.Base.Bytes.{Bytes, clone, copy_into}
use literaft.Errors.{Error}
use literaft.Shm.Header.{update_checksums}
use literaft.Shm.Checkpoint.{checkpoint_info_size}
use literaft.Shm.Memory.{
  SharedMemory, set_region, write_copies, write_copies_at, read_copies, map_regions, get_region,
  read_header, write_header, read_checkpoint_info, write_checkpoint_info,
}
use literaft.Shm.Copies.{Agree, read_copies-write_copies}

module _ (fault : ℕ → Option Error) where
  map_regions_lem :
      (n : ℕ) (s u : SharedMemory)
      → map_regions fault n s ≡ (none, u)
      → (u.mapped ≡ s.mapped + n) × (u.content ≡ s.content)
  unfolding map_regions
  map_regions_lem zero s u h = (
    ap (λ (p : Option Error × SharedMemory). p.1.mapped) (sym h) ∙ omega arith,
    ap (λ (p : Option Error × SharedMemory). p.1.content) (sym h),
  )
  map_regions_lem (suc n) s u h = elim (Option-cases (fault s.mapped)) [
    | inr (e, k) ↦ absurd (ground (arith, k, h))
    | inl k ↦
        let next = record s { mapped = suc s.mapped } in
        let (m, c) = map_regions_lem n next u (ground (arith, k, h)) in (omega (arith, m), c)
  ]

  -- A region that was got is mapped, and getting it changes no content.
  get_region_lem :
      (id : ℕ) (s u : SharedMemory)
      → get_region fault id s ≡ (none, u)
      → (id < u.mapped) × (u.content ≡ s.content)
  unfolding get_region
  get_region_lem id s u h =
      let (m, c) = map_regions_lem (suc id - s.mapped) s u h in (omega (arith, m), c)

  get_region-mapped :
      (id : ℕ) (s : SharedMemory) → id < s.mapped → get_region fault id s ≡ (none, s)
  unfolding get_region map_regions
  get_region-mapped id s lt = let e : suc id - s.mapped ≡ 0 = omega arith in rw e

  read_header_lem :
      (s : SharedMemory) → 0 < s.mapped → read_header fault s ≡ (inr (read_copies (s.content 0)), s)
  unfolding read_header
  read_header_lem s lt = ground (arith, get_region-mapped 0 s lt)

  read_checkpoint_info_lem :
      (s : SharedMemory)
      → 0 < s.mapped
      → read_checkpoint_info fault s ≡ (inr (clone (s.content 0) 96 checkpoint_info_size), s)
  unfolding read_checkpoint_info
  read_checkpoint_info_lem s lt = ground (arith, get_region-mapped 0 s lt)

  write_header_lem :
      (h : Bytes) (s u : SharedMemory)
      → write_header fault h s ≡ (none, u)
      → (v : SharedMemory) × (get_region fault 0 s ≡ (none, v))
        × (u ≡ set_region v 0 (write_copies (v.content 0) (update_checksums h)))
  unfolding write_header
  write_header_lem h s u e = elim (Option-cases (get_region fault 0 s).0) [
    | inr (x, k) ↦ absurd (ground (arith, k, e))
    | inl k ↦ ((get_region fault 0 s).1, ground (arith, k), ground (arith, k, e))
  ]

  -- After WriteHeader, ReadHeader returns the header that was written, with its checksums; the
  -- checkpoint information and every other region are as they were.
  pub read_header-write_header :
      (h : Bytes) (s u : SharedMemory)
      → write_header fault h s ≡ (none, u)
      → (c : Bytes) × (read_header fault u ≡ (inr (some c), u))
        × Agree c (update_checksums h)
        × ((j : ℕ) → 96 ≤ j → u.content 0 j ≡ s.content 0 j)
        × ((id : ℕ) → id ≢ 0 → u.content id ≡ s.content id)
  unfolding write_copies write_copies_at copy_into
  read_header-write_header h s u e =
      let (v, got, same) = write_header_lem h s u e in
      let (lt, kept) = get_region_lem 0 s v got in
      let (c, back, agree) = read_copies-write_copies (v.content 0) h in
      let w = set_region v 0 (write_copies (v.content 0) (update_checksums h)) in
      rw same (
        c,
        read_header_lem w lt ∙ ap (λ (o : Option Bytes). (inr o, w)) back,
        agree,
        λ j le. ground (arith, ap (λ (m : ℕ → Bytes). m 0 j) kept),
        λ id ne. ground (arith, ne, ap (λ (m : ℕ → Bytes). m id) kept),
      )

  write_checkpoint_info_lem :
      (info : Bytes) (s u : SharedMemory)
      → write_checkpoint_info fault info s ≡ (none, u)
      → (v : SharedMemory) × (get_region fault 0 s ≡ (none, v))
        × (u ≡ set_region v 0 (copy_into (v.content 0) 96 checkpoint_info_size info))
  unfolding write_checkpoint_info
  write_checkpoint_info_lem info s u e = elim (Option-cases (get_region fault 0 s).0) [
    | inr (x, k) ↦ absurd (ground (arith, k, e))
    | inl k ↦ ((get_region fault 0 s).1, ground (arith, k), ground (arith, k, e))
  ]

  -- After WriteCheckpointInfo, ReadCheckpointInfo returns what was written, and both copies of the
  -- header are as they were.
  pub read_checkpoint_info-write_checkpoint_info :
      (info : Bytes) (s u : SharedMemory)
      → write_checkpoint_info fault info s ≡ (none, u)
      → (d : Bytes) × (read_checkpoint_info fault u ≡ (inr d, u))
        × ((j : ℕ) → j < checkpoint_info_size → d j ≡ info j)
        × ((j : ℕ) → j < 96 → u.content 0 j ≡ s.content 0 j)
  unfolding copy_into clone
  read_checkpoint_info-write_checkpoint_info info s u e =
      let (v, got, same) = write_checkpoint_info_lem info s u e in
      let (lt, kept) = get_region_lem 0 s v got in
      let w = set_region v 0 (copy_into (v.content 0) 96 checkpoint_info_size info) in
      rw same (
        clone (w.content 0) 96 checkpoint_info_size,
        read_checkpoint_info_lem w lt,
        λ j le. ground arith,
        λ j le. ground (arith, ap (λ (m : ℕ → Bytes). m 0 j) kept),
      )
