-- ===== src/WalAppender/Published.antt =====
-- internal/fsm/walappender/walappender.go: what SQLite sees of a transaction that is being appended.
use literaft.Base.{
  ℕ, zero, suc, subst, ◌+◌, ◌-◌, ◌*◌, ◌<◌, ◌≤◌, ◌≡◌, refl, sym, ap, ◌∙◌, true, false, Option, none,
  some, List, ◌==◌, inl, inr, ◌⊎◌, arith, Bool-cases, Option-cases,
}
use literaft.Base.Bytes.{Bytes, put32, put16, little, u32_mod}
use literaft.Errors.{Error, wrapped}
use literaft.Wal.Frame.{Frame, is_commit}
use literaft.Shm.Layout.{
  region_for_frame, index_in_region, place_in_bounds, hash_offset, hash_slot_for_page, slot_count,
}
use literaft.Shm.Memory.{
  SharedMemory, set_region, map_regions, get_region, free_slot, wipe_segment, add_entry,
  add_in_region, add_frame, write_header,
}
use literaft.WalAppender.Append.{Loop, is_failed, published_header, after_publish, publish}

-- The header copies and the checkpoint information are as they were.
abbrev pub HeaderKept : SharedMemory → SharedMemory → Type 0
HeaderKept s u = (j : ℕ) → j < 136 → u.content 0 j ≡ s.content 0 j

entry-kept :
    (idx pg_no slot : ℕ) (r : Bytes) (j : ℕ)
    → j < 136
    → 1 ≤ idx
    → put16
        (put32 little (wipe_segment 0 idx r) (136 + idx * 4 - 4) pg_no)
        (hash_offset + slot * 2)
        idx
        j
      ≡ r j
unfolding wipe_segment put32 put16
entry-kept idx pg_no slot r j lt lo = ground arith

add_entry-kept :
    (idx pg_no : ℕ) (r u : Bytes)
    → 1 ≤ idx
    → add_entry 0 idx pg_no r ≡ some u
    → (j : ℕ) → j < 136
    → u j ≡ r j
unfolding add_entry
add_entry-kept idx pg_no r u lo h j lt =
    let r1 = put32 little (wipe_segment 0 idx r) (136 + idx * 4 - 4) pg_no in
    elim (Option-cases (free_slot slot_count r1 (hash_slot_for_page pg_no))) [
      | inl k ↦
          let stuck : add_entry 0 idx pg_no r ≡ none = rw (k, add_entry) in absurd (cc (stuck, h))
      | inr (slot, k) ↦
          let made : add_entry 0 idx pg_no r ≡ some (put16 r1 (hash_offset + slot * 2) idx) =
            rw (k, add_entry) in
          let same : put16 r1 (hash_offset + slot * 2) idx ≡ u = cc (made, h) in
          sym (ap (λ (b : Bytes). b j) same) ∙ entry-kept idx pg_no slot r j lt lo
    ]

eq_zero : (n : ℕ) → (0 == n) ≡ true → n ≡ 0
eq_zero n h = ground arith

module _ (fault : ℕ → Option Error) where
  map_regions-content : (n : ℕ) (s : SharedMemory) → (map_regions fault n s).1.content ≡ s.content
  unfolding map_regions
  map_regions-content zero s = refl
  map_regions-content (suc n) s = elim (Option-cases (fault s.mapped)) [
    | inl k ↦ rw (k, map_regions) (map_regions-content n (record s { mapped = suc s.mapped }))
    | inr (e, k) ↦ rw (k, map_regions)
  ]

  pub get_region-content :
      (id : ℕ) (s : SharedMemory) → (get_region fault id s).1.content ≡ s.content
  unfolding get_region
  get_region-content id s = map_regions-content (suc id - s.mapped) s

  add_in_region-Kept :
      (err e : Option Error) (id idx pg_no : ℕ) (s u : SharedMemory)
      → 1 ≤ idx
      → add_in_region err id idx pg_no s ≡ some (e, u)
      → HeaderKept s u
  unfolding add_in_region
  add_in_region-Kept (some x) e id idx pg_no s u lo h j lt =
      let same : s ≡ u = cc (h) in sym (ap (λ (m : SharedMemory). m.content 0 j) same)
  add_in_region-Kept none e id idx pg_no s u lo h j lt =
      elim (Option-cases (add_entry id idx pg_no (s.content id))) [
        | inl k ↦
            let stuck : add_in_region none id idx pg_no s ≡ none = rw (k, add_in_region) in
            absurd (cc (stuck, h))
        | inr (r, k) ↦
            let made : add_in_region none id idx pg_no s ≡ some (none, set_region s id r) =
              rw (k, add_in_region) in
            let same : set_region s id r ≡ u = cc (made, h) in
            sym (ap (λ (m : SharedMemory). m.content 0 j) same) ∙ elim (Bool-cases (0 == id)) [
              | inr other ↦ rw other
              | inl at ↦
                  let zero_id = eq_zero id at in
                  rw zero_id (
                    add_entry-kept idx pg_no (s.content 0) r lo
                      (subst (λ q. add_entry q idx pg_no (s.content q) ≡ some r) zero_id k) j lt)
            ]
      ]

module _ (write_fault : List (ℕ × List ℕ) → ℕ → Option Error) (map_fault : ℕ → Option Error)
    (page : ℕ) where
  pub add_frame-Kept :
      (i pg_no : ℕ) (e : Option Error) (s u : SharedMemory)
      → 0 < i
      → i < u32_mod
      → add_frame map_fault i pg_no s ≡ some (e, u)
      → HeaderKept s u
  unfolding add_frame
  add_frame-Kept i pg_no e s u pos few h j lt =
      let id = region_for_frame i in
      let got = get_region map_fault id s in
      add_in_region-Kept map_fault got.0 e id (index_in_region i) pg_no got.1 u
        (place_in_bounds i pg_no pos few).1 h j lt
      ∙ ap (λ (m : ℕ → Bytes). m 0 j) (get_region-content map_fault id s)

  -- What a frame does to what SQLite reads: nothing, if it is no commit frame or fails.
  abbrev pub Quiet : Frame → Loop → Loop → Type 0
  Quiet f l u =
      ((is_commit f.header ≡ false) ⊎ (is_failed u.ret_err ≡ true))
      → HeaderKept l.store.shm u.store.shm

  -- WriteHeader either fails and changes nothing, or writes.
  pub data Written (hdr : Bytes) (s : SharedMemory) : Type 0 where
    not_written :
        (e : Error)
        → (write_header map_fault hdr s).0 ≡ some e
        → (write_header map_fault hdr s).1.content ≡ s.content
        → Written hdr s
    is_written : (write_header map_fault hdr s).0 ≡ none → Written hdr s

  pub write_header-Written : (hdr : Bytes) (s : SharedMemory) → Written hdr s
  unfolding write_header
  write_header-Written hdr s = elim (Option-cases (get_region map_fault 0 s).0) [
    | inl k ↦ is_written (rw (k, write_header))
    | inr (e, k) ↦
        not_written (wrapped "failed to get region 0" e) (rw (k, write_header))
          (rw (k, write_header) (get_region-content map_fault 0 s))
  ]

  -- The loop's variables with another wal-index and header.
  abbrev pub with_index : Loop → Bytes → SharedMemory → Loop
  with_index l hdr shm = record l { hdr = hdr; store = record l.store { shm = shm } }

  pub publish-commit :
      (f : Frame) (l : Loop) (err : Option Error)
      → is_commit f.header ≡ true
      → (write_header map_fault (published_header f l) l.store.shm).0 ≡ err
      → publish write_fault map_fault page f l
        ≡ after_publish err (published_header f l) (
            with_index l
              (published_header f l)
              (write_header map_fault (published_header f l) l.store.shm).1)
  unfolding publish
  publish-commit f l err c k =
      rw (c, publish)
        (ap
          (λ e. after_publish e (published_header f l) (
            with_index l (published_header f l)
              (write_header map_fault (published_header f l) l.store.shm).1))
          k)

  pub publish-Quiet :
      (f : Frame) (l : Loop)
      → is_failed l.ret_err ≡ false
      → Quiet f l (publish write_fault map_fault page f l)
  unfolding publish after_publish
  publish-Quiet f l ok q j lt = elim (Bool-cases (is_commit f.header)) [
    | inr plain ↦ rw (plain, publish)
    | inl commits ↦ elim (write_header-Written (published_header f l) l.store.shm) [
      | is_written k ↦
          let made = publish-commit f l none commits k in
          elim q [
            | inl plain ↦ absurd (cc (commits, plain))
            | inr bad ↦ absurd (cc (sym (ap (λ (u : Loop). is_failed u.ret_err) made) ∙ bad, ok))
          ]
      | not_written e k kept ↦
          ap (λ (u : Loop). u.store.shm.content 0 j) (publish-commit f l (some e) commits k)
          ∙ ap (λ (m : ℕ → Bytes). m 0 j) kept
    ]
  ]
