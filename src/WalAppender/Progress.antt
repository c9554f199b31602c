-- ===== src/WalAppender/Progress.antt =====
-- internal/fsm/walappender/walappender.go: the loop over the frames of a transaction always ends, and
-- what stands in the log if it does not fail.
use literaft.Base.{
  ℕ, suc, ◌+◌, ◌%◌, ◌<◌, ◌≡◌, refl, sym, ap, subst, ◌∙◌, true, false, Option, none, some, List, [],
  ◌∷◌, length, ◌==◌, inl, inr, ◌⊎◌, arith, Bool-cases,
}
use literaft.Base.Bytes.{Bytes, u32_mod, bytes_of}
use literaft.Errors.{Error, plain}
use literaft.Proto.RoundTrip.{All, IsCaptured}
use literaft.Wal.Frame as WalFrame
use literaft.Wal.Frame.{Frame, frame_header_size, pg_no, n_truncate, is_commit}
use literaft.Wal.Offsets.{frame_offset}
use literaft.Shm.Memory.{add_frame}
use literaft.WalAppender.Append.{
  Store, Loop, is_failed, seal_frame, write_wal, after_index, index_frame, after_data, after_header,
  write_frame, append_frame, append_all,
}
use literaft.WalAppender.Sealed.{seal_frame-pg_no, seal_frame-image}
use literaft.WalAppender.Atomic.{uncommitted, seal_frame-is_commit}
use literaft.WalAppender.Indexed.{IsIndex, not_added, is_added, add_frame-Added}
use literaft.WalAppender.Stored.{Stored, Stored-next}
use literaft.WalAppender.Ready.{
  pages, length-pages, Extends, Ready, seal_frame-redo, NumberFits, commit_frame,
}
use literaft.WalAppender.Outcome.{Commits, Outcome, Ends, publish-Outcome}

module _ (write_fault : List (ℕ × List ℕ) → ℕ → Option Error) (map_fault : ℕ → Option Error)
    (page : ℕ) where
  -- The frame's header and image are in the file, and its entry in the index is to be made.
  record Filed (hdr : Bytes) (g : Frame) (log : List Frame) (l : Loop) : Type 0 where
    working : is_failed l.ret_err ≡ false
    unpublished : l.hdr ≡ hdr
    numbered : l.current_frame_idx ≡ suc (length log)
    placed : l.current_offset ≡ frame_offset page (suc (length log))
    stored : Stored page l.store.wal (g ∷ log)
    indexed : IsIndex l.store.shm.content (pages log)

  module _ (hdr : Bytes) (g : Frame) (log : List Frame) (counted : suc (length log) < u32_mod)
      (numbers : pg_no g.header < u32_mod) where
    index_frame-Ends :
        (l : Loop)
        → Filed hdr g log l
        → Ends write_fault map_fault page
            (index_frame write_fault map_fault page g l)
            (Outcome write_fault map_fault page hdr g log)
    unfolding index_frame after_index
    index_frame-Ends l v =
        let len = length-pages log in
        let at : l.current_frame_idx ≡ suc (length (pages log)) = omega (arith, v.numbered, len) in
        elim (add_frame-Added map_fault (pages log) (pg_no g.header) l.store.shm
          (omega (arith, len, counted)) numbers v.indexed) [
            | not_added e shm k ↦
                let made : add_frame map_fault l.current_frame_idx (pg_no g.header) l.store.shm
                    ≡ some (some e, shm) =
                  rw at k in
                (
                  after_index write_fault map_fault page g l (some e) shm,
                  rw (made, index_frame),
                  inl refl,
                )
            | is_added shm k index ↦
                let made : add_frame map_fault l.current_frame_idx (pg_no g.header) l.store.shm
                    ≡ some (none, shm) =
                  rw at k in
                (
                  after_index write_fault map_fault page g l none shm,
                  rw (made, index_frame),
                  publish-Outcome write_fault map_fault page hdr g log _ (record {
                    working = v.working;
                    unpublished = v.unpublished;
                    numbered = v.numbered;
                    placed = v.placed;
                    stored = v.stored;
                    indexed = index;
                  }),
                )
          ]

    module _ (l : Loop) (working : is_failed l.ret_err ≡ false) (unpublished : l.hdr ≡ hdr)
        (numbered : l.current_frame_idx ≡ suc (length log))
        (placed : l.current_offset ≡ frame_offset page (length log)) (w : List (ℕ × List ℕ))
        (old : Stored page w log) (sized : length g.image ≡ page) where
      abbrev filed : List (ℕ × List ℕ)
      filed =
          (l.current_offset + frame_header_size, g.image)
          ∷ ((l.current_offset, bytes_of g.header 0 frame_header_size) ∷ w)

      after_data-Ends :
          (err : Option Error) (s : Store)
          → s.wal ≡ filed
          → IsIndex s.shm.content (pages log)
          → Ends write_fault map_fault page
              (after_data write_fault map_fault page g l (err, s))
              (Outcome write_fault map_fault page hdr g log)
      unfolding after_data
      after_data-Ends (some e) s at index = (_, refl, inl refl)
      after_data-Ends none s at index =
          index_frame-Ends
            (record l { store = s; current_offset = l.current_offset + (frame_header_size + page) })
            (record {
              working = working;
              unpublished = unpublished;
              numbered = numbered;
              placed = omega (arith, placed);
              stored =
                  subst (λ v. Stored page v (g ∷ log)) (sym at)
                    (subst
                      (λ off.
                        Stored page
                          ((off + frame_header_size, g.image)
                            ∷ ((off, bytes_of g.header 0 frame_header_size) ∷ w))
                          (g ∷ log))
                      (sym placed) (Stored-next page w g log sized old));
              indexed = index;
            })

      after_header-Ends :
          (err : Option Error) (s : Store)
          → s.wal ≡ (l.current_offset, bytes_of g.header 0 frame_header_size) ∷ w
          → IsIndex s.shm.content (pages log)
          → Ends write_fault map_fault page
              (after_header write_fault map_fault page g l (err, s))
              (Outcome write_fault map_fault page hdr g log)
      unfolding after_header write_wal
      after_header-Ends (some e) s at index = (_, refl, inl refl)
      after_header-Ends none s at index =
          after_data-Ends (write_fault s.wal (l.current_offset + frame_header_size))
            (record s { wal = (l.current_offset + frame_header_size, g.image) ∷ s.wal })
            (ap (λ v. (l.current_offset + frame_header_size, g.image) ∷ v) at) index

  write_frame-Ends :
      (hdr : Bytes) (f : Frame) (log : List Frame) (l : Loop)
      → suc (length log) < u32_mod
      → pg_no f.header < u32_mod
      → length f.image ≡ page
      → Ready page hdr l log
      → Ends write_fault map_fault page
          (write_frame write_fault map_fault page f l)
          (Outcome write_fault map_fault page hdr (seal_frame f l) log)
  unfolding write_frame write_wal
  write_frame-Ends hdr f log l counted numbers sized v =
      let g = seal_frame f l in
      let l1 = record l {
        checksum1 = WalFrame.checksum1 g.header;
        checksum2 = WalFrame.checksum2 g.header;
        current_frame_idx = (l.current_frame_idx + 1) % u32_mod;
      } in
      after_header-Ends hdr g log counted (omega (arith, seal_frame-pg_no f l)) l1 v.working
        v.unpublished (omega (arith, v.numbered)) v.placed l.store.wal v.stored
        (ap length (seal_frame-image f l) ∙ sized) (write_fault l.store.wal l.current_offset)
        (record l.store {
          wal = (l.current_offset, bytes_of g.header 0 frame_header_size) ∷ l.store.wal;
        })
        refl v.indexed

  append_frame-Ends :
      (hdr : Bytes) (f : Frame) (log : List Frame) (l : Loop)
      → suc (length log) < u32_mod
      → pg_no f.header < u32_mod
      → Ready page hdr l log
      → Ends write_fault map_fault page
          (append_frame write_fault map_fault page f l)
          (Outcome write_fault map_fault page hdr (seal_frame f l) log)
  unfolding append_frame
  append_frame-Ends hdr f log l counted numbers v = elim (Bool-cases (length f.image == page)) [
    | inl h ↦
        let made : append_frame write_fault map_fault page f l
            ≡ write_frame write_fault map_fault page f l =
          rw (v.working, h, append_frame) in
        let (u, e, out) = write_frame-Ends hdr f log l counted numbers (ground (arith, h)) v in
        (u, made ∙ e, out)
    | inr h ↦ (
      record l { ret_err = some (plain "frame has another size than the cluster's pages") },
      rw (v.working, h, append_frame),
      inl refl,
    )
  ]

  append_all-failed :
      (fs : List Frame) (l : Loop)
      → is_failed l.ret_err ≡ true
      → append_all write_fault map_fault page fs l ≡ some l
  unfolding append_all append_frame
  append_all-failed [] l bad = refl
  append_all-failed (f ∷ fs) l bad = rw (bad, append_all, append_frame) (append_all-failed fs l bad)

  -- The loop over a whole transaction ends; if it does not fail, it has extended the log by the
  -- transaction and published it.
  pub append_all-Ends :
      (hdr : Bytes) (fs : List Frame) (log : List Frame) (l : Loop)
      → IsCaptured fs
      → All NumberFits fs
      → length log + length fs < u32_mod
      → Ready page hdr l log
      → Ends write_fault map_fault page (append_all write_fault map_fault page fs l) (λ (u : Loop).
        (is_failed u.ret_err ≡ true)
        ⊎ ((log' : List Frame) × Extends fs log log'
            × Commits write_fault map_fault page hdr log' u))
  unfolding append_all
  append_all-Ends hdr [] log l captured fits few v = absurd captured
  append_all-Ends hdr (f ∷ []) log l captured (fit, rest) few v =
      let (u, e, out) = append_frame-Ends hdr f log l (omega arith) fit v in
      let made : append_all write_fault map_fault page (f ∷ []) l ≡ some u = rw (e, append_all) in
      let commits : is_commit (seal_frame f l).header ≡ true =
        seal_frame-is_commit f l ∙ commit_frame f captured in
      (
        u,
        made,
        elim out [
          | inl bad ↦ inl bad
          | inr (inl (body, ready)) ↦ absurd (cc (body, commits))
          | inr (inr (c, published)) ↦
              inr (seal_frame f l ∷ log, (seal_frame f l, seal_frame-redo f l, refl), published)
        ],
      )
  append_all-Ends hdr (f ∷ f2 ∷ fs) log l (zero_size, captured) (fit, rest) few v =
      let (u, e, out) = append_frame-Ends hdr f log l (omega arith) fit v in
      let made : append_all write_fault map_fault page (f ∷ f2 ∷ fs) l
          ≡ append_all write_fault map_fault page (f2 ∷ fs) u =
        rw (e, append_all) in
      let body : is_commit (seal_frame f l).header ≡ false =
        seal_frame-is_commit f l ∙ uncommitted f zero_size in
      elim out [
        | inl bad ↦ (u, made ∙ append_all-failed (f2 ∷ fs) u bad, inl bad)
        | inr (inr (commits, published)) ↦ absurd (cc (body, commits))
        | inr (inl (c, ready)) ↦
            let (w, k, end) =
              append_all-Ends hdr (f2 ∷ fs) (seal_frame f l ∷ log) u captured rest (omega arith)
                ready in
            (
              w,
              made ∙ k,
              elim end [
                | inl bad ↦ inl bad
                | inr (log', ext, published) ↦
                    inr (log', (seal_frame f l, seal_frame-redo f l, ext), published)
              ],
            )
      ]
