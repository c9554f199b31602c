-- ===== src/WalAppender/Refinement.antt =====
-- internal/fsm/walappender/walappender.go: the store is a log of frames, and an append that succeeds
-- extends it by the transaction.
use literaft.Base.{
  ℕ, ◌+◌, ◌≤◌, ◌<◌, ◌≡◌, refl, sym, ap, ◌∙◌, Bool, false, Option, none, some, List, [], length, inl,
  inr, arith,
}
use literaft.Base.Bytes.{Bytes, u32_mod}
use literaft.Errors.{Error}
use literaft.Proto.RoundTrip.{All, IsCaptured, FitsFrame}
use literaft.Wal.Frame.{Frame, n_truncate}
use literaft.Wal.Offsets.{frame_offset}
use literaft.Shm.Header as IndexHeader
use literaft.Shm.Checkpoint.{n_backfill}
use literaft.Shm.Copies.{word-Agree}
use literaft.Shm.Memory.{SharedMemory, read_header, read_checkpoint_info}
use literaft.Shm.RoundTrip.{read_header-write_header}
use literaft.WalAppender.Append.{Store, Loop, is_failed, published_header, begin_loop}
use literaft.WalAppender.Rewind.{
  Rewind, returned, Append, appended, append_loop, append_frames_locked,
}
use literaft.WalAppender.Indexed.{IsIndex}
use literaft.WalAppender.Stored.{Stored}
use literaft.WalAppender.Header.{SameTables-IsIndex, write_header-SameTables}
use literaft.WalAppender.Progress.{append_all-Ends}
use literaft.WalAppender.Outcome.{Commits}
use literaft.WalAppender.Ready.{pages, Extends, Ready}
use literaft.WalAppender.Restart.{
  update_checksums-word, published-max_frame, published-page_count, Rewinds, fails, stays, restarts,
  rewind_log_if_backfilled-Rewinds,
}
use literaft.WalAppender.Represents.{
  size_after, Represents, Extends-size, Extends-length, numbers-fit,
}

module _ (write_fault : List (ℕ × List ℕ) → ℕ → Option Error) (map_fault : ℕ → Option Error)
    (page : ℕ) where
  Commits-Represents :
      (hdr : Bytes) (log : List Frame) (u : Loop)
      → length log < u32_mod
      → size_after log < u32_mod
      → Commits write_fault map_fault page hdr log u
      → Represents map_fault page u.store log
  unfolding IndexHeader.max_frame IndexHeader.page_count
  Commits-Represents hdr log u few fits v =
      let h = published_header v.last v.l in
      let size : n_truncate v.last.header ≡ size_after log = ap size_after (sym v.is_log) in
      let (c, back, agree, rest, others) =
        read_header-write_header map_fault h v.l.store.shm u.store.shm v.written in
      record {
        hdr = c;
        published = back;
        counted =
            word-Agree c (IndexHeader.update_checksums h) 16 (omega arith) agree
            ∙ (update_checksums-word h 16 (omega arith)
                ∙ (published-max_frame v.last v.l (omega (arith, v.ready.numbered))
                    ∙ v.ready.numbered));
        sized =
            word-Agree c (IndexHeader.update_checksums h) 20 (omega arith) agree
            ∙ (update_checksums-word h 20 (omega arith)
                ∙ (published-page_count v.last v.l (omega (arith, size)) ∙ size));
        stored = rw v.same_wal v.ready.stored;
        indexed =
            SameTables-IsIndex v.l.store.shm.content u.store.shm.content
              (write_header-SameTables map_fault h v.l.store.shm u.store.shm v.written) (pages log)
              v.ready.indexed;
      }

  -- The log that the loop starts behind.
  record Starts (hdr : Bytes) (s : Store) (log : List Frame) : Type 0 where
    counted : IndexHeader.max_frame hdr ≡ length log
    stored : Stored page s.wal log
    indexed : IsIndex s.shm.content (pages log)

  begin_loop-Ready :
      (hdr : Bytes) (s : Store) (log : List Frame)
      → Starts hdr s log
      → Ready page hdr (begin_loop write_fault map_fault page hdr s) log
  begin_loop-Ready hdr s log v = record {
    working = refl;
    unpublished = refl;
    numbered = v.counted;
    placed = ap (λ n. frame_offset page n) v.counted;
    stored = v.stored;
    indexed = v.indexed;
  }

  -- An append ends, with a failure or a log that the transaction extends.
  abbrev pub Appends : List Frame → List Frame → Append → Type 0
  Appends frames base r =
      (err : Option Error) × (u : Store) × (r ≡ appended err u)
      × (err ≡ none
          → (log : List Frame) × Extends frames base log × Represents map_fault page u log)

  append_loop-Appends :
      (frames : List Frame) (hdr : Bytes) (s : Store) (log : List Frame)
      → IsCaptured frames
      → All FitsFrame frames
      → length log + length frames < u32_mod
      → Starts hdr s log
      → Appends frames log (append_loop write_fault map_fault page frames (returned none hdr s))
  unfolding append_loop
  append_loop-Appends frames hdr s log captured fits few v =
      let (u, e, out) =
        append_all-Ends write_fault map_fault page hdr frames log _ captured
          (numbers-fit frames fits) few (begin_loop-Ready hdr s log v) in
      (
        u.ret_err,
        u.store,
        rw (e, append_loop),
        λ ok. elim out [
          | inl bad ↦ absurd (cc (sym bad ∙ ap is_failed ok))
          | inr (log', ext, commits) ↦
              let size = Extends-size frames log log' captured fits ext in
              (
                log',
                ext,
                Commits-Represents hdr log' u (omega (arith, Extends-length frames log log' ext))
                    size commits,
              )
        ],
      )

  -- The log that the transaction goes behind: the store's; or an empty one, if no reader holds a lock
  -- and the database has every frame of the store's.
  pub data Base (busy : Bool) (s : Store) (log : List Frame) : List Frame → Type 0 where
    kept : Base busy s log log
    backfilled :
        (info : Bytes) (v : SharedMemory)
        → busy ≡ false
        → read_checkpoint_info map_fault s.shm ≡ (inr info, v)
        → length log ≤ n_backfill info
        → Base busy s log []

  rewound-Appends :
      (busy : Bool) (frames : List Frame) (s : Store) (log : List Frame) (r : Rewind)
      → IsCaptured frames
      → All FitsFrame frames
      → length log + length frames < u32_mod
      → (v : Represents map_fault page s log) → Rewinds write_fault map_fault page busy v.hdr s r
      → (base : List Frame) × Base busy s log base
        × Appends frames base (append_loop write_fault map_fault page frames r)
  unfolding append_loop
  rewound-Appends busy frames s log r captured fits few v (fails e h u) =
      (log, kept, (_, u, refl, λ ok. absurd (cc (ok))))
  rewound-Appends busy frames s log r captured fits few v (stays u wal content) = (
    log,
    kept,
    append_loop-Appends frames v.hdr u log captured fits few
        (record { counted = v.counted; stored = rw wal v.stored; indexed = rw content v.indexed }),
  )
  rewound-Appends busy frames s log r captured fits few v (restarts info h w u idle read full z) = (
    [],
    backfilled info w idle read (omega (arith, v.counted)),
    append_loop-Appends frames h u [] captured fits (omega arith)
        (record { counted = z; stored = tt; indexed = record { entries = tt; tail = inl refl } }),
  )

  -- appendFramesLocked of a whole transaction, on a store that represents a log, on every way
  -- through it, whatever reads, writes and mappings fail: it returns, without a panic and without
  -- an endless search in the wal-index. If it returns no error, the store represents the log with
  -- the transaction's frames behind it. The log is the old one, or an empty one, and the latter
  -- only if no reader holds a lock and every frame of the old one is backfilled.
  pub append_refines :
      (busy : Bool) (salts : Option Bytes) (frames : List Frame) (s : Store) (log : List Frame)
      → IsCaptured frames
      → All FitsFrame frames
      → length log + length frames < u32_mod
      → Represents map_fault page s log
      → (base : List Frame) × Base busy s log base
        × Appends frames base (append_frames_locked write_fault map_fault page busy salts frames s)
  unfolding append_frames_locked
  append_refines busy salts frames s log captured fits few v =
      let found : (read_header map_fault s.shm).0 ≡ inr (some v.hdr) = ap (λ p. p.0) v.published in
      let same : (read_header map_fault s.shm).1 ≡ s.shm = ap (λ p. p.1) v.published in
      rw (found, append_frames_locked)
        (rw same (
          rewound-Appends busy frames s log _ captured fits few v
            (rewind_log_if_backfilled-Rewinds write_fault map_fault page busy salts v.hdr s)))
