-- ===== src/WalAppender/Rewind.antt =====
-- internal/fsm/walappender/walappender.go: appendFramesLocked with the rewind before its loop, and the
-- bootstrap of a fresh log. The salts of a new log are an argument, as in Wal/Header.
use literaft.Base.{
  ℕ, ◌+◌, ◌%◌, Bool, true, false, ◌||◌, ◌&&◌, Option, none, some, List, ltb, ◌==◌, ◌⊎◌, inl, inr,
  if◌then◌else◌,
}
use literaft.Base.Bytes.{Bytes, bytes_of, u32_mod}
use literaft.Errors.{Error, plain, wrapped}
use literaft.Wal.Frame.{Frame}
use literaft.Wal.Header as WalHeader
use literaft.Shm.Header as IndexHeader
use literaft.Shm.Checkpoint.{n_backfill, reset_for_rewind}
use literaft.Shm.Memory.{read_header, write_header, read_checkpoint_info, write_checkpoint_info}
use literaft.WalAppender.Append.{Store, write_wal, append_all, begin_loop}

-- The result of rewindLogIfBackfilled: its error, the header and the store.
pub data Rewind : Type 0 where
  returned : Option Error → Bytes → Store → Rewind
  panicked : Rewind

-- The result of appendFramesLocked: its error and the store, a panic (of a nil header), or a
-- loop that does not end.
pub data Append : Type 0 where
  appended : Option Error → Store → Append
  append_panicked : Append
  endless : Append

-- The header of a rewound log.
unfoldable pub rewound_header : Bytes → Bytes → Bytes
rewound_header wal_hdr hdr =
    let h1 = IndexHeader.set_page_count (IndexHeader.set_max_frame hdr 0) 0 in
    let h2 = IndexHeader.set_last_frame_checksum1 h1 (WalHeader.checksum1 wal_hdr) in
    let h3 = IndexHeader.set_last_frame_checksum2 h2 (WalHeader.checksum2 wal_hdr) in
    let h4 = IndexHeader.set_salt1 h3 (WalHeader.salt1 wal_hdr) in
    let h5 = IndexHeader.set_salt2 h4 (WalHeader.salt2 wal_hdr) in
    IndexHeader.set_change_counter h5 ((IndexHeader.change_counter h5 + 1) % u32_mod)

module _ (write_fault : List (ℕ × List ℕ) → ℕ → Option Error) (map_fault : ℕ → Option Error)
    (page : ℕ) where
  unfoldable pub write_wal_file_header : Option Bytes → Store → (Error ⊎ Bytes) × Store
  unfolding write_wal
  write_wal_file_header salts s = elim (WalHeader.init_header salts page) [
    | none ↦ (inl (plain "failed to initialize -wal file header"), s)
    | some hdr ↦
        let (err, s') = write_wal write_fault map_fault page 0 (bytes_of hdr 0 32) s in
        elim err [
          | some e ↦ (inl (wrapped "failed to write -wal file header" e), s')
          | none ↦ (inr hdr, s')
        ]
  ]

  unfoldable pub reset_checkpoint : Bytes → Bytes → Store → Rewind
  reset_checkpoint info hdr s = elim (reset_for_rewind info) [
    | none ↦ panicked
    | some info' ↦
        let (err, shm) = write_checkpoint_info map_fault info' s.shm in
        let s' = record s { shm = shm } in
        elim err [
          | some e ↦ returned (some (wrapped "failed to write checkpoint info" e)) hdr s'
          | none ↦ returned none hdr s'
        ]
  ]

  -- Behind the new header of the -wal file.
  unfoldable pub rewind_index : Bytes → (Error ⊎ Bytes) × Store → Bytes → Rewind
  unfolding reset_checkpoint rewound_header
  rewind_index info (inl e, s) hdr =
      returned (some (wrapped "failed to write -wal file header" e)) hdr s
  rewind_index info (inr wal_hdr, s) hdr =
      let hdr' = rewound_header wal_hdr hdr in
      let (err, shm) = write_header map_fault hdr' s.shm in
      let s' = record s { shm = shm } in
      elim err [
        | some e ↦ returned (some (wrapped "failed to write wal-index header" e)) hdr' s'
        | none ↦ reset_checkpoint info (IndexHeader.update_checksums hdr') s'
      ]

  -- `busy`: some reader's lock is taken, and TryLockRange fails.
  unfoldable pub rewind_log_if_backfilled : Bool → Option Bytes → Bytes → Store → Rewind
  unfolding rewind_index write_wal_file_header
  rewind_log_if_backfilled true salts hdr s = returned none hdr s
  rewind_log_if_backfilled false salts hdr s =
      let (got, shm) = read_checkpoint_info map_fault s.shm in
      let s' = record s { shm = shm } in
      elim got [
        | inl e ↦ returned (some (wrapped "failed to read checkpoint info" e)) hdr s'
        | inr info ↦
            if IndexHeader.max_frame hdr == 0 || ltb (n_backfill info) (IndexHeader.max_frame hdr)
            then returned none hdr s'
            else rewind_index info (write_wal_file_header salts s') hdr
      ]

  unfoldable pub append_loop : List Frame → Rewind → Append
  append_loop frames panicked = append_panicked
  append_loop frames (returned (some e) hdr s) =
      appended (some (wrapped "failed to rewind WAL log" e)) s
  append_loop frames (returned none hdr s) =
      elim (append_all write_fault map_fault page frames
        (begin_loop write_fault map_fault page hdr s)) [
          | none ↦ endless
          | some l ↦ appended l.ret_err l.store
        ]

  unfoldable pub append_frames_locked : Bool → Option Bytes → List Frame → Store → Append
  unfolding append_loop rewind_log_if_backfilled
  append_frames_locked busy salts frames s =
      let (got, shm) = read_header map_fault s.shm in
      let s' = record s { shm = shm } in
      elim got [
        | inl e ↦ appended (some (wrapped "failed to read wal-index header" e)) s'
        | inr none ↦ append_panicked
        | inr (some hdr) ↦ append_loop frames (rewind_log_if_backfilled busy salts hdr s')
      ]

  -- What maybeBootstrap does once it has found the wal-index uninitialized; `size` is what Stat says
  -- of the -wal file.
  unfoldable pub bootstrap : Error ⊎ ℕ → Option Bytes → Store → Append
  unfolding write_wal_file_header
  bootstrap (inl e) salts s = appended (some (wrapped "failed to stat -wal file" e)) s
  bootstrap (inr size) salts s =
      if ltb 32 size
      then appended (some (plain "recovery from an existing WAL is not supported")) s
      else let (got, s') = write_wal_file_header salts s in
        elim got [
          | inl e ↦ appended (some (wrapped "failed to initialize -wal file header" e)) s'
          | inr w ↦
              let hdr =
                IndexHeader.init_header page (WalHeader.checksum1 w) (WalHeader.checksum2 w)
                  (WalHeader.salt1 w) (WalHeader.salt2 w) in
              let (err, shm) = write_header map_fault hdr s'.shm in
              let s'' = record s' { shm = shm } in
              elim err [
                | some e ↦ appended (some (wrapped "failed to write wal-index header" e)) s''
                | none ↦ appended none s''
              ]
        ]

  unfoldable pub maybe_bootstrap : Error ⊎ ℕ → Option Bytes → Store → Append
  unfolding bootstrap
  maybe_bootstrap size salts s =
      let (got, shm) = read_header map_fault s.shm in
      let s' = record s { shm = shm } in
      elim got [
        | inl e ↦ appended (some (wrapped "failed to read wal-index header" e)) s'
        | inr none ↦ append_panicked
        | inr (some hdr) ↦
            if IndexHeader.is_init hdr && ltb 0 (IndexHeader.page_size hdr)
            then appended none s'
            else bootstrap size salts s'
      ]
