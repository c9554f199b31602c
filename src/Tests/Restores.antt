-- ===== src/Tests/Restores.antt =====
-- internal/fsm/snapshotter on a snapshot of two pages of 512 bytes, and its restore on a fresh node.
use literaft.Base.{ℕ, ◌≡◌, refl, false, Option, none, some, List, [], ◌∷◌, ◌++◌, inr, arith}
use literaft.Base.Bytes.{bytes_of, zeros, put8}
use literaft.Errors.{Error}
use literaft.Wal.Frame.{Frame}
use literaft.Wal.Header as WalHeader
use literaft.Shm.Memory.{map_regions, get_region, write_header}
use literaft.Snapshot.{new_snapshot_header, named_page_size, restore, sent}
use literaft.Snapshot.Restore.{stream, numbered, restore-snapshot}
use literaft.Snapshot.Capture.{Calls, snapshot, snapshot_stream}
use literaft.Snapshot.Install.{restore_installs}
use literaft.WalAppender.Append.{Store, write_wal}
use literaft.WalAppender.Rewind.{
  Append, appended, append_panicked, endless, append_frames_locked, bootstrap,
  write_wal_file_header,
}
use literaft.WalAppender.Ready.{Extends}
use literaft.WalAppender.Refinement.{Base}
use literaft.WalAppender.Bootstrap.{bootstrap-Represents}
use literaft.WalAppender.Represents.{Represents, size_after}

-- The first page names the size 512 in its bytes 16 and 17.
abbrev first_page : List ℕ
first_page = bytes_of (put8 zeros 16 2) 0 512

abbrev second_page : List ℕ
second_page = bytes_of zeros 0 512

restore-snapshot_example :
    restore 512 (bytes_of (new_snapshot_header 41) 0 16 ++ stream (first_page ∷ second_page ∷ []))
    ≡ sent 41 (numbered 1 first_page (second_page ∷ [])) none
unfolding named_page_size bytes_of put8
restore-snapshot_example =
    restore-snapshot 512 41 first_page (second_page ∷ []) (omega arith) (omega arith) refl
      (omega arith) (refl, (refl, tt))

abbrev works : List (ℕ × List ℕ) → ℕ → Option Error
works w off = none

abbrev maps : ℕ → Option Error
maps id = none

abbrev unused_store : Store
unused_store = record {
  wal = [];
  shm = record { content = λ q. zeros; mapped = 0 };
  dirty_page_count = 0;
}

abbrev stored_by : Append → Store
stored_by (appended err s) = s
stored_by append_panicked = unused_store
stored_by endless = unused_store

abbrev fresh_store : Store
fresh_store = stored_by (bootstrap works maps 512 (inr 0) (some zeros) unused_store)

fresh_store-Represents : Represents maps 512 fresh_store []
unfolding bootstrap write_wal_file_header write_wal write_header get_region map_regions
    WalHeader.init_header
fresh_store-Represents =
    bootstrap-Represents works maps 512 0 (some zeros) unused_store fresh_store refl

abbrev backed_up : Calls
backed_up = record {
  open_db = none;
  create_temp = none;
  backup = inr (stream (first_page ∷ second_page ∷ []));
  seek = none;
}

restore_installs_example :
    (restore 512 (snapshot_stream 41 (stream (first_page ∷ second_page ∷ [])))
      ≡ sent 41 (numbered 1 first_page (second_page ∷ [])) none)
    × ((err : Option Error) × (u : Store) × (append_frames_locked works maps 512 false
            (some zeros)
            (numbered 1 first_page (second_page ∷ []))
            fresh_store
          ≡ appended err u)
        × (err ≡ none
            → (base : List Frame) × (log' : List Frame) × Base works maps 512 false fresh_store []
                base
              × Extends (numbered 1 first_page (second_page ∷ [])) base log'
              × Represents maps 512 u log'
              × (size_after log' ≡ 2)))
unfolding named_page_size bytes_of put8 snapshot
restore_installs_example =
    restore_installs works maps 512 backed_up
      (snapshot_stream 41 (stream (first_page ∷ second_page ∷ []))) 41 first_page (second_page ∷ [])
      false (some zeros) fresh_store [] refl refl (omega arith) (omega arith) refl
      (refl, (refl, tt)) (omega arith) fresh_store-Represents
