-- ===== src/Tests/Appends.antt =====
-- internal/fsm/walappender/walappender.go on a fresh store, with a page of eight bytes and a file below
-- that fails when the second frame is written.
use literaft.Base.{
  ℕ, ◌≡◌, refl, true, false, Option, none, some, List, [], ◌∷◌, ◌==◌, arith, if◌then◌else◌,
}
use literaft.Base.Bytes.{zeros, get32, put32, get16, put16}
use literaft.Errors.{Error, plain}
use literaft.Wal.Checksum.{compute_checksums}
use literaft.Wal.Frame as WalFrame
use literaft.Wal.Frame.{Frame, n_truncate, is_commit}
use literaft.Shm.Header as IndexHeader
use literaft.Shm.Layout.{
  region_for_frame, frame_zero_for_region, index_in_region, hash_slot_for_page,
}
use literaft.Shm.Memory.{
  map_regions, get_region, free_slot, wipe_segment, add_entry, add_in_region, add_frame,
}
use literaft.WalAppender.Append.{
  Store, Loop, seal_frame, write_wal, publish, after_index, index_frame, after_data, after_header,
  write_frame, append_frame, append_all, begin_loop,
}
use literaft.WalAppender.Published.{HeaderKept}
use literaft.WalAppender.Atomic.{failed_unpublished}
use literaft.WalAppender.Lock.{Locks, unlocked, acquire_write_lock, here, next_step, acquires}
use literaft.WalAppender.Exclusion.{one_holder}

abbrev second_fails : List (ℕ × List ℕ) → ℕ → Option Error
second_fails written off = if off == 64 then some (plain "no space left on device") else none

abbrev maps : ℕ → Option Error
maps id = none

abbrev eight : List ℕ
eight = 1 ∷ 2 ∷ 3 ∷ 4 ∷ 5 ∷ 6 ∷ 7 ∷ 8 ∷ []

abbrev body_frame : Frame
body_frame = record { header = WalFrame.set_pg_no zeros 3; image = eight }

abbrev last_frame : Frame
last_frame = record {
  header = WalFrame.set_n_truncate (WalFrame.set_pg_no zeros 4) 4;
  image = eight;
}

abbrev empty_store : Store
empty_store = record {
  wal = [];
  shm = record { content = λ q. zeros; mapped = 0 };
  dirty_page_count = 0;
}

abbrev at_start : Loop
at_start = begin_loop second_fails maps 8 zeros empty_store

abbrev or_start : Option Loop → Loop
or_start none = at_start
or_start (some l) = l

abbrev after_body : Loop
after_body = or_start (append_all second_fails maps 8 (body_frame ∷ []) at_start)

abbrev after_last : Loop
after_last = or_start (append_all second_fails maps 8 (body_frame ∷ last_frame ∷ []) at_start)

failed_unpublished_example : HeaderKept empty_store.shm after_last.store.shm
unfolding append_all append_frame write_frame seal_frame after_header after_data index_frame
    after_index publish write_wal add_frame add_in_region add_entry free_slot wipe_segment
    get_region map_regions region_for_frame frame_zero_for_region index_in_region hash_slot_for_page
    is_commit n_truncate get32 put32 get16 put16 compute_checksums WalFrame.update_checksums
    WalFrame.set_pg_no WalFrame.set_n_truncate WalFrame.set_salt1 WalFrame.set_salt2
    WalFrame.set_checksum1 WalFrame.set_checksum2 IndexHeader.max_frame WalFrame.pg_no
failed_unpublished_example =
    failed_unpublished second_fails maps 8 (body_frame ∷ last_frame ∷ []) at_start after_last
      (refl, omega arith) (omega arith) refl refl

abbrev locked : Locks
locked = record (unlocked 5) { token = false; os_locked = true; next = 1 }

abbrev first_lock : ℕ
first_lock = 0

one_holder_example :
    (first_lock ≡ first_lock)
    × (locked.token ≡ false)
    × (locked.closed ≡ false → locked.os_locked ≡ true)
unfolding acquire_write_lock
one_holder_example =
    one_holder 5 {s = locked} first_lock first_lock (next_step here (acquires false none refl))
      (omega arith, refl) (omega arith, refl)
