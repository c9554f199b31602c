-- ===== src/WalAppender/Append.antt =====
-- internal/fsm/walappender/walappender.go: appending frames under the write lock, and the rewind of
-- a log that the database has. Error texts are given without the numbers that the code adds to them.
use Prim.Native.String.{String}
use literaft.Base.{
  ℕ, suc, ◌+◌, ◌%◌, Bool, true, false, not, Option, none, some, List, [], ◌∷◌, length, ◌==◌,
  if◌then◌else◌,
}
use literaft.Base.Bytes.{Bytes, ByteOrder, little, big, bytes_of, u32_mod}
use literaft.Errors.{Error, plain, wrapped}
use literaft.Wal.Frame as WalFrame
use literaft.Wal.Frame.{Frame, frame_header_size, pg_no, n_truncate, is_commit}
use literaft.Wal.Offsets.{frame_offset}
use literaft.Shm.Header as IndexHeader
use literaft.Shm.Memory.{SharedMemory, write_header, add_frame}

-- The -wal file as the writes to it, newest first, with their offsets; the wal-index; and the count
-- of pages since the last checkpoint.
pub record Store : Type 0 where
  pub wal : List (ℕ × List ℕ)
  pub shm : SharedMemory
  pub dirty_page_count : ℕ

-- The local variables of the loop over the frames.
pub record Loop : Type 0 where
  pub hdr : Bytes
  pub current_frame_idx : ℕ
  pub current_offset : ℕ
  pub checksum1 : ℕ
  pub checksum2 : ℕ
  pub ret_err : Option Error
  pub store : Store

abbrev pub is_failed : Option Error → Bool
is_failed none = false
is_failed (some e) = true

abbrev pub checksum_order : Bytes → ByteOrder
checksum_order hdr = if IndexHeader.big_endian_checksum hdr then big else little

-- The salts of the log and the frame's checksums; an error of UpdateChecksums is not looked at.
unfoldable pub seal_frame : Frame → Loop → Frame
seal_frame f l =
    let h1 = WalFrame.set_salt1 f.header (IndexHeader.salt1 l.hdr) in
    let f1 : Frame = record {
      header = WalFrame.set_salt2 h1 (IndexHeader.salt2 l.hdr);
      image = f.image;
    } in
    elim (WalFrame.update_checksums (checksum_order l.hdr) f1 l.checksum1 l.checksum2) [
      | none ↦ f1
      | some f2 ↦ f2
    ]

-- The header that publishes the frames up to `f`.
unfoldable pub published_header : Frame → Loop → Bytes
published_header f l =
    let h1 = IndexHeader.set_max_frame l.hdr l.current_frame_idx in
    let h2 = IndexHeader.set_page_count h1 (n_truncate f.header) in
    let h3 = IndexHeader.set_last_frame_checksum1 h2 l.checksum1 in
    let h4 = IndexHeader.set_last_frame_checksum2 h3 l.checksum2 in
    IndexHeader.set_change_counter h4 ((IndexHeader.change_counter h4 + 1) % u32_mod)

abbrev pub fail : String → Error → Loop → Loop
fail text e l = record l { ret_err = some (wrapped text e) }

-- WriteHeader sets the header's checksums where it stands.
unfoldable pub after_publish : Option Error → Bytes → Loop → Loop
after_publish (some e) hdr l = fail "failed to write wal-index header" e l
after_publish none hdr l = record l { hdr = IndexHeader.update_checksums hdr }

-- The file below, the mapping of the -shm file, and the node's page size.
module _ (write_fault : List (ℕ × List ℕ) → ℕ → Option Error) (map_fault : ℕ → Option Error)
    (page : ℕ) where
  -- a.f.WriteAt
  unfoldable pub write_wal : ℕ → List ℕ → Store → Option Error × Store
  write_wal off bytes s = (write_fault s.wal off, record s { wal = (off, bytes) ∷ s.wal })

  unfoldable pub publish : Frame → Loop → Loop
  unfolding published_header after_publish
  publish f l =
      if not (is_commit f.header)
      then l
      else let hdr = published_header f l in
        let (err, shm) = write_header map_fault hdr l.store.shm in
        after_publish err hdr (record l { hdr = hdr; store = record l.store { shm = shm } })

  unfoldable pub after_index : Frame → Loop → Option Error → SharedMemory → Loop
  unfolding publish
  after_index f l (some e) shm =
      fail "failed to add frame to wal-index" e (record l { store = record l.store { shm = shm } })
  after_index f l none shm = publish f (record l {
    store = record l.store { shm = shm; dirty_page_count = suc l.store.dirty_page_count };
  })

  -- `none` would be an AddFrame that never ends.
  unfoldable pub index_frame : Frame → Loop → Option Loop
  unfolding after_index
  index_frame f l = elim (add_frame map_fault l.current_frame_idx (pg_no f.header) l.store.shm) [
    | none ↦ none
    | some (err, shm) ↦ some (after_index f l err shm)
  ]

  unfoldable pub after_data : Frame → Loop → Option Error × Store → Option Loop
  unfolding index_frame
  after_data f l (some e, s) =
      some (fail "failed to write data for frame" e (record l { store = s }))
  after_data f l (none, s) =
      index_frame f
        (record l { store = s; current_offset = l.current_offset + (frame_header_size + page) })

  unfoldable pub after_header : Frame → Loop → Option Error × Store → Option Loop
  unfolding after_data write_wal
  after_header f l (some e, s) =
      some (fail "failed to write header for frame frame" e (record l { store = s }))
  after_header f l (none, s) =
      after_data f (record l { store = s })
        (write_wal (l.current_offset + frame_header_size) f.image s)

  -- The body of the loop, behind its checks.
  unfoldable pub write_frame : Frame → Loop → Option Loop
  unfolding seal_frame after_header write_wal
  write_frame f l =
      let f1 = seal_frame f l in
      let l1 = record l {
        checksum1 = WalFrame.checksum1 f1.header;
        checksum2 = WalFrame.checksum2 f1.header;
        current_frame_idx = (l.current_frame_idx + 1) % u32_mod;
      } in
      after_header f1 l1
        (write_wal l.current_offset (bytes_of f1.header 0 frame_header_size) l.store)

  unfoldable pub append_frame : Frame → Loop → Option Loop
  unfolding write_frame
  append_frame f l =
      if is_failed l.ret_err
      then some l
      else if not (length f.image == page)
      then some
          (record l { ret_err = some (plain "frame has another size than the cluster's pages") })
      else write_frame f l

  unfoldable pub append_all : List Frame → Loop → Option Loop
  unfolding append_frame
  append_all [] l = some l
  append_all (f ∷ fs) l = elim (append_frame f l) [ none ↦ none | some l' ↦ append_all fs l' ]

  -- The loop's start at the end of the published log.
  abbrev pub begin_loop : Bytes → Store → Loop
  begin_loop hdr s = record {
    hdr = hdr;
    current_frame_idx = IndexHeader.max_frame hdr;
    current_offset = frame_offset page (IndexHeader.max_frame hdr);
    checksum1 = IndexHeader.last_frame_checksum1 hdr;
    checksum2 = IndexHeader.last_frame_checksum2 hdr;
    ret_err = none;
    store = s;
  }
