-- ===== src/Vfs.antt =====
-- internal/vfs/gatedwalfile.go: the -wal file as SQLite sees it. Frames pass through as they are
-- written, but a transaction's commit frame is withheld until the gate has accepted the transaction.
pub mod Trace
pub mod Tracked
pub mod Headers
pub mod Data
pub mod Withhold
pub mod Written
pub mod Capture
pub mod Reused
pub mod Flush
pub mod Transaction
use literaft.Base.{
  ℕ, zero, suc, ◌+◌, ◌-◌, Bool, true, false, not, ◌&&◌, ◌||◌, Option, none, some, List, [], ◌∷◌,
  ◌++◌, length, get_or, ◌⊎◌, inl, inr, leb, ◌==◌, if◌then◌else◌,
}
use literaft.Base.Bytes.{Bytes, bytes_of}
use literaft.Errors.{Error, ResultCode, ioerr_write, err_code, plain}
use literaft.Wal.Frame.{Frame, frame_header_size, pg_no, is_commit}
use literaft.Wal.Header.{wal_header_size, page_size}
use literaft.Wal.Offsets.{is_frame_header_offset, is_frame_data_offset}

-- What the file does to the world, newest first: the writes that it passes to the file below, and
-- the transactions that it proposes to the gate with the gate's answer.
pub data Event : Type 0 where
  wrote : ℕ → List ℕ → Event
  proposed : List Frame → Option Error → Event

-- gatedWALFile. A tracked frame is known by the offset of its header: `tx_frames` holds the offsets
-- of `currentTxFrames` in order, and both they and `currentTxFrameOffsets` mean the one frame object
-- that `tracked` has there.
pub record GatedFile : Type 0 where
  pub page : ℕ
  pub pending_header : Option Bytes
  pub tx_frames : List ℕ
  pub tracked : ℕ → Option Frame
  pub committed : Bool
  pub max_offset : ℕ
  pub rewrite_header : Option Bytes
  pub rewrite_offset : ℕ

abbrev pub track : (ℕ → Option Frame) → ℕ → Option Frame → ℕ → Option Frame
track m o v q = if q == o then v else m q

-- `p` as an array.
abbrev pub array_of : List ℕ → Bytes
array_of p i = get_or p i 0

-- The result of WriteAt: a count, an error of the file below or of this one, an error with a result
-- code for SQLite, or a panic.
pub data Reply : Type 0 where
  done : ℕ → Reply
  failed : Error → Reply
  system_error : ResultCode → Reply
  panicked : Reply

pub record Result : Type 0 where
  pub reply : Reply
  pub file : GatedFile
  pub trace : List Event

unfoldable pub reset_current_tx : GatedFile → GatedFile
reset_current_tx f = record f {
  tx_frames = [];
  tracked = λ _. none;
  committed = false;
  rewrite_header = none;
}

-- A header after a commit, or at or below the highest offset seen, starts a new transaction.
unfoldable pub begin_tx : GatedFile → ℕ → GatedFile
unfolding reset_current_tx
begin_tx f off =
    let f1 = record f { rewrite_header = none } in
    if f.committed || leb off f.max_offset then reset_current_tx f1 else f1

-- The file over the first bytes of a -wal file; a short one has no page size yet.
unfoldable pub new_gated_file : List ℕ → GatedFile
new_gated_file header_bytes = record {
  page = if length header_bytes == wal_header_size then page_size (array_of header_bytes) else 0;
  pending_header = none;
  tx_frames = [];
  tracked = λ _. none;
  committed = false;
  max_offset = 0;
  rewrite_header = none;
  rewrite_offset = 0;
}

-- The read that newGatedWALFile starts with: an error other than io.EOF, or the bytes it got.
unfoldable pub open_gated_file : Error ⊎ List ℕ → Option GatedFile
open_gated_file (inl e) = none
open_gated_file (inr header_bytes) = some (new_gated_file header_bytes)

abbrev pub is_rewrite : Option Frame → Bytes → Bool
is_rewrite none h = false
is_rewrite (some old) h = pg_no old.header == pg_no h

-- The staged header, if the data write at `header_off` disproves that it was a checksum rewrite.
abbrev pub disproved : GatedFile → ℕ → Option Bytes
disproved f header_off = if header_off == f.rewrite_offset then f.rewrite_header else none

unfoldable pub resolve_rewrite : GatedFile → ℕ → GatedFile
unfolding reset_current_tx
resolve_rewrite f header_off = elim (disproved f header_off) [
  | none ↦ f
  | some h ↦ record (reset_current_tx (record f { rewrite_header = none })) {
    pending_header = some h;
    max_offset = header_off;
  }
]

-- The frames behind the pointers of `currentTxFrames`.
unfoldable pub frames_at : (ℕ → Option Frame) → List ℕ → List Frame
frames_at m [] = []
frames_at m (o ∷ os) = let rest = frames_at m os in elim (m o) [ none ↦ rest | some f ↦ f ∷ rest ]

abbrev pub error_code : Error → ResultCode
error_code e = elim (err_code e) [ none ↦ ioerr_write | some c ↦ c ]

-- The file below and the gate decide freely, also by what happened before.
module _ (fault : List Event → ℕ → List ℕ → Option Error)
    (verdict : List Event → List Frame → Option Error) where
  -- f.File.WriteAt(p, off)
  unfoldable pub pass_through : GatedFile → List ℕ → ℕ → List Event → Result
  pass_through f p off t = record {
    reply = elim (fault t off p) [ none ↦ done (length p) | some e ↦ failed e ];
    file = f;
    trace = wrote off p ∷ t;
  }

  -- A header that may be a checksum rewrite of a committed frame.
  unfoldable pub stage_rewrite : GatedFile → Bytes → List ℕ → ℕ → List Event → Result
  unfolding pass_through
  stage_rewrite f h p off t =
      pass_through
        (record f {
          tracked =
              track f.tracked off
                (elim (f.tracked off) [ none ↦ none | some fr ↦ some (record fr { header = h }) ]);
          rewrite_header = some h;
          rewrite_offset = off;
        })
        p off t

  -- The header of a frame of this transaction, of a new one, or of a rewound log.
  unfoldable pub begin_frame : GatedFile → Bytes → List ℕ → ℕ → List Event → Result
  unfolding pass_through begin_tx
  begin_frame f h p off t =
      let f3 = record (begin_tx f off) { pending_header = some h; max_offset = off } in
      if not (is_commit h)
      then pass_through f3 p off t
      else record { reply = done (length p); file = f3; trace = t }

  unfoldable pub write_frame_header : GatedFile → List ℕ → ℕ → List Event → Result
  unfolding stage_rewrite begin_frame
  write_frame_header f p off t =
      if not (length p == frame_header_size)
      then record { reply = system_error ioerr_write; file = f; trace = t }
      else if f.committed && is_rewrite (f.tracked off) (array_of p)
      then stage_rewrite f (array_of p) p off t
      else begin_frame f (array_of p) p off t

  -- After the gate has accepted: a failure to flush the commit frame is a panic.
  unfoldable pub flush_at : GatedFile → Frame → ℕ → ℕ → List Event → Result
  flush_at f frame header_off off t =
      let head = bytes_of frame.header 0 frame_header_size in
      let t1 = wrote header_off head ∷ t in
      let t2 = wrote off frame.image ∷ t1 in
      elim (fault t header_off head) [
        | some e ↦ record { reply = panicked; file = f; trace = t1 }
        | none ↦ elim (fault t1 off frame.image) [
          | some e ↦ record { reply = panicked; file = f; trace = t2 }
          | none ↦ record { reply = done (length frame.image); file = f; trace = t2 }
        ]
      ]

  -- What follows the gate's verdict on `fs`.
  unfoldable pub after_verdict :
      Option Error → List Frame → GatedFile → Frame → ℕ → List Event → Result
  after_verdict (some e) fs f frame off t = record {
    reply = system_error (error_code e);
    file = reset_current_tx f;
    trace = proposed fs (some e) ∷ t;
  }
  after_verdict none fs f frame off t =
      flush_at (record f { committed = true }) frame (off - frame_header_size) off
        (proposed fs none ∷ t)

  unfoldable pub propose_commit : GatedFile → Frame → ℕ → List Event → Result
  propose_commit f frame off t =
      let fs = frames_at f.tracked f.tx_frames in
      after_verdict (verdict t fs) fs (record f { tx_frames = [] }) frame off t

  -- The frame that a pending header and its image make.
  unfoldable pub complete_frame : GatedFile → Bytes → List ℕ → ℕ → List Event → Result
  complete_frame f h p off t =
      let header_off = off - frame_header_size in
      let frame : Frame = record { header = h; image = p } in
      let f1 = record f {
        pending_header = none;
        tx_frames = f.tx_frames ++ header_off ∷ [];
        tracked = track f.tracked header_off (some frame);
      } in
      if not (is_commit h) then pass_through f1 p off t else propose_commit f1 frame off t

  -- The rest of writeFrameData, once a staged rewrite is resolved.
  unfoldable pub write_resolved : GatedFile → List ℕ → ℕ → List Event → Result
  write_resolved f p off t =
      let header_off = off - frame_header_size in
      elim (f.tracked header_off) [
        | some fr ↦
            pass_through
              (record f { tracked = track f.tracked header_off (some (record fr { image = p })) }) p
              off t
        | none ↦ elim f.pending_header [
          | none ↦ record { reply = system_error ioerr_write; file = f; trace = t }
          | some h ↦ complete_frame f h p off t
        ]
      ]

  unfoldable pub write_frame_data : GatedFile → List ℕ → ℕ → List Event → Result
  write_frame_data f p off t =
      if not (length p == f.page)
      then record { reply = system_error ioerr_write; file = f; trace = t }
      else write_resolved (resolve_rewrite f (off - frame_header_size)) p off t

  unfoldable pub write_at : GatedFile → List ℕ → ℕ → List Event → Result
  unfolding write_frame_header write_frame_data
  write_at f p off t =
      if off == 0
      then pass_through
          (if f.page == 0 && length p == wal_header_size
            then record f { page = page_size (array_of p) }
            else f)
          p off t
      else if f.page == 0
      then record { reply = failed (plain "WAL page size unknown"); file = f; trace = t }
      else if is_frame_header_offset f.page off
      then write_frame_header f p off t
      else if is_frame_data_offset f.page off
      then write_frame_data f p off t
      else record { reply = failed (plain "unexpected WAL write"); file = f; trace = t }
