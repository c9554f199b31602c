-- ===== src/Vfs/Written.antt =====
-- internal/vfs/gatedwalfile.go: the frames that SQLite writes, and a file that has seen nothing above
-- an offset.
use literaft.Base.{
  ℕ, suc, ◌+◌, ◌-◌, ◌<◌, ◌≤◌, ◌≡◌, refl, true, false, Option, none, some, List, [], ◌∷◌, ◌++◌,
  length, ◌==◌, ◌||◌, ◌&&◌, leb, arith, Bool-cases, inl, inr,
}
use literaft.Wal.Frame.{Frame, frame_header_size, is_commit}
use literaft.Wal.Offsets.{
  is_frame_header_offset, is_frame_data_offset, offsets_apart, header_offset_iff,
}
use literaft.Vfs

pub header_offset-nonzero :
    (page off : ℕ) → is_frame_header_offset page off ≡ true → (off == 0) ≡ false
unfolding is_frame_header_offset
header_offset-nonzero page off h = ground arith

pub data_offset-nonzero : (page off : ℕ) → is_frame_data_offset page off ≡ true → (off == 0) ≡ false
unfolding is_frame_data_offset
data_offset-nonzero page off h = ground arith

-- The two writes by which SQLite writes a frame.
pub record Written : Type 0 where
  pub head : List ℕ
  pub body : List ℕ

abbrev pub frame_of : Written → Frame
frame_of w = record { header = Vfs.array_of w.head; image = w.body }

pub record Fits (page : ℕ) (w : Written) : Type 0 where
  pub head_fits : length w.head ≡ frame_header_size
  pub body_fits : length w.body ≡ page

abbrev pub Below : ℕ → List ℕ → Type 0
Below off [] = Unit
Below off (o ∷ os) = (o < off) × Below off os

-- A file in the middle of a transaction, or at the start of its first, that has seen nothing at or
-- above `off`.
pub record Ready (page off : ℕ) (f : Vfs.GatedFile) : Type 0 where
  pub sized : f.page ≡ page
  pub open_tx : f.committed ≡ false
  pub unstaged : f.rewrite_header ≡ none
  pub ahead : f.max_offset < off
  pub below : Below off f.tx_frames
  pub unseen : (q : ℕ) → off ≤ q → f.tracked q ≡ none

-- The file without its transaction, and with nothing seen above the header that is written next.
abbrev pub forgotten : ℕ → Vfs.GatedFile → Vfs.GatedFile
forgotten off f = record f {
  tx_frames = [];
  tracked = λ _. none;
  committed = false;
  max_offset = 0;
  rewrite_header = none;
}

-- How the first header `w` of a transaction finds the file: nothing was tracked yet, as at the start of
-- the handle or behind a rejection; or the header is behind a commit, or where a header was seen
-- before; or it is taken for a checksum rewrite of a frame behind a commit, and does not commit.
pub data Starts (page off : ℕ) (f : Vfs.GatedFile) (w : Written) : Type 0 where
  at_end : Ready page off f → f.tx_frames ≡ [] → Starts page off f w
  anew :
      f.page ≡ page
      → (f.committed || leb off f.max_offset) ≡ true
      → (f.committed && Vfs.is_rewrite (f.tracked off) (Vfs.array_of w.head)) ≡ false
      → Starts page off f w
  reused :
      f.page ≡ page
      → (f.committed && Vfs.is_rewrite (f.tracked off) (Vfs.array_of w.head)) ≡ true
      → is_commit (Vfs.array_of w.head) ≡ false
      → Starts page off f w

-- The file after a frame at `off` was added to the transaction.
abbrev pub with_frame : Vfs.GatedFile → ℕ → Written → Vfs.GatedFile
with_frame f off w = record f {
  pending_header = none;
  tx_frames = f.tx_frames ++ off ∷ [];
  tracked = Vfs.track f.tracked off (some (frame_of w));
  max_offset = off;
  rewrite_header = none;
}

abbrev pub with_header : Vfs.GatedFile → ℕ → Written → Vfs.GatedFile
with_header f off w = record f {
  pending_header = some (Vfs.array_of w.head);
  max_offset = off;
  rewrite_header = none;
}

pub resolve_rewrite-unstaged :
    (f : Vfs.GatedFile) (o : ℕ) → f.rewrite_header ≡ none → Vfs.resolve_rewrite f o ≡ f
unfolding Vfs.resolve_rewrite
resolve_rewrite-unstaged f o e = ground arith

pub Below-mono : (a b : ℕ) (os : List ℕ) → a ≤ b → Below a os → Below b os
Below-mono a b [] le h = tt
Below-mono a b (o ∷ os) le h = (omega arith, Below-mono a b os le h.1)

pub Below-append : (a b : ℕ) (os : List ℕ) → a < b → Below a os → Below b (os ++ a ∷ [])
Below-append a b [] lt h = (lt, tt)
Below-append a b (o ∷ os) lt h = (omega arith, Below-append a b os lt h.1)

pub frames_at-track :
    (m : ℕ → Option Frame) (off : ℕ) (fr : Frame) (os : List ℕ)
    → Below off os
    → Vfs.frames_at (Vfs.track m off (some fr)) (os ++ off ∷ []) ≡ Vfs.frames_at m os ++ fr ∷ []
unfolding Vfs.frames_at
frames_at-track m off fr [] h = ground arith
frames_at-track m off fr (o ∷ os) (lt, h) =
    let e : (o == off) ≡ false = ground arith in ground (arith, e, frames_at-track m off fr os h)

pub with_frame-Ready :
    (page off : ℕ) (f : Vfs.GatedFile) (w : Written)
    → Ready page off f
    → Ready page (off + frame_header_size + page) (with_frame f off w)
with_frame-Ready page off f w r = record {
  sized = r.sized;
  open_tx = r.open_tx;
  unstaged = refl;
  ahead = omega arith;
  below = Below-append off _ f.tx_frames (omega arith) r.below;
  unseen = λ q le. let e : (q == off) ≡ false = ground arith in rw e (r.unseen q (omega arith));
}

pub forgotten-Ready :
    (page off : ℕ) (f : Vfs.GatedFile)
    → is_frame_header_offset page off ≡ true
    → f.page ≡ page
    → Ready page off (forgotten off f)
unfolding is_frame_header_offset
forgotten-Ready page off f at sized = record {
  sized = sized;
  open_tx = refl;
  unstaged = refl;
  ahead = ground arith;
  below = tt;
  unseen = λ q le. refl;
}

pub data_after_header :
    (page off : ℕ)
    → is_frame_header_offset page off ≡ true
    → is_frame_data_offset page (off + frame_header_size) ≡ true
unfolding is_frame_header_offset is_frame_data_offset
data_after_header page off h =
    let e : off + frame_header_size - 32 - frame_header_size ≡ off - 32 = omega arith in
    ground (arith, e)

pub next_header :
    (page off : ℕ)
    → is_frame_header_offset page off ≡ true
    → is_frame_header_offset page (off + frame_header_size + page) ≡ true
next_header page off h =
    let (i, e) = (header_offset_iff page off).0 h in
    (header_offset_iff page _).1 (suc i, grind arith)

pub not_header :
    (page off : ℕ)
    → 0 < page
    → is_frame_data_offset page off ≡ true
    → is_frame_header_offset page off ≡ false
not_header page off pos d = elim (Bool-cases (is_frame_header_offset page off)) [
  | inl h ↦ absurd (offsets_apart page off pos h d)
  | inr n ↦ n
]
