-- ===== src/Vfs/Trace.antt =====
-- internal/vfs/gatedwalfile.go: what a run of the gated file leaves behind, and the invariant of the
-- file that goes with it.
use literaft.Base.{
  ℕ, ◌≡◌, refl, ◌⊎◌, inl, Bool, true, false, ◌&&◌, Option, none, some, List, [], ◌∷◌, if◌then◌else◌,
}
use literaft.Base.Bytes.{Bytes}
use literaft.Errors.{Error}
use literaft.Wal.Frame.{Frame, pg_no, is_commit}
use literaft.Wal.Offsets.{is_frame_header_offset}
use literaft.Proto.RoundTrip.{IsCaptured}
use literaft.Vfs

abbrev pub HasPage : ℕ → List Frame → Type 0
HasPage pg [] = ⊥
HasPage pg (f ∷ fs) = (pg_no f.header ≡ pg) ⊎ HasPage pg fs

-- An accepted proposal of the trace has the page.
abbrev pub Covered : ℕ → List Vfs.Event → Type 0
Covered pg [] = ⊥
Covered pg (Vfs.wrote off p ∷ t) = Covered pg t
Covered pg (Vfs.proposed fs none ∷ t) = HasPage pg fs ⊎ Covered pg t
Covered pg (Vfs.proposed fs (some e) ∷ t) = Covered pg t

abbrev pub is_commit_header : ℕ → ℕ → List ℕ → Bool
is_commit_header page off p = is_frame_header_offset page off && is_commit (Vfs.array_of p)

-- Every commit header that was written has its page in a proposal accepted before.
abbrev pub Justified : ℕ → List Vfs.Event → Type 0
Justified page [] = Unit
Justified page (Vfs.wrote off p ∷ t) =
    ((is_commit_header page off p ≡ false) ⊎ Covered (pg_no (Vfs.array_of p)) t) × Justified page t
Justified page (Vfs.proposed fs v ∷ t) = Justified page t

-- Every proposal is one whole transaction: its last frame commits, and no other.
abbrev pub AllCaptured : List Vfs.Event → Type 0
AllCaptured [] = Unit
AllCaptured (Vfs.wrote off p ∷ t) = AllCaptured t
AllCaptured (Vfs.proposed fs v ∷ t) = IsCaptured fs × AllCaptured t

abbrev pub In : ℕ → List ℕ → Type 0
In o [] = ⊥
In o (q ∷ qs) = (q ≡ o) ⊎ In o qs

-- The frames behind a transaction's pointers are tracked, and none of them commits.
abbrev pub Open : (ℕ → Option Frame) → List ℕ → Type 0
Open m [] = Unit
Open m (o ∷ os) = ((f : Frame) × (m o ≡ some f) × (is_commit f.header ≡ false)) × Open m os

pub record Safe (page : ℕ) (f : Vfs.GatedFile) (t : List Vfs.Event) : Type 0 where
  pub sized : f.page ≡ page
  pub idle : f.committed ≡ true → f.tx_frames ≡ []
  pub settled : f.committed ≡ true → f.pending_header ≡ none
  pub covered :
      (o : ℕ) (fr : Frame)
      → f.committed ≡ true
      → f.tracked o ≡ some fr
      → Covered (pg_no fr.header) t
  pub listed : (o : ℕ) (fr : Frame) → f.committed ≡ false → f.tracked o ≡ some fr → In o f.tx_frames
  pub unfinished : Open f.tracked f.tx_frames
  pub justified : Justified page t
  pub captured : AllCaptured t

pub Covered-accepted :
    (pg : ℕ) (fs : List Frame) (v : Option Error) (t : List Vfs.Event)
    → v ≡ none
    → HasPage pg fs
    → Covered pg (Vfs.proposed fs v ∷ t)
Covered-accepted pg fs v t e h = rw e (inl h)

-- A write that is no commit header adds nothing to justify.
pub wrote-Safe :
    {page : ℕ} {f : Vfs.GatedFile} {t : List Vfs.Event} (off : ℕ) (p : List ℕ)
    → (is_commit_header page off p ≡ false) ⊎ Covered (pg_no (Vfs.array_of p)) t
    → Safe page f t
    → Safe page f (Vfs.wrote off p ∷ t)
wrote-Safe off p j s = record {
  sized = s.sized;
  idle = s.idle;
  settled = s.settled;
  covered = s.covered;
  listed = s.listed;
  unfinished = s.unfinished;
  justified = (j, s.justified);
  captured = s.captured;
}

pub reset-Safe :
    {page : ℕ} {f : Vfs.GatedFile} {t : List Vfs.Event}
    → Safe page f t
    → Safe page (Vfs.reset_current_tx f) t
unfolding Vfs.reset_current_tx
reset-Safe s = record {
  sized = s.sized;
  idle = λ h. refl;
  settled = λ h. absurd (cc);
  covered = λ o fr c h. absurd (cc);
  listed = λ o fr c h. absurd (cc);
  unfinished = tt;
  justified = s.justified;
  captured = s.captured;
}

pub pending-Safe :
    {page : ℕ} {f : Vfs.GatedFile} {t : List Vfs.Event} (pending : Option Bytes) (offset : ℕ)
    → f.committed ≡ false
    → Safe page f t
    → Safe page (record f { pending_header = pending; max_offset = offset }) t
pending-Safe pending offset c s = record {
  sized = s.sized;
  idle = s.idle;
  settled = λ h. absurd (cc);
  covered = s.covered;
  listed = s.listed;
  unfinished = s.unfinished;
  justified = s.justified;
  captured = s.captured;
}

pub rewrite-Safe :
    {page : ℕ} {f : Vfs.GatedFile} {t : List Vfs.Event} (h : Option Bytes) (offset : ℕ)
    → Safe page f t
    → Safe page (record f { rewrite_header = h; rewrite_offset = offset }) t
rewrite-Safe h offset s = record {
  sized = s.sized;
  idle = s.idle;
  settled = s.settled;
  covered = s.covered;
  listed = s.listed;
  unfinished = s.unfinished;
  justified = s.justified;
  captured = s.captured;
}

abbrev pub SafeResult : ℕ → Vfs.Result → Type 0
SafeResult page r = Safe page r.file r.trace

pub SafeResult-if :
    {page : ℕ} (b : Bool) (r q : Vfs.Result)
    → (b ≡ true → SafeResult page r)
    → (b ≡ false → SafeResult page q)
    → SafeResult page (if b then r else q)
SafeResult-if true r q h k = h refl
SafeResult-if false r q h k = k refl
