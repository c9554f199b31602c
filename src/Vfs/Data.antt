-- ===== src/Vfs/Data.antt =====
-- The invariant through writeFrameData of internal/vfs/gatedwalfile.go.
use literaft.Base.{
  ℕ, ◌-◌, ◌<◌, ◌≡◌, refl, sym, subst, inl, inr, true, false, not, Option, none, some, List, [], ◌∷◌,
  ◌++◌, length, ◌==◌, arith, Bool-cases, Option-cases,
}
use literaft.Base.Bytes.{Bytes, bytes_of, get32}
use literaft.Errors.{Error}
use literaft.Wal.Frame.{Frame, frame_header_size, pg_no, n_truncate, is_commit}
use literaft.Wal.Offsets.{is_frame_header_offset, is_frame_data_offset, offsets_apart}
use literaft.Proto.RoundTrip.{IsCaptured}
use literaft.Vfs
use literaft.Vfs.Trace.{
  HasPage, Covered, is_commit_header, Justified, AllCaptured, In, Open, Safe, wrote-Safe,
  SafeResult, SafeResult-if,
}
use literaft.Vfs.Tracked.{
  Open-extend, Open-append, frames_at-IsCaptured, HasPage-In, listed_after, image-Safe,
  uncommitted_of_pending,
}
use literaft.Vfs.Headers.{resolve_rewrite-Safe}

pub data_write-plain :
    (page off : ℕ) (p : List ℕ)
    → 0 < page
    → is_frame_data_offset page off ≡ true
    → is_commit_header page off p ≡ false
data_write-plain page off p pos d = elim (Bool-cases (is_frame_header_offset page off)) [
  | inl h ↦ absurd (offsets_apart page off pos h d)
  | inr n ↦ rw n
]

-- The header that is flushed is the one that was captured.
pub array_of-bytes_of :
    (h : Bytes)
    → (pg_no (Vfs.array_of (bytes_of h 0 24)) ≡ pg_no h)
      × (is_commit (Vfs.array_of (bytes_of h 0 24)) ≡ is_commit h)
unfolding pg_no n_truncate is_commit bytes_of get32
array_of-bytes_of h = (refl, refl)

pub header_offset-flush :
    (page off : ℕ)
    → is_frame_data_offset page off ≡ true
    → is_frame_header_offset page (off - 24) ≡ true
unfolding is_frame_data_offset is_frame_header_offset
header_offset-flush page off d = ground arith

-- What the frame that completes a transaction adds to the tracked ones.
pub record Completed (page : ℕ) (f : Vfs.GatedFile) (frame : Frame) (ho : ℕ) (t : List Vfs.Event)
    : Type 0 where
  pub sized : f.page ≡ page
  pub uncommitted : f.committed ≡ false
  pub cleared : f.pending_header ≡ none
  pub os : List ℕ
  pub pointers : f.tx_frames ≡ os ++ ho ∷ []
  pub last : f.tracked ho ≡ some frame
  pub unfinished : Open f.tracked os
  pub listed : (o : ℕ) (fr : Frame) → f.tracked o ≡ some fr → In o f.tx_frames
  pub justified : Justified page t
  pub captured : AllCaptured t

pub rejected_state :
    {page : ℕ} {f : Vfs.GatedFile} {frame : Frame} {ho : ℕ} {t : List Vfs.Event} (v : Option Error)
    (fs : List Frame)
    → IsCaptured fs
    → Completed page f frame ho t
    → Safe page (Vfs.reset_current_tx (record f { tx_frames = [] })) (Vfs.proposed fs v ∷ t)
unfolding Vfs.reset_current_tx
rejected_state v fs whole c = record {
  sized = c.sized;
  idle = λ h. refl;
  settled = λ h. c.cleared;
  covered = λ o fr h k. absurd (cc);
  listed = λ o fr h k. absurd (cc);
  unfinished = tt;
  justified = c.justified;
  captured = (whole, c.captured);
}

pub committed_state :
    {page : ℕ} {f : Vfs.GatedFile} {frame : Frame} {ho : ℕ} {t t' : List Vfs.Event}
    → Completed page f frame ho t
    → ((o : ℕ) (fr : Frame) → f.tracked o ≡ some fr → Covered (pg_no fr.header) t')
    → Justified page t'
    → AllCaptured t'
    → Safe page (record f { tx_frames = []; committed = true }) t'
committed_state c cov j k = record {
  sized = c.sized;
  idle = λ h. refl;
  settled = λ h. c.cleared;
  covered = λ o fr h e. cov o fr e;
  listed = λ o fr h e. absurd (cc);
  unfinished = tt;
  justified = j;
  captured = k;
}

module _ (fault : List Vfs.Event → ℕ → List ℕ → Option Error)
    (verdict : List Vfs.Event → List Frame → Option Error) where
  pub flush_at-Safe :
      {page : ℕ} {f : Vfs.GatedFile} {t : List Vfs.Event} (frame : Frame) (off : ℕ)
      → 0 < page
      → is_frame_data_offset page off ≡ true
      → Covered (pg_no frame.header) t
      → Safe page f t
      → SafeResult page (Vfs.flush_at fault verdict f frame (off - frame_header_size) off t)
  unfolding Vfs.flush_at
  flush_at-Safe {page} {f} {t} frame off pos d cov s =
      let head = bytes_of frame.header 0 frame_header_size in
      let same = (array_of-bytes_of frame.header).0 in
      let s1 =
        wrote-Safe (off - frame_header_size) head (inr (subst (λ n. Covered n t) (sym same) cov))
          s in
      let s2 = wrote-Safe off frame.image (inl (data_write-plain page off frame.image pos d)) s1 in
      elim (Option-cases (fault t (off - frame_header_size) head)) [
        | inr (e, k) ↦ rw (k, Vfs.flush_at) s1
        | inl k ↦
            elim (Option-cases
              (fault (Vfs.wrote (off - frame_header_size) head ∷ t) off frame.image)) [
                | inr (e, k') ↦ rw (k, k', Vfs.flush_at) s2
                | inl k' ↦ rw (k, k', Vfs.flush_at) s2
              ]
      ]

  pub propose_commit-Safe :
      {page : ℕ} {f : Vfs.GatedFile} {t : List Vfs.Event} (frame : Frame) (off : ℕ)
      → 0 < page
      → is_frame_data_offset page off ≡ true
      → is_commit frame.header ≡ true
      → Completed page f frame (off - frame_header_size) t
      → SafeResult page (Vfs.propose_commit fault verdict f frame off t)
  unfolding Vfs.propose_commit Vfs.after_verdict
  propose_commit-Safe {page} {f} {t} frame off pos d commits c =
      let fs = Vfs.frames_at f.tracked f.tx_frames in
      let whole : IsCaptured fs =
        subst (λ os. IsCaptured (Vfs.frames_at f.tracked os)) (sym c.pointers)
          (frames_at-IsCaptured f.tracked c.os (off - frame_header_size) frame c.last commits
            c.unfinished) in
      let page_in : (o : ℕ) (fr : Frame) → f.tracked o ≡ some fr → HasPage (pg_no fr.header) fs =
        λ o fr e. HasPage-In f.tracked f.tx_frames o fr e (c.listed o fr e) in
      elim (Option-cases (verdict t fs)) [
        | inr (e, k) ↦ rw k (rejected_state (some e) fs whole c)
        | inl k ↦ rw k (
            flush_at-Safe frame off pos d (inl (page_in (off - frame_header_size) frame c.last))
              (committed_state c (λ o fr e. inl (page_in o fr e)) c.justified (whole, c.captured)))
      ]

  pub complete_frame-Safe :
      {page : ℕ} {f : Vfs.GatedFile} {t : List Vfs.Event} (h : Bytes) (p : List ℕ) (off : ℕ)
      → 0 < page
      → is_frame_data_offset page off ≡ true
      → f.pending_header ≡ some h
      → f.tracked (off - frame_header_size) ≡ none
      → Safe page f t
      → SafeResult page (Vfs.complete_frame fault verdict f h p off t)
  unfolding Vfs.complete_frame Vfs.pass_through
  complete_frame-Safe {page} {f} {t} h p off pos d pend new s =
      let ho = off - frame_header_size in
      let frame : Frame = record { header = h; image = p } in
      let opened : f.committed ≡ false = uncommitted_of_pending f h pend s.settled in
      let listed1 : (o : ℕ) (fr : Frame)
          → Vfs.track f.tracked ho (some frame) o ≡ some fr
          → In o (f.tx_frames ++ ho ∷ []) =
        λ o fr e. listed_after f ho frame o fr s.listed opened e in
      let open1 = Open-extend f.tracked ho (some frame) f.tx_frames new s.unfinished in
      let last1 : Vfs.track f.tracked ho (some frame) ho ≡ some frame = ground arith in
      SafeResult-if (not (is_commit h)) _ _
        (λ plain. wrote-Safe off p (inl (data_write-plain page off p pos d)) (record {
          sized = s.sized;
          idle = λ c. absurd (cc);
          settled = λ c. refl;
          covered = λ o fr c e. absurd (cc);
          listed = λ o fr c e. listed1 o fr e;
          unfinished =
              Open-append (Vfs.track f.tracked ho (some frame)) f.tx_frames ho frame last1
                (ground arith) open1;
          justified = s.justified;
          captured = s.captured;
        }))
        (λ commits. propose_commit-Safe frame off pos d (ground arith) (record {
          sized = s.sized;
          uncommitted = opened;
          cleared = refl;
          os = f.tx_frames;
          pointers = refl;
          last = last1;
          unfinished = open1;
          listed = listed1;
          justified = s.justified;
          captured = s.captured;
        }))

  write_resolved-Safe :
      {page : ℕ} {f : Vfs.GatedFile} {t : List Vfs.Event} (p : List ℕ) (off : ℕ)
      → 0 < page
      → is_frame_data_offset page off ≡ true
      → Safe page f t
      → SafeResult page (Vfs.write_resolved fault verdict f p off t)
  unfolding Vfs.write_resolved Vfs.pass_through
  write_resolved-Safe {page} {f} {t} p off pos d s =
      let ho = off - frame_header_size in
      elim (Option-cases (f.tracked ho)) [
        | inr (fr, e) ↦
            rw (e, Vfs.write_resolved)
              (wrote-Safe off p (inl (data_write-plain page off p pos d)) (image-Safe ho fr p e s))
        | inl e ↦ elim (Option-cases f.pending_header) [
          | inl n ↦ rw (e, n, Vfs.write_resolved) s
          | inr (h, n) ↦ rw (e, n, Vfs.write_resolved) (complete_frame-Safe h p off pos d n e s)
        ]
      ]

  pub write_frame_data-Safe :
      {page : ℕ} {f : Vfs.GatedFile} {t : List Vfs.Event} (p : List ℕ) (off : ℕ)
      → 0 < page
      → is_frame_data_offset page off ≡ true
      → Safe page f t
      → SafeResult page (Vfs.write_frame_data fault verdict f p off t)
  unfolding Vfs.write_frame_data
  write_frame_data-Safe {page} {f} {t} p off pos d s =
      SafeResult-if (not (length p == f.page)) _ _ (λ bad. s)
        (λ good. write_resolved-Safe p off pos d (resolve_rewrite-Safe (off - frame_header_size) s))
