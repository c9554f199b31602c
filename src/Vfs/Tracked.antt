-- ===== src/Vfs/Tracked.antt =====
-- The tracked frames of internal/vfs/gatedwalfile.go, and the transaction that they make.
use literaft.Base.{
  ℕ, ◌<◌, ◌≡◌, refl, sym, subst, inl, inr, true, false, Option, none, some, List, [], ◌∷◌, ◌++◌,
  ◌==◌, arith, Bool-cases, Option-cases,
}
use literaft.Base.Bytes.{Bytes}
use literaft.Wal.Frame.{Frame, pg_no, n_truncate, is_commit}
use literaft.Proto.RoundTrip.{IsCaptured}
use literaft.Vfs
use literaft.Vfs.Trace.{HasPage, Covered, In, Open, Safe}

-- What a new page image, or a new header for the same page, makes of the tracked frames.
pub tracked_page :
    (m : ℕ → Option Frame) (off o : ℕ) (old new fr : Frame)
    → m off ≡ some old
    → pg_no new.header ≡ pg_no old.header
    → Vfs.track m off (some new) o ≡ some fr
    → (o' : ℕ) × (fr' : Frame) × (m o' ≡ some fr') × (pg_no fr'.header ≡ pg_no fr.header)
tracked_page m off o old new fr e same h = elim (Bool-cases (o == off)) [
  | inl here ↦ (off, old, e, ground arith)
  | inr there ↦ (o, fr, ground arith, refl)
]

-- Rewriting an image under a tracked header leaves the transaction unfinished.
pub Open-track :
    (m : ℕ → Option Frame) (off : ℕ) (old new : Frame) (os : List ℕ)
    → m off ≡ some old
    → is_commit new.header ≡ is_commit old.header
    → Open m os
    → Open (Vfs.track m off (some new)) os
Open-track m off old new [] e same h = tt
Open-track m off old new (o ∷ os) e same ((f, g, n), rest) = elim (Bool-cases (o == off)) [
  | inl here ↦ ((new, rw here refl, ground arith), Open-track m off old new os e same rest)
  | inr there ↦ ((f, rw there g, n), Open-track m off old new os e same rest)
]

pub In-append : (o : ℕ) (xs ys : List ℕ) → In o xs → In o (xs ++ ys)
In-append o [] ys h = absurd h
In-append o (x ∷ xs) ys (inl e) = inl e
In-append o (x ∷ xs) ys (inr h) = inr (In-append o xs ys h)

pub In-last : (o : ℕ) (xs : List ℕ) → In o (xs ++ o ∷ [])
In-last o [] = inl refl
In-last o (x ∷ xs) = inr (In-last o xs)

pub Open-extend :
    (m : ℕ → Option Frame) (off : ℕ) (v : Option Frame) (os : List ℕ)
    → m off ≡ none
    → Open m os
    → Open (Vfs.track m off v) os
Open-extend m off v [] e h = tt
Open-extend m off v (o ∷ os) e ((f, g, n), rest) = elim (Bool-cases (o == off)) [
  | inl here ↦ absurd (ground arith)
  | inr there ↦ ((f, rw there g, n), Open-extend m off v os e rest)
]

pub Open-append :
    (m : ℕ → Option Frame) (os : List ℕ) (o : ℕ) (f : Frame)
    → m o ≡ some f
    → is_commit f.header ≡ false
    → Open m os
    → Open m (os ++ o ∷ [])
Open-append m [] o f e n h = ((f, e, n), tt)
Open-append m (q ∷ os) o f e n (h, rest) = (h, Open-append m os o f e n rest)

pub IsCaptured-cons :
    (f : Frame) (fs : List Frame) → n_truncate f.header ≡ 0 → IsCaptured fs → IsCaptured (f ∷ fs)
IsCaptured-cons f [] e h = absurd h
IsCaptured-cons f (g ∷ fs) e h = (e, h)

pub n_truncate-plain : (h : Bytes) → is_commit h ≡ false → n_truncate h ≡ 0
unfolding is_commit
n_truncate-plain h e = ground arith

pub n_truncate-commit : (h : Bytes) → is_commit h ≡ true → 0 < n_truncate h
unfolding is_commit
n_truncate-commit h e = ground arith

pub frames_at-IsCaptured :
    (m : ℕ → Option Frame) (os : List ℕ) (o : ℕ) (f : Frame)
    → m o ≡ some f
    → is_commit f.header ≡ true
    → Open m os
    → IsCaptured (Vfs.frames_at m (os ++ o ∷ []))
unfolding Vfs.frames_at
frames_at-IsCaptured m [] o f e c h = rw e (n_truncate-commit f.header c)
frames_at-IsCaptured m (q ∷ os) o f e c ((g, k, n), rest) =
    rw k
      (IsCaptured-cons g _ (n_truncate-plain g.header n) (frames_at-IsCaptured m os o f e c rest))

pub frames_at-some :
    (m : ℕ → Option Frame) (o : ℕ) (os : List ℕ) (f : Frame)
    → m o ≡ some f
    → Vfs.frames_at m (o ∷ os) ≡ f ∷ Vfs.frames_at m os
unfolding Vfs.frames_at
frames_at-some m o os f e = rw (e, Vfs.frames_at)

pub frames_at-none :
    (m : ℕ → Option Frame) (o : ℕ) (os : List ℕ)
    → m o ≡ none
    → Vfs.frames_at m (o ∷ os) ≡ Vfs.frames_at m os
unfolding Vfs.frames_at
frames_at-none m o os e = rw (e, Vfs.frames_at)

pub HasPage-In :
    (m : ℕ → Option Frame) (os : List ℕ) (o : ℕ) (f : Frame)
    → m o ≡ some f
    → In o os
    → HasPage (pg_no f.header) (Vfs.frames_at m os)
HasPage-In m [] o f e h = absurd h
HasPage-In m (q ∷ os) o f e (inl same) = rw (frames_at-some m q os f (rw same e)) (inl refl)
HasPage-In m (q ∷ os) o f e (inr h) = elim (Option-cases (m q)) [
  | inl k ↦ rw (frames_at-none m q os k) (HasPage-In m os o f e h)
  | inr (g, k) ↦ rw (frames_at-some m q os g k) (inr (HasPage-In m os o f e h))
]

pub uncommitted_of_pending :
    (f : Vfs.GatedFile) (h : Bytes)
    → f.pending_header ≡ some h
    → (f.committed ≡ true → f.pending_header ≡ none)
    → f.committed ≡ false
uncommitted_of_pending f h pend settled = elim (Bool-cases f.committed) [
  | inl c ↦ absurd (cc (settled c))
  | inr n ↦ n
]

pub listed_after :
    (f : Vfs.GatedFile) (ho : ℕ) (frame : Frame) (o : ℕ) (fr : Frame)
    → ((o : ℕ) (fr : Frame) → f.committed ≡ false → f.tracked o ≡ some fr → In o f.tx_frames)
    → f.committed ≡ false
    → Vfs.track f.tracked ho (some frame) o ≡ some fr
    → In o (f.tx_frames ++ ho ∷ [])
listed_after f ho frame o fr listed c e = elim (Bool-cases (o == ho)) [
  | inl here ↦
      let same : ho ≡ o = ground arith in
      subst (λ q. In o (f.tx_frames ++ q ∷ [])) (sym same) (In-last o f.tx_frames)
  | inr there ↦ In-append o f.tx_frames (ho ∷ []) (listed o fr c (ground arith))
]

-- A new image under a tracked header.
pub image-Safe :
    {page : ℕ} {f : Vfs.GatedFile} {t : List Vfs.Event} (ho : ℕ) (fr : Frame) (p : List ℕ)
    → f.tracked ho ≡ some fr
    → Safe page f t
    → Safe page (record f { tracked = Vfs.track f.tracked ho (some (record fr { image = p })) }) t
image-Safe {f = f} {t = t} ho fr p e s = record {
  sized = s.sized;
  idle = s.idle;
  settled = s.settled;
  covered = λ o fr1 c h.
      let (o', fr', e', q) =
        tracked_page f.tracked ho o fr (record fr { image = p }) fr1 e refl h in
      subst (λ n. Covered n t) q (s.covered o' fr' c e');
  listed = λ o fr1 c h. elim (Bool-cases (o == ho)) [
    | inl here ↦
        let same : ho ≡ o = ground arith in
        s.listed o fr c (subst (λ q. f.tracked q ≡ some fr) same e)
    | inr there ↦ s.listed o fr1 c (ground arith)
  ];
  unfinished = Open-track f.tracked ho fr (record fr { image = p }) f.tx_frames e refl s.unfinished;
  justified = s.justified;
  captured = s.captured;
}
