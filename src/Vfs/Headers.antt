-- ===== src/Vfs/Headers.antt =====
-- The invariant through writeFrameHeader of internal/vfs/gatedwalfile.go.
use literaft.Base.{
  ℕ, ◌≡◌, refl, sym, subst, inl, inr, true, false, not, ◌&&◌, ◌||◌, Option, none, some, List,
  length, leb, ◌==◌, arith, Bool-cases, Option-cases,
}
use literaft.Base.Bytes.{Bytes}
use literaft.Errors.{Error}
use literaft.Wal.Frame.{Frame, frame_header_size, pg_no, is_commit}
use literaft.Vfs
use literaft.Vfs.Trace.{
  Covered, Safe, wrote-Safe, reset-Safe, pending-Safe, rewrite-Safe, SafeResult, SafeResult-if,
}
use literaft.Vfs.Tracked.{tracked_page}

pub pg_no_congr :
    (f : Frame) (h : Bytes) → (pg_no f.header == pg_no h) ≡ true → pg_no f.header ≡ pg_no h
pg_no_congr f h e = ground arith

pub begin_tx-Safe :
    {page : ℕ} {f : Vfs.GatedFile} {t : List Vfs.Event} (off : ℕ)
    → Safe page f t
    → Safe page (Vfs.begin_tx f off) t
unfolding Vfs.begin_tx
begin_tx-Safe {f = f} off s = elim (Bool-cases (f.committed || leb off f.max_offset)) [
  | inl new ↦ rw new (reset-Safe (rewrite-Safe none f.rewrite_offset s))
  | inr old ↦ rw old (rewrite-Safe none f.rewrite_offset s)
]

pub committed-begin_tx : (f : Vfs.GatedFile) (off : ℕ) → (Vfs.begin_tx f off).committed ≡ false
unfolding Vfs.begin_tx
committed-begin_tx f off = ground arith

module _ (fault : List Vfs.Event → ℕ → List ℕ → Option Error)
    (verdict : List Vfs.Event → List Frame → Option Error) where
  pub stage_rewrite-Safe :
      {page : ℕ} {f : Vfs.GatedFile} {t : List Vfs.Event} (p : List ℕ) (off : ℕ)
      → f.committed ≡ true
      → Vfs.is_rewrite (f.tracked off) (Vfs.array_of p) ≡ true
      → Safe page f t
      → SafeResult page (Vfs.stage_rewrite fault verdict f (Vfs.array_of p) p off t)
  unfolding Vfs.stage_rewrite
  stage_rewrite-Safe {f = f} {t = t} p off c r s = elim (Option-cases (f.tracked off)) [
    | inl e ↦ absurd (ground arith)
    | inr (old, e) ↦
        let same = pg_no_congr old (Vfs.array_of p) (ground arith) in
        let cov : Covered (pg_no (Vfs.array_of p)) t = rw (← same) (s.covered off old c e) in
        let new : Frame = record old { header = Vfs.array_of p } in
        record {
          sized = s.sized;
          idle = s.idle;
          settled = s.settled;
          covered = λ o fr c' h.
              let (o', fr', e', q) =
                tracked_page f.tracked off o old new fr e (sym same) (rw e at h) in
              subst (λ n. Covered n t) q (s.covered o' fr' c e');
          listed = λ o fr c' h. absurd (cc);
          unfinished = rw (s.idle c) tt;
          justified = (inr cov, s.justified);
          captured = s.captured;
        }
  ]

  pub begin_frame-Safe :
      {page : ℕ} {f : Vfs.GatedFile} {t : List Vfs.Event} (p : List ℕ) (off : ℕ)
      → Safe page f t
      → SafeResult page (Vfs.begin_frame fault verdict f (Vfs.array_of p) p off t)
  unfolding Vfs.begin_frame
  begin_frame-Safe {page} {f} {t} p off s =
      let s3 =
        pending-Safe (some (Vfs.array_of p)) off (committed-begin_tx f off) (begin_tx-Safe off s) in
      SafeResult-if (not (is_commit (Vfs.array_of p))) _ _
        (λ plain. wrote-Safe off p (inl (ground arith)) s3) (λ commits. s3)

  pub write_frame_header-Safe :
      {page : ℕ} {f : Vfs.GatedFile} {t : List Vfs.Event} (p : List ℕ) (off : ℕ)
      → Safe page f t
      → SafeResult page (Vfs.write_frame_header fault verdict f p off t)
  unfolding Vfs.write_frame_header
  write_frame_header-Safe {page} {f} {t} p off s =
      SafeResult-if (not (length p == frame_header_size)) _ _ (λ bad. s)
        (λ good.
          SafeResult-if (f.committed && Vfs.is_rewrite (f.tracked off) (Vfs.array_of p)) _ _
            (λ again. stage_rewrite-Safe p off (ground arith) (ground arith) s)
            (λ fresh. begin_frame-Safe p off s))

pub resolve_rewrite-Safe :
    {page : ℕ} {f : Vfs.GatedFile} {t : List Vfs.Event} (off : ℕ)
    → Safe page f t
    → Safe page (Vfs.resolve_rewrite f off) t
unfolding Vfs.resolve_rewrite
resolve_rewrite-Safe {f = f} off s = elim (Option-cases (Vfs.disproved f off)) [
  | inl e ↦ rw (e, Vfs.resolve_rewrite) s
  | inr (h, e) ↦
      rw (e, Vfs.resolve_rewrite)
        (pending-Safe (some h) off refl (reset-Safe (rewrite-Safe none f.rewrite_offset s)))
]
