-- ===== src/Vfs/Withhold.antt =====
-- The promise of internal/vfs/gate.go: a commit frame's header reaches the file below only behind an
-- accepted proposal, whatever SQLite writes and wherever.
use literaft.Base.{
  ℕ, ◌<◌, ◌≡◌, refl, sym, subst, inl, true, false, ◌&&◌, Option, List, [], ◌∷◌, length, ◌==◌,
  if◌then◌else◌, arith,
}
use literaft.Errors.{Error}
use literaft.Wal.Frame.{Frame}
use literaft.Wal.Header.{wal_header_size, page_size}
use literaft.Wal.Offsets.{is_frame_header_offset, is_frame_data_offset}
use literaft.Vfs
use literaft.Vfs.Trace.{
  is_commit_header, Justified, AllCaptured, Safe, wrote-Safe, SafeResult, SafeResult-if,
}
use literaft.Vfs.Headers.{write_frame_header-Safe}
use literaft.Vfs.Data.{write_frame_data-Safe}

pub start_plain :
    (page off : ℕ) (p : List ℕ) → (off == 0) ≡ true → is_commit_header page off p ≡ false
unfolding is_frame_header_offset
start_plain page off p e = ground arith

pub positive : (a b : ℕ) → a ≡ b → 0 < b → (a == 0) ≡ false
positive a b e h = ground arith

pub start_same :
    (f : Vfs.GatedFile) (p : List ℕ)
    → (f.page == 0) ≡ false
    → (if f.page == 0 && length p == wal_header_size
        then record f { page = page_size (Vfs.array_of p) }
        else f)
      ≡ f
start_same f p e = rw e

abbrev pub unless_panicked : Vfs.Reply → List Vfs.Event → List Vfs.Event → List Vfs.Event
unless_panicked (Vfs.done n) t rest = rest
unless_panicked (Vfs.failed e) t rest = rest
unless_panicked (Vfs.system_error c) t rest = rest
unless_panicked Vfs.panicked t rest = t

abbrev pub Kept : ℕ → List Vfs.Event → Type 0
Kept page t = Justified page t × AllCaptured t

Kept-unless :
    (page : ℕ) (t rest : List Vfs.Event) (r : Vfs.Reply)
    → Kept page t
    → Kept page rest
    → Kept page (unless_panicked r t rest)
Kept-unless page t rest (Vfs.done n) k h = h
Kept-unless page t rest (Vfs.failed e) k h = h
Kept-unless page t rest (Vfs.system_error c) k h = h
Kept-unless page t rest Vfs.panicked k h = k

module _ (fault : List Vfs.Event → ℕ → List ℕ → Option Error)
    (verdict : List Vfs.Event → List Frame → Option Error) where
  pub write_at-Safe :
      {page : ℕ} {f : Vfs.GatedFile} {t : List Vfs.Event} (p : List ℕ) (off : ℕ)
      → 0 < page
      → Safe page f t
      → SafeResult page (Vfs.write_at fault verdict f p off t)
  unfolding Vfs.write_at
  write_at-Safe {page} {f} {t} p off pos s =
      SafeResult-if (off == 0) _ _
        (λ start.
          let zero_off = start_plain page off p start in
          let same = start_same f p (positive f.page page s.sized pos) in
          subst (λ g. Safe page g (Vfs.wrote off p ∷ t)) (sym same)
            (wrote-Safe off p (inl zero_off) s))
        (λ inside.
          SafeResult-if (f.page == 0) _ _ (λ none. s)
            (λ known.
              SafeResult-if (is_frame_header_offset f.page off) _ _
                (λ head. write_frame_header-Safe fault verdict p off s)
                (λ other.
                  SafeResult-if (is_frame_data_offset f.page off) _ _
                    (λ body. write_frame_data-Safe fault verdict p off pos (rw (← s.sized) body) s)
                    (λ neither. s))))

  -- SQLite's calls of WriteAt, until one panics.
  pub serve : Vfs.GatedFile → List (List ℕ × ℕ) → List Vfs.Event → List Vfs.Event
  serve f [] t = t
  serve f ((p, off) ∷ ws) t =
      let r = Vfs.write_at fault verdict f p off t in
      let rest = serve r.file ws r.trace in unless_panicked r.reply r.trace rest

  serve-Safe :
      {page : ℕ} (f : Vfs.GatedFile) (t : List Vfs.Event) (ws : List (List ℕ × ℕ))
      → 0 < page
      → Safe page f t
      → Kept page (serve f ws t)
  unfolding serve
  serve-Safe f t [] pos s = (s.justified, s.captured)
  serve-Safe f t ((p, off) ∷ ws) pos s =
      let s1 = write_at-Safe p off pos s in
      let r = Vfs.write_at fault verdict f p off t in
      Kept-unless _ _ _ r.reply (s1.justified, s1.captured) (serve-Safe r.file r.trace ws pos s1)

  pub new_gated_file-Safe :
      (hb : List ℕ) → Safe (Vfs.new_gated_file hb).page (Vfs.new_gated_file hb) []
  unfolding Vfs.new_gated_file
  new_gated_file-Safe hb = record {
    sized = refl;
    idle = λ h. refl;
    settled = λ h. refl;
    covered = λ o fr c h. absurd (cc);
    listed = λ o fr c h. absurd (cc);
    unfinished = tt;
    justified = tt;
    captured = tt;
  }

  -- Whatever SQLite writes, in whatever order, to a -wal file whose page size is known when it is
  -- opened, and whatever the file below and the gate answer: a header with a commit mark is written
  -- only if a proposal accepted before has its page, and every proposal is one whole transaction.
  pub commit_withheld :
      (hb : List ℕ) (ws : List (List ℕ × ℕ))
      → 0 < (Vfs.new_gated_file hb).page
      → Kept (Vfs.new_gated_file hb).page (serve (Vfs.new_gated_file hb) ws [])
  commit_withheld hb ws pos = serve-Safe (Vfs.new_gated_file hb) [] ws pos (new_gated_file-Safe hb)
