-- ===== src/WalAppender/Outcome.antt =====
-- internal/fsm/walappender/walappender.go: how a pass of the loop over the frames ends, and publish.
use literaft.Base.{
  ℕ, ◌≡◌, refl, ap, true, false, Option, none, some, List, ◌∷◌, inl, inr, ◌⊎◌, Bool-cases,
}
use literaft.Base.Bytes.{Bytes}
use literaft.Errors.{Error}
use literaft.Wal.Frame.{Frame, is_commit}
use literaft.Shm.Memory.{write_header}
use literaft.WalAppender.Append.{Loop, is_failed, published_header, after_publish, publish}
use literaft.WalAppender.Published.{not_written, is_written, write_header-Written, publish-commit}
use literaft.WalAppender.Ready.{Ready}

module _ (write_fault : List (ℕ × List ℕ) → ℕ → Option Error) (map_fault : ℕ → Option Error)
    (page : ℕ) where
  -- A commit frame is published with the log that it ends.
  pub record Commits (hdr : Bytes) (log : List Frame) (u : Loop) : Type 0 where
    pub l : Loop
    pub last : Frame
    pub before : List Frame
    pub is_log : log ≡ last ∷ before
    pub ready : Ready page hdr l log
    pub written : write_header map_fault (published_header last l) l.store.shm ≡ (none, u.store.shm)
    pub same_wal : u.store.wal ≡ l.store.wal

  -- After a pass for frame `g`: a failure, or the loop stands behind the frame, or has published it.
  abbrev pub Outcome : Bytes → Frame → List Frame → Loop → Type 0
  Outcome hdr g log u =
      (is_failed u.ret_err ≡ true)
      ⊎ (((is_commit g.header ≡ false) × Ready page hdr u (g ∷ log))
          ⊎ ((is_commit g.header ≡ true) × Commits hdr (g ∷ log) u))

  abbrev pub Ends : Option Loop → (Loop → Type 0) → Type 0
  Ends r P = (u : Loop) × (r ≡ some u) × P u

  pub publish-Outcome :
      (hdr : Bytes) (g : Frame) (log : List Frame) (l : Loop)
      → Ready page hdr l (g ∷ log)
      → Outcome hdr g log (publish write_fault map_fault page g l)
  unfolding publish after_publish
  publish-Outcome hdr g log l v = elim (Bool-cases (is_commit g.header)) [
    | inr body ↦ inr (inl (body, rw (body, publish) v))
    | inl commits ↦
        elim (write_header-Written write_fault map_fault page (published_header g l) l.store.shm) [
          | not_written e k kept ↦
              let made = publish-commit write_fault map_fault page g l (some e) commits k in
              inl (ap (λ (u : Loop). is_failed u.ret_err) made)
          | is_written k ↦
              let made = publish-commit write_fault map_fault page g l none commits k in
              inr (
                inr (
                  commits,
                  rw made (record {
                    l = l;
                    last = g;
                    before = log;
                    is_log = refl;
                    ready = v;
                    written =
                        ap (λ e. (e, (write_header map_fault (published_header g l) l.store.shm).1))
                          k;
                    same_wal = refl;
                  }),
                ))
        ]
  ]
