-- ===== src/WalAppender/Ready.antt =====
-- internal/fsm/walappender/walappender.go: where the loop over the frames of a transaction stands.
use literaft.Base.{ℕ, suc, ◌<◌, ◌≡◌, refl, ap, true, false, List, [], ◌∷◌, length, arith}
use literaft.Base.Bytes.{Bytes, u32_mod}
use literaft.Proto.RoundTrip.{redo}
use literaft.Wal.Frame.{Frame, pg_no, n_truncate, is_commit}
use literaft.Wal.Offsets.{frame_offset}
use literaft.WalAppender.Append.{Loop, is_failed, seal_frame}
use literaft.WalAppender.Sealed.{seal_frame-n_truncate, seal_frame-pg_no, seal_frame-image}
use literaft.WalAppender.Indexed.{IsIndex}
use literaft.WalAppender.Stored.{Stored}

abbrev pub pages : List Frame → List ℕ
pages [] = []
pages (f ∷ fs) = pg_no f.header ∷ pages fs

pub length-pages : (log : List Frame) → length (pages log) ≡ length log
length-pages [] = refl
length-pages (f ∷ fs) = ap suc (length-pages fs)

-- The log with the frames of a transaction, which are sealed for it, in front; the newest first.
abbrev pub Extends : List Frame → List Frame → List Frame → Type 0
Extends [] log log' = log' ≡ log
Extends (f ∷ fs) log log' = (g : Frame) × (redo g ≡ redo f) × Extends fs (g ∷ log) log'

-- The loop stands behind a log that is stored and indexed.
pub record Ready (page : ℕ) (hdr : Bytes) (l : Loop) (log : List Frame) : Type 0 where
  pub working : is_failed l.ret_err ≡ false
  pub unpublished : l.hdr ≡ hdr
  pub numbered : l.current_frame_idx ≡ length log
  pub placed : l.current_offset ≡ frame_offset page (length log)
  pub stored : Stored page l.store.wal log
  pub indexed : IsIndex l.store.shm.content (pages log)

pub seal_frame-redo : (f : Frame) (l : Loop) → redo (seal_frame f l) ≡ redo f
seal_frame-redo f l = λ i. record {
  page_no = seal_frame-pg_no f l i;
  truncate = seal_frame-n_truncate f l i;
  image = seal_frame-image f l i;
}

abbrev pub NumberFits : Frame → Type 0
NumberFits f = pg_no f.header < u32_mod

pub commit_frame : (f : Frame) → 0 < n_truncate f.header → is_commit f.header ≡ true
unfolding is_commit
commit_frame f lt = ground arith
