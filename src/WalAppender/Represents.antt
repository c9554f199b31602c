-- ===== src/WalAppender/Represents.antt =====
-- internal/fsm/walappender/walappender.go: the log of frames that the store stands for.
use literaft.Base.{ℕ, ◌+◌, ◌<◌, ◌≡◌, ap, ◌∙◌, Option, some, List, [], ◌∷◌, length, inr, arith}
use literaft.Base.Bytes.{Bytes, u32_mod}
use literaft.Errors.{Error}
use literaft.Proto.RoundTrip.{All, IsCaptured, FitsFrame, Redo, redo}
use literaft.Wal.Frame.{Frame, n_truncate}
use literaft.Shm.Header as IndexHeader
use literaft.Shm.Memory.{read_header}
use literaft.WalAppender.Append.{Store}
use literaft.WalAppender.Indexed.{IsIndex}
use literaft.WalAppender.Stored.{Stored}
use literaft.WalAppender.Ready.{pages, Extends, NumberFits}

-- The size of the database, in pages, that a log ends with; 0 for an empty log.
abbrev pub size_after : List Frame → ℕ
size_after [] = 0
size_after (f ∷ fs) = n_truncate f.header

-- The -wal file and the wal-index of a log, whose newest frame stands first: the header in the
-- wal-index counts its frames and names the size of the database, every frame stands at its place in
-- the file, and the wal-index finds each of them by its page number.
pub record Represents (map_fault : ℕ → Option Error) (page : ℕ) (s : Store) (log : List Frame)
    : Type 0 where
  pub hdr : Bytes
  pub published : read_header map_fault s.shm ≡ (inr (some hdr), s.shm)
  pub counted : IndexHeader.max_frame hdr ≡ length log
  pub sized : IndexHeader.page_count hdr ≡ size_after log
  pub stored : Stored page s.wal log
  pub indexed : IsIndex s.shm.content (pages log)

same_truncate : (f g : Frame) → redo g ≡ redo f → n_truncate g.header ≡ n_truncate f.header
same_truncate f g e = ap (λ (r : Redo). r.truncate) e

pub Extends-size :
    (fs log log' : List Frame)
    → IsCaptured fs
    → All FitsFrame fs
    → Extends fs log log'
    → size_after log' < u32_mod
Extends-size [] log log' captured fits ext = absurd captured
Extends-size (f ∷ []) log log' captured ((a, b), rest) (g, same, e) =
    rw e (omega (arith, same_truncate f g same))
Extends-size (f ∷ f2 ∷ fs) log log' (zero_size, captured) (fit, rest) (g, same, ext) =
    Extends-size (f2 ∷ fs) (g ∷ log) log' captured rest ext

pub Extends-length :
    (fs log log' : List Frame) → Extends fs log log' → length log' ≡ length log + length fs
Extends-length [] log log' e = ap length e ∙ omega arith
Extends-length (f ∷ fs) log log' (g, same, ext) =
    omega (arith, Extends-length fs (g ∷ log) log' ext)

pub numbers-fit : (fs : List Frame) → All FitsFrame fs → All NumberFits fs
numbers-fit [] h = tt
numbers-fit (f ∷ fs) ((a, b), rest) = (a, numbers-fit fs rest)
