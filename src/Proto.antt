-- ===== src/Proto.antt =====
-- proto/proto.go and the messages of proto/logentry.proto: what a committed transaction looks like
-- in the raft log, and how frames become log entries and log entries frames.
pub mod RoundTrip
use Prim.Native.String.{String}
use literaft.Base.{
  ℕ, zero, suc, ◌+◌, ◌-◌, List, [], ◌∷◌, ◌++◌, Option, ltb, ◌==◌, if◌then◌else◌, length,
}
use literaft.Base.Bytes.{Bytes, zeros}
use literaft.Wal.Frame.{Frame, pg_no, n_truncate, set_pg_no, set_n_truncate}

-- LogEntry_Transaction_Page
pub record Page : Type 0 where
  pub page_no : ℕ
  pub image : List ℕ

-- LogEntry_Transaction
pub record Transaction : Type 0 where
  pub pages : List Page
  pub truncate : ℕ

-- LogEntry: a header with an id, and the payload if it is a transaction.
pub record LogEntry : Type 0 where
  pub id : String
  pub transaction : Option Transaction

-- The loop of NewLogEntryTransaction.
unfoldable pub add_pages : List Frame → Transaction → Transaction
add_pages [] tx = tx
add_pages (f ∷ fs) tx = add_pages fs (record {
  pages = tx.pages ++ record { page_no = pg_no f.header; image = f.image } ∷ [];
  truncate = if ltb 0 (n_truncate f.header) then n_truncate f.header else tx.truncate;
})

unfoldable pub new_transaction : List Frame → Transaction
unfolding add_pages
new_transaction frames = add_pages frames (record { pages = []; truncate = 0 })

-- The loop of Frames, at index `i` of `count` pages; `i == count - 1` marks the last.
unfoldable pub frames_from : ℕ → ℕ → ℕ → List Page → List Frame
frames_from count truncate i [] = []
frames_from count truncate i (p ∷ ps) =
    let header = set_pg_no zeros p.page_no in
    record {
      header = if i == count - 1 then set_n_truncate header truncate else header;
      image = p.image;
    }
    ∷ frames_from count truncate (i + 1) ps

unfoldable pub frames : Transaction → List Frame
unfolding frames_from
frames t = frames_from (length t.pages) t.truncate 0 t.pages
