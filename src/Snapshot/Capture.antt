-- ===== src/Snapshot/Capture.antt =====
-- internal/fsm/snapshotter/snapshotter.go and tempfilereader.go: Snapshot, and the reader that it returns;
-- fsm/fsm.go: Persist, and Restore around the snapshotter's.
use literaft.Base.{ℕ, Bool, true, false, Option, none, some, List, ◌++◌, ◌⊎◌, inl, inr}
use literaft.Base.Bytes.{bytes_of}
use literaft.Errors.{Error, wrapped}
use literaft.Snapshot.{new_snapshot_header, Restored, refused, sent, endless}

-- What SQLite and the system say to the calls of Snapshot; a backup gives the bytes of the database.
pub record Calls : Type 0 where
  pub open_db : Option Error
  pub create_temp : Option Error
  pub backup : Error ⊎ List ℕ
  pub seek : Option Error

-- The header in front of the backup.
abbrev pub snapshot_stream : ℕ → List ℕ → List ℕ
snapshot_stream index db = bytes_of (new_snapshot_header index) 0 16 ++ db

-- Snapshot: its stream or its error, and whether its temporary file is there.
unfoldable pub snapshot : Calls → ℕ → (Error ⊎ List ℕ) × Bool
snapshot calls index = elim calls.open_db [
  | some e ↦ (inl (wrapped "failed to open database" e), false)
  | none ↦ elim calls.create_temp [
    | some e ↦ (inl (wrapped "failed to create temp file" e), false)
    | none ↦ elim calls.backup [
      | inl e ↦ (inl (wrapped "failed to backup up database" e), false)
      | inr db ↦ elim calls.seek [
        | some e ↦ (inl (wrapped "failed to rewind snapshot temp file" e), false)
        | none ↦ (inr (snapshot_stream index db), true)
      ]
    ]
  ]
]

-- A raft.SnapshotSink: what was written to it, and its end.
pub data SinkEnd : Type 0 where
  writing cancelled closed : SinkEnd

pub record Sink : Type 0 where
  pub content : List ℕ
  pub ended : SinkEnd

-- Persist: `copied` is how much of the stream io.Copy wrote, and its error; the sink's Close may fail.
unfoldable pub persist : List ℕ × Option Error → Option Error → Sink → Option Error × Sink
persist (written, some e) close_err sink = (
  some (wrapped "failed to persist snapshot" e),
  record { content = sink.content ++ written; ended = cancelled },
)
persist (written, none) close_err sink =
    (close_err, record { content = sink.content ++ written; ended = closed })

-- The end of Restore: the errors of reading and of appending are joined, and the checkpoint is last.
abbrev pub joined : Option Error → Option Error → Option Error
joined none err = err
joined (some e) err = some e

abbrev checkpointed : ℕ → ℕ → Option Error → Option Error × ℕ
checkpointed index last none = (none, index)
checkpointed index last (some e) = (some (wrapped "failed to restore snapshot" e), last)

abbrev installed : ℕ → ℕ → Option Error → Option Error → Option Error × ℕ
installed index last (some e) checkpoint = (some (wrapped "failed to restore snapshot" e), last)
installed index last none checkpoint = checkpointed index last checkpoint

-- FSM.Restore: its error, and the last applied index behind it.
unfoldable pub restore_machine :
    Restored → Option Error → Option Error → ℕ → Option (Option Error × ℕ)
restore_machine (refused e) appended checkpoint last =
    some (some (wrapped "failed to restore snapshot" e), last)
restore_machine (sent index fs err) appended checkpoint last =
    some (installed index last (joined err appended) checkpoint)
restore_machine endless appended checkpoint last = none
