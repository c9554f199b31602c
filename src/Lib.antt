-- ===== src/Lib.antt =====
-- literaft: SQLite databases replicated by raft.
--
-- SQLite writes through a virtual file system whose -wal file (internal/vfs) withholds the commit
-- frame of a transaction until the gate (internal/gate) has had the transaction committed to the
-- raft log, as a log entry (proto). Every node's state machine (fsm) takes committed entries and
-- writes their frames to its own WAL (internal/fsm/walappender), unless the entry is its own
-- proposal, whose frames SQLite has written already: a skip marker says which.
--
-- Wal models internal/wal: Wal/Checksum is checksum.go, Wal/Frame and Wal/Offsets are frame.go, and
-- Wal/Header is header.go. Header arrays are functions from an index to a byte, 32-bit arithmetic is
-- written out modulo 2 ^ 32.
-- Errors models proto/errors/errors.go and the ErrCode of internal/vfs/gate.go. Error values are a
-- data type; an errors.As over a chain is a function by clauses.
-- Proto models proto/proto.go and the messages of proto/logentry.proto. The wire format is generated
-- code and stands outside.
-- Vfs models internal/vfs/gatedwalfile.go. A call of WriteAt takes the file's state to a reply, a
-- new state and a longer trace of writes and proposals; the file below and the gate are functions of
-- the trace, so they may answer in any way. Frames that the code shares through pointers are known
-- by their offsets. Vfs/Trace, Tracked, Headers, Data and Withhold carry the invariant through the
-- branches of WriteAt; Written, Capture, Reused, Flush and Transaction follow one transaction.
-- Fsm models fsm/fsm.go. Fsm/Interface is what it asks of the appender; Fsm/Interleavings has the
-- critical sections of the marker protocol as a step relation, one section a step, which the mutex
-- of the code justifies.
-- Gate models internal/gate/gate.go. What it calls of raft, of the state machine and of the
-- transport is a World, whose answers are functions of the events so far; Gate/Messages has the
-- messages of proto/leaderrequest.proto. forwardToLeader's loop runs on fuel for two passes, since
-- only the first of them can follow a redirect. Gate/Requests has the handler. Gate/Retry and
-- Gate/Handler say what each outcome means for the raft log, Gate/Categories how an error travels.
-- Gate/Leadership has watchLeadership and drain as a step relation beside raft's changes,
-- Gate/Drained its invariant.
-- Shm models internal/fsm/walappender/shm: Shm/Header, Checkpoint and Layout are walindex.go, and
-- Shm/Memory is shm.go. A region of the mapped file is an array of bytes; what the code does to it
-- under the write lock is one step. AddFrame's search for a free slot runs on as much fuel as there
-- are slots, of which a region has twice as many as frames; Shm/Table, Segment, Insert and Frames
-- follow what it adds. The byte-range locks are system calls and stand outside. That fuel is enough
-- for a table that holds no entries behind the log's last frame; a failed append leaves such
-- entries.
-- WalAppender models internal/fsm/walappender/walappender.go: WalAppender/Lock is the write lock in
-- front of WAL_WRITE_LOCK, as a step relation; WalAppender/Append is the loop over the frames, and
-- WalAppender/Rewind the rewind and the bootstrap. The -wal file is the list of writes to it, and
-- each write may fail. Published and Atomic follow what SQLite can see of an append. Refinement
-- relates the store to the log that it stands for (Represents): Stored is what the -wal file holds,
-- Indexed and Header what the wal-index does, Ready and Progress follow the loop over the frames,
-- Restart the rewind, and Bootstrap the start of an empty log.
-- Snapshot models internal/fsm/snapshotter, with Restore's loop over the pages on as much fuel as
-- there are bytes in the stream, of which each pass reads some.
-- Snapshot/Capture is Snapshot itself, with Persist and FSM.Restore; Snapshot/Install brings what
-- one node has captured into the log of another.
-- Node models fsm.New with fsm/options.go and fsm/dblock.go, and walappender.Open: Node/Handles is
-- what the process has open, Node/Appender and Node/Machine are the constructors and their Close.
-- RaftStore models raftsqlite/store.go. SQLite is a Database record, whose statements may fail, and
-- RaftStore/Laws is what the code relies on of them. A uint64 becomes SQLite's signed integer by
-- Base/Int. RaftStore/Contents is what a call does to the rows, RaftStore/LogMap the map from
-- indices to logs that Refinement holds the store to, RaftStore/Stable the key-value half.
-- Forward models cmd/literaft/forward/transport.go. gRPC and the generated code are a Network
-- record; Forward/Delivery has the laws that are asked of it. Forward/Delegation joins the transport
-- to the handler of Gate/Requests on the node at the other end.
-- Membership models cmd/literaft/membership: AddVoter and RemoveVoter at a node that leads or
-- forwards, Join and Leave. A context is the number of calls and of waits that it leaves: behind the
-- last of them it is done, as a deadline is, so that the recursion on them is the code's own end.
-- Dbdiff models cmd/dbdiff/main.go, less the texts of the lines that it prints.
-- Base has the shared names, byte arrays and maps; Tests runs the theorems on concrete inputs.
--
-- Loops over frames and bytes are structural recursion. Not modelled: the generated protocol code,
-- gRPC, SQLite and raft themselves, which are parameters; the database/sql driver, the registration
-- of the VFS, the terminal program and its commands, the other dump programs; raftsqlite.New, system
-- calls for locks and mappings, and logging.
pub mod Base
pub mod Wal
pub mod Errors
pub mod Proto
pub mod Vfs
pub mod Fsm
pub mod Gate
pub mod Membership
pub mod Dbdiff
pub mod Forward
pub mod Node
pub mod RaftStore
pub mod Shm
pub mod Snapshot
pub mod Tests
pub mod WalAppender
