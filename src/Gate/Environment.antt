-- ===== src/Gate/Environment.antt =====
-- What internal/gate/gate.go calls: raft, the state machine and the transport to the leader. Each
-- call is an event, and each answer may depend on everything that happened before, since other
-- goroutines and nodes run between two calls.
use Prim.Native.String.{String}
use literaft.Base.{ℕ, Bool, Option, List, ◌⊎◌}
use literaft.Errors.{Error, plain}
use literaft.Proto.{LogEntry}
use literaft.Gate.Messages.{LeaderRequest, LeaderResponse}

-- The error of raft.Apply's future: raft.ErrEnqueueTimeout, or any other by its text.
pub data RaftError : Type 0 where
  enqueue_timeout : RaftError
  raft_error : String → RaftError

abbrev pub raft_cause : RaftError → Error
raft_cause enqueue_timeout = plain "timed out enqueuing operation"
raft_cause (raft_error text) = plain text

pub data Event : Type 0 where
  read_state : Bool → Event
  read_leader : String → Event
  read_ready : Bool → Event
  read_applied : ℕ → Event
  created deleted released : String → Event
  applied : LogEntry → Option RaftError → Event
  sent : String → LeaderRequest → Error ⊎ LeaderResponse → Event
  awaited locked : String → Option Error → Event

-- is_leader is raft.State() == raft.Leader; gate_ready is the gate's own flag, which watchLeadership
-- and drain set; await_marker, acquire and last_applied are the state machine's
-- AwaitSkipMarkerConsumed, BeginHeldApply and LastAppliedIndex.
pub record World : Type 0 where
  pub new_id : List Event → String
  pub marshal : LogEntry → String ⊎ List ℕ
  pub is_leader : List Event → Bool
  pub leader : List Event → String
  pub gate_ready : List Event → Bool
  pub last_applied : List Event → ℕ
  pub raft_apply : List Event → List ℕ → Option RaftError
  pub await_marker : List Event → String → Option Error
  pub acquire : List Event → String → Option Error
  pub propose : List Event → String → LeaderRequest → Error ⊎ LeaderResponse
