-- ===== src/Gate/Forwarding.antt =====
-- internal/gate/gate.go: forwardToLeader's loop, and what ProposeTransaction promises its caller.
use Prim.Native.String.{String}
use literaft.Base.{ℕ, suc, ◌+◌, ◌≤◌, ◌≡◌, Option, none, some, List, [], ◌∷◌}
use literaft.Errors.{Error}
use literaft.Wal.Frame.{Frame}
use literaft.Proto.{LogEntry}
use literaft.Gate.Messages.{LeaderRequest, entry_of}
use literaft.Gate.Environment.{Event, read_state, applied, sent, awaited, World}
use literaft.Gate.{leader_ready, forward_to_leader}

-- Requests sent to a leader.
abbrev pub requests : List Event → ℕ
requests [] = 0
requests (sent leader req answer ∷ t) = suc (requests t)
requests (e ∷ t) = requests t

-- Proposals that raft committed, and markers that the apply loop consumed.
abbrev pub confirmations : List Event → ℕ
confirmations [] = 0
confirmations (applied entry none ∷ t) = suc (confirmations t)
confirmations (awaited id none ∷ t) = suc (confirmations t)
confirmations (e ∷ t) = confirmations t

-- The newest event is that the apply loop has consumed the marker of `id`; since `t`, nothing was
-- confirmed before it.
abbrev Seen : String → List Event → List Event → Type 0
Seen id t u = (v : List Event) × (u ≡ awaited id none ∷ v) × (confirmations v ≡ confirmations t)

-- The newest event confirms `entry`: raft has committed it, or the apply loop has consumed the marker
-- of its id. Since `t`, nothing was confirmed before it.
pub data Confirmed (entry : LogEntry) (t : List Event) : List Event → Type 0 where
  by_raft :
      (v : List Event)
      → confirmations v ≡ confirmations t
      → Confirmed entry t (applied entry none ∷ v)
  by_marker :
      (v : List Event)
      → confirmations v ≡ confirmations t
      → Confirmed entry t (awaited entry.id none ∷ v)

module _ (env : World) where
  -- How the loop ends when it starts at `attempt` with `fuel`.
  record Forwarded (fuel attempt : ℕ) (req : LeaderRequest) (leader : String) (t : List Event)
      : Type 0 where
    err : Option Error
    after : List Event
    returns : forward_to_leader env fuel attempt req leader t ≡ some (err, after)
    bounded : requests after + attempt ≤ 2 + requests t
    confirmed : err ≡ none → Seen (entry_of req.entry).id t after

  -- The trace behind the checks of proposeEntry.
  abbrev asked : List Event → List Event
  asked t = (leader_ready env (read_state (env.is_leader t) ∷ t)).1

  abbrev Ends : LogEntry → Option (Option Error × List Event) → List Event → Type 0
  Ends entry r t =
      (err : Option Error) × (u : List Event) × (r ≡ some (err, u))
      × (requests u ≤ 2 + requests t)
      × (err ≡ none → Confirmed entry t u)
