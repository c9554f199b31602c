-- ===== src/Gate.antt =====
-- internal/gate/gate.go: how a captured transaction is committed to the raft log, on the leader and,
-- by forwarding, on a follower.
pub mod Environment
pub mod Messages
pub mod Retry
pub mod Requests
pub mod Handler
pub mod Forwarding
pub mod Categories
pub mod Leadership
pub mod Drained
use Prim.Native.String.{String, ◌++◌ as str_append}
use text.Mathlib.Text.{◌==◌ as str_eq}
use literaft.Base.{
  ℕ, zero, suc, Bool, true, false, not, ◌&&◌, ◌==◌, Option, none, some, List, [], ◌∷◌,
  if◌then◌else◌, ◌⊎◌, inl, inr,
}
use literaft.Errors.{
  Error, not_leader, catching_up, not_applied, not_applied_by, ambiguous_error, plain, wrapped,
  message, as_not_leader, as_catching_up, as_not_applied,
}
use literaft.Wal.Frame.{Frame}
use literaft.Proto.{Page, Transaction, LogEntry, new_transaction}
use literaft.Gate.Messages.{
  Status, status_unspecified, status_ok, status_not_leader, status_stale_base, status_catching_up,
  status_busy, status_ambiguous, status_invalid, status_other, LeaderResponse, LeaderRequest,
  response, entry_of, decimal, stale_reason, busy_reason, unknown_status,
}
use literaft.Gate.Environment.{
  Event, read_state, read_leader, read_ready, read_applied, created, deleted, applied, sent,
  awaited, locked, released, World, RaftError, enqueue_timeout, raft_error, raft_cause,
}

-- What proposeEntry makes of future.Error().
unfoldable pub apply_error : Option RaftError → Option Error
apply_error none = none
apply_error (some enqueue_timeout) =
    some (not_applied_by "proposal not enqueued before timeout" (raft_cause enqueue_timeout))
apply_error (some (raft_error text)) = some (ambiguous_error (raft_cause (raft_error text)))

unfoldable pub await_result : Option Error → Option Error → Option Error
await_result none cause = none
await_result (some e) none = some (ambiguous_error e)
await_result (some e) (some cause) = some (ambiguous_error cause)

unfoldable pub forget_marker :
    String → Option (Option Error × List Event) → Option (Option Error × List Event)
forget_marker id none = none
forget_marker id (some (err, t)) = some (err, deleted id ∷ t)

-- How a pass of the loop of forwardToLeader ends: with the call's result, or with another leader.
pub data Next : Type 0 where
  stop : Option Error → List Event → Next
  again : String → List Event → Next

abbrev stop_with : Option Error × List Event → Next
stop_with (err, t) = stop err t

-- The leader to forward to, if the node's own proposal ended with a redirect to one.
unfoldable pub redirect_target : Bool → Option Error → Option String
redirect_target false err = none
redirect_target true none = none
redirect_target true (some err) = elim (as_not_leader err) [
  | none ↦ none
  | some leader ↦ if str_eq leader "" then none else some leader
]

-- The first pass and one more, since only the first can follow a redirect.
abbrev pub forward_fuel : ℕ
forward_fuel = 2

module _ (env : World) where
  -- leaderReady: the state is read again, and `ready` under its lock.
  unfoldable pub leader_ready : List Event → Bool × List Event
  leader_ready t =
      let t1 = read_state (env.is_leader t) ∷ t in
      if env.is_leader t
      then (env.gate_ready t1, read_ready (env.gate_ready t1) ∷ t1)
      else (false, t1)

  -- Ready; `transport` says whether the node has a leader transport.
  unfoldable pub ready : Bool → List Event → Bool × List Event
  unfolding leader_ready
  ready transport t =
      let t1 = read_state (env.is_leader t) ∷ t in
      if not (env.is_leader t) then (transport, t1) else leader_ready t1

  unfoldable pub apply_content : String ⊎ List ℕ → LogEntry → List Event → Option Error × List Event
  unfolding apply_error
  apply_content (inl text) entry t = (some (wrapped "failed to marshal entry" (plain text)), t)
  apply_content (inr content) entry t =
      let answer = env.raft_apply t content in (apply_error answer, applied entry answer ∷ t)

  unfoldable pub propose_entry : LogEntry → List Event → Option Error × List Event
  unfolding apply_content leader_ready
  propose_entry entry t =
      let t1 = read_state (env.is_leader t) ∷ t in
      if not (env.is_leader t)
      then (some (not_leader (env.leader t1)), read_leader (env.leader t1) ∷ t1)
      else let (is_ready, t2) = leader_ready t1 in
        if not is_ready then (some catching_up, t2) else apply_content (env.marshal entry) entry t2

  unfoldable pub await_fsm_applied : String → Option Error → List Event → Option Error × List Event
  await_fsm_applied id cause t =
      let answer = env.await_marker t id in (await_result answer cause, awaited id answer ∷ t)

  unfoldable pub on_status : ℕ → String → LeaderResponse → Status → List Event → Next
  unfolding await_fsm_applied
  on_status attempt id res status_ok t = stop_with (await_fsm_applied id none t)
  on_status attempt id res status_stale_base t =
      stop (some (not_applied (stale_reason res.last_applied_index))) t
  on_status attempt id res status_catching_up t = stop (some catching_up) t
  on_status attempt id res status_busy t = stop (some (not_applied (busy_reason res.detail))) t
  on_status attempt id res status_not_leader t =
      if attempt == 0 && not (str_eq res.leader_addr "")
      then again res.leader_addr t
      else stop (some (not_leader res.leader_addr)) t
  on_status attempt id res status_ambiguous t =
      stop_with (await_fsm_applied id (some (plain res.detail)) t)
  on_status attempt id res status_unspecified t =
      stop_with (await_fsm_applied id (some (unknown_status "STATUS_UNSPECIFIED")) t)
  on_status attempt id res status_invalid t =
      stop_with (await_fsm_applied id (some (unknown_status "STATUS_INVALID")) t)
  on_status attempt id res (status_other n) t =
      stop_with (await_fsm_applied id (some (unknown_status (decimal n))) t)

  unfoldable pub on_answer : ℕ → String → Error ⊎ LeaderResponse → List Event → Next
  unfolding on_status await_fsm_applied
  on_answer attempt id (inl err) t =
      if as_not_applied err
      then stop (some err) t
      else stop_with (await_fsm_applied id (some err) t)
  on_answer attempt id (inr res) t = on_status attempt id res res.status t

  -- One pass of the loop of forwardToLeader.
  unfoldable pub forward_once : ℕ → LeaderRequest → String → List Event → Next
  unfolding on_answer
  forward_once attempt req leader t =
      if str_eq leader ""
      then stop (some (not_leader "")) t
      else let answer = env.propose t leader req in
        on_answer attempt (entry_of req.entry).id answer (sent leader req answer ∷ t)

  -- The loop, on fuel; `none` means that the fuel is used up.
  unfoldable pub forward_to_leader :
      ℕ → ℕ → LeaderRequest → String → List Event → Option (Option Error × List Event)
  unfolding forward_once
  forward_to_leader zero attempt req leader t = none
  forward_to_leader (suc fuel) attempt req leader t = elim (forward_once attempt req leader t) [
    | stop err t' ↦ some (err, t')
    | again leader' t' ↦ forward_to_leader fuel (suc attempt) req leader' t'
  ]

  -- The rest of ProposeTransaction, once this node's own proposal has ended.
  unfoldable pub forward_entry :
      LogEntry → Option Error → Option String → List Event → Option (Option Error × List Event)
  unfolding forward_to_leader
  forward_entry entry err none t = some (err, t)
  forward_entry entry err (some leader) t =
      let la = env.last_applied t in
      forward_to_leader forward_fuel 0 (record { last_applied_index = la; entry = some entry })
        leader (read_applied la ∷ t)

  unfoldable pub propose_transaction :
      Bool → List Frame → List Event → Option (Option Error × List Event)
  unfolding propose_entry forward_entry forget_marker
  propose_transaction transport frames t =
      let id = env.new_id t in
      let entry : LogEntry = record { id = id; transaction = some (new_transaction frames) } in
      let (err, t1) = propose_entry entry (created id ∷ t) in
      forget_marker id (forward_entry entry err (redirect_target transport err) t1)
