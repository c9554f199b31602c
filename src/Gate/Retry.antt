-- ===== src/Gate/Retry.antt =====
-- internal/gate/gate.go and the promise of proto/errors: an error that is safe to retry means that
-- the write was not, and will not be, committed by this call.
use Prim.Native.String.{String}
use literaft.Base.{
  ℕ, zero, suc, ◌≡◌, refl, Bool, true, false, Option, none, some, List, [], ◌∷◌, if◌then◌else◌, ◌⊎◌,
  inl, inr, arith, Option-cases,
}
use literaft.Errors.{Error, safe_to_retry, classify, as_not_applied, as_not_leader}
use literaft.Wal.Frame.{Frame}
use literaft.Proto.{LogEntry, new_transaction}
use literaft.Gate.Messages.{
  Status, status_unspecified, status_ok, status_not_leader, status_stale_base, status_catching_up,
  status_busy, status_ambiguous, status_invalid, status_other, LeaderResponse, LeaderRequest,
  entry_of,
}
use literaft.Gate.Environment.{
  Event, read_applied, created, deleted, applied, sent, World, RaftError, enqueue_timeout,
  raft_error,
}
use literaft.Gate.{
  Next, stop, again, apply_error, apply_content, leader_ready, propose_entry, await_result,
  await_fsm_applied, on_status, on_answer, forward_once, forward_to_leader, forward_entry,
  forget_marker, propose_transaction, redirect_target, forward_fuel,
}

-- A status by which the leader says that it did not propose the write.
abbrev pub refuses : Status → Bool
refuses status_unspecified = false
refuses status_ok = false
refuses status_not_leader = true
refuses status_stale_base = true
refuses status_catching_up = true
refuses status_busy = true
refuses status_ambiguous = false
refuses status_invalid = true
refuses (status_other n) = false

-- Whether an answer of the transport proves that the leader did not propose the write.
abbrev pub settled : Error ⊎ LeaderResponse → Bool
settled (inl err) = as_not_applied err
settled (inr res) = refuses res.status

abbrev pub may_log : Option RaftError → Bool
may_log none = true
may_log (some enqueue_timeout) = false
may_log (some (raft_error text)) = true

-- How many events of the trace may have brought an entry into the raft log.
abbrev pub unsettled : List Event → ℕ
unsettled [] = 0
unsettled (applied entry answer ∷ t) =
    let rest = unsettled t in if may_log answer then suc rest else rest
unsettled (sent leader req answer ∷ t) =
    let rest = unsettled t in if settled answer then rest else suc rest
unsettled (e ∷ t) = unsettled t

pub Next-cases :
    (n : Next)
    → ((err : Option Error) × (u : List Event) × (n ≡ stop err u))
      ⊎ ((leader : String) × (u : List Event) × (n ≡ again leader u))
Next-cases (stop err u) = inl (err, u, refl)
Next-cases (again leader u) = inr (leader, u, refl)

module _ (env : World) where
  pub propose_entry-settled :
      (entry : LogEntry) (t : List Event) (err : Error) {u : List Event}
      → propose_entry env entry t ≡ (some err, u)
      → safe_to_retry err ≡ true
      → unsettled u ≡ unsettled t
  unfolding propose_entry leader_ready apply_content apply_error safe_to_retry classify
  propose_entry-settled entry t err h s = ground arith

  on_status-settled :
      (attempt : ℕ) (id : String) (res : LeaderResponse) (code : Status) (t u : List Event)
      (err : Error)
      → on_status env attempt id res code t ≡ stop (some err) u
      → safe_to_retry err ≡ true
      → (refuses code ≡ true) × (unsettled u ≡ unsettled t)
  unfolding on_status await_fsm_applied await_result safe_to_retry classify
  on_status-settled attempt id res code t u err h s = ground arith

  on_status-again :
      (attempt : ℕ) (id : String) (res : LeaderResponse) (code : Status) (t u : List Event)
      (leader : String)
      → on_status env attempt id res code t ≡ again leader u
      → (refuses code ≡ true) × (u ≡ t) × (attempt ≡ 0)
  unfolding on_status await_fsm_applied
  on_status-again attempt id res code t u leader h = ground arith

  on_answer-settled :
      (attempt : ℕ) (id : String) (answer : Error ⊎ LeaderResponse) (t u : List Event) (err : Error)
      → on_answer env attempt id answer t ≡ stop (some err) u
      → safe_to_retry err ≡ true
      → (settled answer ≡ true) × (unsettled u ≡ unsettled t)
  unfolding on_answer await_fsm_applied await_result safe_to_retry classify
  on_answer-settled attempt id (inl e) t u err h s = ground arith
  on_answer-settled attempt id (inr res) t u err h s =
      on_status-settled attempt id res res.status t u err h s

  pub on_answer-again :
      (attempt : ℕ) (id : String) (answer : Error ⊎ LeaderResponse) (t u : List Event)
      (leader : String)
      → on_answer env attempt id answer t ≡ again leader u
      → (settled answer ≡ true) × (u ≡ t) × (attempt ≡ 0)
  unfolding on_answer await_fsm_applied
  on_answer-again attempt id (inl e) t u leader h = ground arith
  on_answer-again attempt id (inr res) t u leader h =
      on_status-again attempt id res res.status t u leader h

  forward_once-settled :
      (attempt : ℕ) (req : LeaderRequest) (leader : String) (t u : List Event) (err : Error)
      → forward_once env attempt req leader t ≡ stop (some err) u
      → safe_to_retry err ≡ true
      → unsettled u ≡ unsettled t
  unfolding forward_once
  forward_once-settled attempt req leader t u err h s =
      let answer = env.propose t leader req in
      ground (
        arith,
        on_answer-settled attempt (entry_of req.entry).id answer (sent leader req answer ∷ t) u err,
      )

  forward_once-again :
      (attempt : ℕ) (req : LeaderRequest) (leader next : String) (t u : List Event)
      → forward_once env attempt req leader t ≡ again next u
      → (unsettled u ≡ unsettled t) × (attempt ≡ 0)
  unfolding forward_once
  forward_once-again attempt req leader next t u h =
      let answer = env.propose t leader req in
      ground (
        arith,
        on_answer-again attempt (entry_of req.entry).id answer (sent leader req answer ∷ t) u next,
      )

  forward_to_leader-settled :
      (fuel attempt : ℕ) (req : LeaderRequest) (leader : String) (t u : List Event) (err : Error)
      → forward_to_leader env fuel attempt req leader t ≡ some (some err, u)
      → safe_to_retry err ≡ true
      → unsettled u ≡ unsettled t
  unfolding forward_to_leader
  forward_to_leader-settled zero attempt req leader t u err h s = absurd (cc)
  forward_to_leader-settled (suc fuel) attempt req leader t u err h s =
      elim (Next-cases (forward_once env attempt req leader t)) [
        | inl (e, v, p) ↦ ground (arith, forward_once-settled attempt req leader t v err)
        | inr (next, v, p) ↦
            let rest = forward_to_leader-settled fuel (suc attempt) req next v u err in
            ground (arith, rest, forward_once-again attempt req leader next t v)
      ]

  propose_entry-redirect :
      (entry : LogEntry) (t u : List Event) (err : Error) (leader : String)
      → propose_entry env entry t ≡ (some err, u)
      → as_not_leader err ≡ some leader
      → unsettled u ≡ unsettled t
  unfolding propose_entry leader_ready apply_content apply_error as_not_leader
  propose_entry-redirect entry t u err leader h s = ground arith

  pub redirect_target_lem :
      (transport : Bool) (outcome : Option Error) (leader : String)
      → redirect_target transport outcome ≡ some leader
      → (err : Error) × (outcome ≡ some err) × (as_not_leader err ≡ some leader)
  unfolding redirect_target
  redirect_target_lem false outcome leader h = absurd (cc)
  redirect_target_lem true none leader h = absurd (cc)
  redirect_target_lem true (some err) leader h = (err, refl, ground arith)

  forget_marker-inverse :
      (id : String) (r : Option (Option Error × List Event)) (err : Error) (u : List Event)
      → forget_marker id r ≡ some (some err, u)
      → (v : List Event) × (r ≡ some (some err, v)) × (u ≡ deleted id ∷ v)
  unfolding forget_marker
  forget_marker-inverse id none err u h = absurd (cc)
  forget_marker-inverse id (some (e, v)) err u h = (v, ground arith, ground arith)

  -- The own proposal's outcome and trace, and then what forwarding adds.
  forward_entry-settled :
      (transport : Bool) (entry : LogEntry) (outcome : Option Error) (t t' u : List Event)
      (err : Error)
      → propose_entry env entry t ≡ (outcome, t')
      → forward_entry env entry outcome (redirect_target transport outcome) t' ≡ some (some err, u)
      → safe_to_retry err ≡ true
      → unsettled u ≡ unsettled t
  unfolding forward_entry
  forward_entry-settled transport entry outcome t t' u err p h s =
      elim (Option-cases (redirect_target transport outcome)) [
        | inl n ↦ propose_entry-settled entry t err {u = u} (ground arith) s
        | inr (leader, n) ↦
            let (e, same, r) = redirect_target_lem transport outcome leader n in
            let own = propose_entry-redirect entry t t' e leader (ground arith) r in
            ground (
              arith,
              forward_to_leader-settled forward_fuel 0
                  (record { last_applied_index = env.last_applied t'; entry = some entry }) leader
                  (read_applied (env.last_applied t') ∷ t') u err,
              own,
            )
      ]

  -- A call of ProposeTransaction that fails with an error that is safe to retry has left nothing
  -- that can put its entry into the raft log: raft took no proposal, and every leader that was
  -- asked said that it did not propose, or the transport that it was not reached.
  pub retry_safe :
      (transport : Bool) (frames : List Frame) (t u : List Event) (err : Error)
      → propose_transaction env transport frames t ≡ some (some err, u)
      → safe_to_retry err ≡ true
      → unsettled u ≡ unsettled t
  unfolding propose_transaction
  retry_safe transport frames t u err h s =
      let id = env.new_id t in
      let entry : LogEntry = record { id = id; transaction = some (new_transaction frames) } in
      let r = propose_entry env entry (created id ∷ t) in
      let (v, f, same) =
        forget_marker-inverse id (forward_entry env entry r.0 (redirect_target transport r.0) r.1)
          err u h in
      let own = forward_entry-settled transport entry r.0 (created id ∷ t) r.1 v err refl f s in
      ground (arith, own, same)
