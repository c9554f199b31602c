-- ===== src/Tests/Proposals.antt =====
-- internal/gate/gate.go on concrete nodes: a leader that takes what it is offered, one whose raft
-- times out, and a follower whose leader has a newer base.
use literaft.Base.{
  ◌≡◌, ◌≢◌, ◌↔◌, refl, true, false, Option, none, some, List, [], ◌∷◌, ◌⊎◌, inr, arith,
}
use literaft.Base.Bytes.{zeros}
use literaft.Errors.{
  Error, plain, not_applied, not_applied_by, retryable, ambiguous, classify, safe_to_retry,
  as_not_leader,
}
use literaft.Wal.Frame.{Frame}
use literaft.Proto.{LogEntry, Transaction, new_transaction}
use literaft.Gate.Messages.{
  LeaderRequest, LeaderResponse, status_stale_base, entry_of, stale_reason,
}
use literaft.Gate.Environment.{
  Event, World, enqueue_timeout, locked, read_state, created, deleted, read_leader, read_applied,
  sent,
}
use literaft.Gate.{
  propose_transaction, propose_entry, forward_entry, forget_marker, forward_to_leader, forward_once,
  on_answer, on_status, redirect_target, leader_ready, apply_content, apply_error, stop,
}
use literaft.Gate.Requests.{
  handle_request, handle_valid, handle_lock, handle_locked, handle_proposal, validate_request,
  validate_transaction, validate_pages, classify_apply_err,
}
use literaft.Gate.Retry.{unsettled, retry_safe}
use literaft.Gate.Handler.{
  IsWhole, unguarded, validate_request_iff, refusal_honest, proposed_on_base,
}
use literaft.Gate.Categories.{category_forwarded}

abbrev stale : LeaderResponse
stale = record { status = status_stale_base; leader_addr = ""; last_applied_index = 9; detail = "" }

abbrev pub leader_world : World
leader_world = record {
  new_id = λ t. "x";
  marshal = λ e. inr (1 ∷ []);
  is_leader = λ t. true;
  leader = λ t. "n1";
  gate_ready = λ t. true;
  last_applied = λ t. 4;
  raft_apply = λ t content. none;
  await_marker = λ t id. none;
  acquire = λ t id. none;
  propose = λ t leader req. inr stale;
}

abbrev busy_world : World
busy_world = record leader_world { raft_apply = λ t content. some enqueue_timeout }

abbrev follower_world : World
follower_world = record leader_world { is_leader = λ t. false }

abbrev some_frames : List Frame
some_frames = record { header = zeros; image = 5 ∷ [] } ∷ []

abbrev whole : Transaction
whole = record { pages = record { page_no = 1; image = 5 ∷ [] } ∷ []; truncate = 1 }

abbrev whole_entry : LogEntry
whole_entry = record { id = "x"; transaction = some whole }

abbrev whole_request : LeaderRequest
whole_request = record { last_applied_index = 4; entry = some whole_entry }

abbrev captured : LogEntry
captured = record { id = "x"; transaction = some (new_transaction some_frames) }

abbrev forwarded : LeaderRequest
forwarded = record { last_applied_index = 4; entry = some captured }

abbrev after_stale : List Event
after_stale =
    deleted "x"
    ∷ sent "n1" forwarded (inr stale)
    ∷ read_applied 4
    ∷ read_leader "n1"
    ∷ read_state false
    ∷ created "x"
    ∷ []

retry_safe_example : unsettled after_stale ≡ 0
unfolding propose_transaction propose_entry forward_entry forget_marker forward_to_leader
    forward_once on_answer on_status redirect_target safe_to_retry classify as_not_leader
retry_safe_example =
    retry_safe follower_world true some_frames [] after_stale (not_applied (stale_reason 9)) refl
      refl

refusal_honest_example :
    unsettled (handle_request leader_world (record whole_request { last_applied_index = 3 }) []).1
    ≡ 0
unfolding handle_request handle_valid handle_lock handle_locked validate_request
    validate_transaction validate_pages
refusal_honest_example =
    refusal_honest leader_world (record whole_request { last_applied_index = 3 }) [] refl

proposed_on_base_example :
    (validate_request whole_request ≡ none)
    × (leader_world.is_leader [] ≡ true)
    × (leader_world.acquire (read_state true ∷ []) "x" ≡ none)
    × (whole_request.last_applied_index
        ≡ leader_world.last_applied (locked "x" none ∷ read_state true ∷ []))
    × (unguarded (handle_request leader_world whole_request []).1 ≡ 0)
unfolding handle_request handle_valid handle_lock handle_locked validate_request
    validate_transaction validate_pages propose_entry leader_ready apply_content handle_proposal
proposed_on_base_example =
    proposed_on_base leader_world whole_request [] (λ e. absurd (omega arith))

validate_request_iff_example :
    (validate_request whole_request ≡ none)
    ↔ ((txn : Transaction) × ((entry_of whole_request.entry).transaction ≡ some txn) × IsWhole txn)
validate_request_iff_example = validate_request_iff whole_request

abbrev timed_out : Error
timed_out =
    not_applied_by "proposal not enqueued before timeout" (plain "timed out enqueuing operation")

category_forwarded_example :
    let res = classify_apply_err timed_out in
    (outcome : Option Error) × (s' : List Event) × (on_status follower_world 1 "x" res res.status []
      ≡ stop outcome s')
    × (retryable ≢ ambiguous → s' ≡ [])
    × (((retryable ≡ ambiguous) × (outcome ≡ none))
        ⊎ ((e : Error) × (outcome ≡ some e) × (classify e ≡ some retryable)))
unfolding propose_entry leader_ready apply_content apply_error classify
category_forwarded_example =
    category_forwarded busy_world follower_world whole_entry "x" [] []
      (propose_entry busy_world whole_entry []).1 timed_out retryable refl refl
