-- ===== src/Gate/Requests.antt =====
-- internal/gate/gate.go: validateRequest, classifyApplyErr and handleRequest, the leader's handler of a
-- forwarded write.
use Prim.Native.String.{◌++◌ as str_append}
use literaft.Base.{not, ◌==◌, Option, none, some, List, [], ◌∷◌, if◌then◌else◌}
use literaft.Errors.{Error, plain, message, as_not_leader, as_catching_up, as_not_applied}
use literaft.Proto.{Page, Transaction}
use literaft.Gate.Messages.{
  status_ok, status_not_leader, status_stale_base, status_catching_up, status_busy,
  status_ambiguous, status_invalid, LeaderResponse, LeaderRequest, response, entry_of,
}
use literaft.Gate.Environment.{
  Event, read_state, read_leader, read_applied, locked, released, World,
}
use literaft.Gate.{propose_entry}

unfoldable pub validate_pages : List Page → Option Error
validate_pages [] = none
validate_pages (p ∷ ps) =
    let rest = validate_pages ps in
    if p.page_no == 0
    then some (plain "forwarded transaction has a zero page number")
    else elim p.image [
      | [] ↦ some (plain "forwarded transaction has a page with no data")
      | b ∷ bs ↦ rest
    ]

unfoldable pub validate_transaction : Option Transaction → Option Error
validate_transaction none = some (plain "forwarded entry has no transaction payload")
validate_transaction (some txn) =
    if txn.truncate == 0
    then some (plain "forwarded transaction has nTruncate == 0 (not a whole committed txn)")
    else elim txn.pages [
      | [] ↦ some (plain "forwarded transaction has no pages")
      | p ∷ ps ↦ validate_pages (p ∷ ps)
    ]

unfoldable pub validate_request : LeaderRequest → Option Error
validate_request req = validate_transaction ((entry_of req.entry).transaction)

unfoldable pub classify_apply_err : Error → LeaderResponse
classify_apply_err err = elim (as_not_leader err) [
  | some leader ↦ record {
    status = status_not_leader;
    leader_addr = leader;
    last_applied_index = 0;
    detail = message err;
  }
  | none ↦
      if as_catching_up err
      then response status_catching_up (message err)
      else if as_not_applied err
      then response status_busy (message err)
      else response status_ambiguous (message err)
]

module _ (env : World) where
  unfoldable pub handle_proposal : Option Error → List Event → LeaderResponse × List Event
  unfolding classify_apply_err
  handle_proposal (some err) t = (classify_apply_err err, t)
  handle_proposal none t =
      let la = env.last_applied t in
      (
        record { status = status_ok; leader_addr = ""; last_applied_index = la; detail = "" },
        read_applied la ∷ t,
      )

  -- What the handler does under the write lock.
  unfoldable pub handle_locked : LeaderRequest → List Event → LeaderResponse × List Event
  unfolding propose_entry handle_proposal
  handle_locked req t =
      let la = env.last_applied t in
      let t1 = read_applied la ∷ t in
      if not (req.last_applied_index == la)
      then (
        record {
          status = status_stale_base;
          leader_addr = "";
          last_applied_index = la;
          detail = "";
        },
        t1,
      )
      else let (err, t2) = propose_entry env (entry_of req.entry) t1 in handle_proposal err t2

  unfoldable pub handle_lock :
      Option Error → LeaderRequest → List Event → LeaderResponse × List Event
  unfolding handle_locked
  handle_lock (some err) req t =
      (response status_busy (str_append "failed to acquire write lock: " (message err)), t)
  handle_lock none req t =
      let (res, t') = handle_locked req t in (res, released (entry_of req.entry).id ∷ t')

  unfoldable pub handle_valid : LeaderRequest → List Event → LeaderResponse × List Event
  unfolding handle_lock
  handle_valid req t =
      let id = (entry_of req.entry).id in
      let t1 = read_state (env.is_leader t) ∷ t in
      if not (env.is_leader t)
      then (
        record {
          status = status_not_leader;
          leader_addr = env.leader t1;
          last_applied_index = 0;
          detail = "";
        },
        read_leader (env.leader t1) ∷ t1,
      )
      else let got = env.acquire t1 id in handle_lock got req (locked id got ∷ t1)

  unfoldable pub handle_request : LeaderRequest → List Event → LeaderResponse × List Event
  unfolding validate_request handle_valid
  handle_request req t = elim (validate_request req) [
    | some err ↦ (response status_invalid (message err), t)
    | none ↦ handle_valid req t
  ]
