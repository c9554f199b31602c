-- ===== src/Gate/Handler.antt =====
-- internal/gate/gate.go: the leader's handler of a forwarded write.
use literaft.Base.{
  ℕ, ◌+◌, suc, ◌≡◌, ◌≢◌, refl, Bool, true, false, if◌then◌else◌, Option, none, some, List, [], ◌∷◌,
  inl, inr, arith, Option-cases, ◌↔◌,
}
use literaft.Errors.{Error, as_not_leader, as_catching_up, as_not_applied}
use literaft.Proto.{LogEntry, Page, Transaction}
use literaft.Proto.RoundTrip.{All}
use literaft.Gate.Messages.{LeaderRequest, entry_of}
use literaft.Gate.Environment.{Event, read_state, read_applied, applied, locked, released, World}
use literaft.Gate.{apply_error, apply_content, leader_ready, propose_entry}
use literaft.Gate.Requests.{
  validate_pages, validate_transaction, validate_request, classify_apply_err, handle_proposal,
  handle_locked, handle_lock, handle_valid, handle_request,
}
use literaft.Gate.Retry.{refuses, unsettled}

-- What the handler asks of a page, and of a request's transaction.
pub record IsWhole (txn : Transaction) : Type 0 where
  pub commits : txn.truncate ≢ 0
  pub some_pages : txn.pages ≢ []
  pub sound : All (λ (p : Page). (p.page_no ≢ 0) × (p.image ≢ [])) txn.pages

-- Acquisitions of the write lock, and releases.
abbrev pub acquisitions : List Event → ℕ
acquisitions [] = 0
acquisitions (locked id none ∷ t) = suc (acquisitions t)
acquisitions (e ∷ t) = acquisitions t

abbrev pub releases : List Event → ℕ
releases [] = 0
releases (released id ∷ t) = suc (releases t)
releases (e ∷ t) = releases t

validate_pages_iff :
    (ps : List Page)
    → (validate_pages ps ≡ none) ↔ All (λ (p : Page). (p.page_no ≢ 0) × (p.image ≢ [])) ps
unfolding validate_pages
validate_pages_iff [] = (λ h. tt, λ h. refl)
validate_pages_iff (p ∷ ps) =
    (λ h. ground (arith, validate_pages_iff ps), λ h. ground (arith, validate_pages_iff ps, h))

validate_pages-empty : validate_pages [] ≡ none
unfolding validate_pages
validate_pages-empty = refl

validate_transaction_iff :
    (txn : Transaction) → (validate_transaction (some txn) ≡ none) ↔ IsWhole txn
unfolding validate_transaction
validate_transaction_iff txn = (
  λ h. record {
    commits = λ e. absurd (ground (arith, h, e));
    some_pages = λ e. absurd (ground (arith, h, e));
    sound = (validate_pages_iff txn.pages).0 (ground (arith, h, validate_pages-empty));
  },
  λ w. ground (arith, w.commits, w.some_pages, (validate_pages_iff txn.pages).1 w.sound),
)

-- The handler takes exactly the requests that carry a whole transaction: one with a commit size, at
-- least one page, and no page with number zero or without data.
pub validate_request_iff :
    (req : LeaderRequest)
    → (validate_request req ≡ none)
      ↔ ((txn : Transaction) × ((entry_of req.entry).transaction ≡ some txn) × IsWhole txn)
unfolding validate_request validate_transaction
validate_request_iff req = go (entry_of req.entry).transaction
  where
    go :
        (o : Option Transaction)
        → (validate_transaction o ≡ none) ↔ ((txn : Transaction) × (o ≡ some txn) × IsWhole txn)
    go none = (λ h. absurd (cc), λ p. absurd (cc (p.1)))
    go (some txn) = (
      λ h. (txn, refl, (validate_transaction_iff txn).0 h),
      λ p. ground (arith, p.1, (validate_transaction_iff p.0).1 p.2),
    )

-- Whether the write lock is held behind a trace.
abbrev pub lock_held : List Event → Bool
lock_held [] = false
lock_held (locked id none ∷ t) = true
lock_held (released id ∷ t) = false
lock_held (e ∷ t) = lock_held t

-- Proposals to raft that were made without the write lock.
abbrev pub unguarded : List Event → ℕ
unguarded [] = 0
unguarded (applied entry answer ∷ t) = if lock_held t then unguarded t else suc (unguarded t)
unguarded (e ∷ t) = unguarded t

module _ (env : World) where
  propose_entry-unready :
      (entry : LogEntry) (t : List Event) (err : Error) {u : List Event}
      → propose_entry env entry t ≡ (some err, u)
      → refuses (classify_apply_err err).status ≡ true
      → unsettled u ≡ unsettled t
  unfolding propose_entry leader_ready apply_content apply_error classify_apply_err as_not_leader
      as_catching_up as_not_applied
  propose_entry-unready entry t err h s = ground arith

  handle_locked-refuses :
      (req : LeaderRequest) (t : List Event)
      → refuses (handle_locked env req t).0.status ≡ true
      → unsettled (handle_locked env req t).1 ≡ unsettled t
  unfolding handle_locked handle_proposal
  handle_locked-refuses req t h =
      let t1 = read_applied (env.last_applied t) ∷ t in
      let r = propose_entry env (entry_of req.entry) t1 in
      elim (Option-cases r.0) [
        | inl n ↦ ground (arith, n)
        | inr (err, n) ↦
            ground (arith, n, propose_entry-unready (entry_of req.entry) t1 err {u = r.1})
      ]

  handle_valid-refuses :
      (req : LeaderRequest) (t : List Event)
      → refuses (handle_valid env req t).0.status ≡ true
      → unsettled (handle_valid env req t).1 ≡ unsettled t
  unfolding handle_valid handle_lock
  handle_valid-refuses req t h =
      let id = (entry_of req.entry).id in
      let t1 = read_state (env.is_leader t) ∷ t in
      ground (arith, handle_locked-refuses req (locked id (env.acquire t1 id) ∷ t1))

  -- A handler whose response refuses a request has not brought it into the raft log.
  pub refusal_honest :
      (req : LeaderRequest) (t : List Event)
      → refuses (handle_request env req t).0.status ≡ true
      → unsettled (handle_request env req t).1 ≡ unsettled t
  unfolding handle_request
  refusal_honest req t h = elim (Option-cases (validate_request req)) [
    | inl n ↦ ground (arith, n, handle_valid-refuses req t)
    | inr (err, n) ↦ ground (arith, n)
  ]

  propose_entry-acquisitions :
      (entry : LogEntry) (t : List Event)
      → let u = (propose_entry env entry t).1 in
        (acquisitions u ≡ acquisitions t) × (releases u ≡ releases t)
  unfolding propose_entry leader_ready apply_content
  propose_entry-acquisitions entry t = ground arith

  handle_locked-acquisitions :
      (req : LeaderRequest) (t : List Event)
      → let u = (handle_locked env req t).1 in
        (acquisitions u ≡ acquisitions t) × (releases u ≡ releases t)
  unfolding handle_locked handle_proposal
  handle_locked-acquisitions req t =
      let t1 = read_applied (env.last_applied t) ∷ t in
      let r = propose_entry env (entry_of req.entry) t1 in
      elim (Option-cases r.0) [
        | inl n ↦ ground (arith, n, propose_entry-acquisitions (entry_of req.entry) t1)
        | inr (err, n) ↦ ground (arith, n, propose_entry-acquisitions (entry_of req.entry) t1)
      ]

  handle_valid-balanced :
      (req : LeaderRequest) (t : List Event)
      → let u = (handle_valid env req t).1 in
        acquisitions u + releases t ≡ releases u + acquisitions t
  unfolding handle_valid handle_lock
  handle_valid-balanced req t =
      let id = (entry_of req.entry).id in
      let t1 = read_state (env.is_leader t) ∷ t in
      ground (arith, handle_locked-acquisitions req (locked id (env.acquire t1 id) ∷ t1))

  -- On every way out of the handler, the write lock is given back as often as it was taken.
  pub lock_balanced :
      (req : LeaderRequest) (t : List Event)
      → let u = (handle_request env req t).1 in
        acquisitions u + releases t ≡ releases u + acquisitions t
  unfolding handle_request
  lock_balanced req t = elim (Option-cases (validate_request req)) [
    | inl n ↦ ground (arith, n, handle_valid-balanced req t)
    | inr (err, n) ↦ ground (arith, n)
  ]

  propose_entry-unguarded :
      (entry : LogEntry) (t : List Event)
      → lock_held t ≡ true
      → unguarded (propose_entry env entry t).1 ≡ unguarded t
  unfolding propose_entry leader_ready apply_content
  propose_entry-unguarded entry t h = ground arith

  handle_locked-unguarded :
      (req : LeaderRequest) (t : List Event)
      → lock_held t ≡ true
      → unguarded (handle_locked env req t).1 ≡ unguarded t
  unfolding handle_locked handle_proposal
  handle_locked-unguarded req t h =
      let t1 = read_applied (env.last_applied t) ∷ t in
      let r = propose_entry env (entry_of req.entry) t1 in
      elim (Option-cases r.0) [
        | inl n ↦ ground (arith, n, propose_entry-unguarded (entry_of req.entry) t1 h)
        | inr (err, n) ↦ ground (arith, n, propose_entry-unguarded (entry_of req.entry) t1 h)
      ]

  handle_valid-unguarded :
      (req : LeaderRequest) (t : List Event) → unguarded (handle_valid env req t).1 ≡ unguarded t
  unfolding handle_valid handle_lock
  handle_valid-unguarded req t =
      let id = (entry_of req.entry).id in
      let t1 = read_state (env.is_leader t) ∷ t in
      ground (arith, handle_locked-unguarded req (locked id none ∷ t1) refl)

  handle_locked-on_base :
      (req : LeaderRequest) (t : List Event)
      → unsettled (handle_locked env req t).1 ≢ unsettled t
      → req.last_applied_index ≡ env.last_applied t
  unfolding handle_locked
  handle_locked-on_base req t h = ground (arith, h)

  handle_valid-on_base :
      (req : LeaderRequest) (t : List Event)
      → unsettled (handle_valid env req t).1 ≢ unsettled t
      → let t1 = read_state true ∷ t in
        let id = (entry_of req.entry).id in
        (env.is_leader t ≡ true)
        × (env.acquire t1 id ≡ none)
        × (req.last_applied_index ≡ env.last_applied (locked id none ∷ t1))
  unfolding handle_valid handle_lock
  handle_valid-on_base req t h =
      let id = (entry_of req.entry).id in
      let t1 = read_state true ∷ t in
      ground (arith, handle_locked-on_base req (locked id none ∷ t1), h)

  -- A forwarded write gets into the raft log only from a whole transaction, on a node that was the
  -- leader and then took its write lock, if the last index applied under the lock is the request's;
  -- and the handler proposes to raft only while the lock is held.
  pub proposed_on_base :
      (req : LeaderRequest) (t : List Event)
      → unsettled (handle_request env req t).1 ≢ unsettled t
      → let t1 = read_state true ∷ t in
        let id = (entry_of req.entry).id in
        (validate_request req ≡ none)
        × (env.is_leader t ≡ true)
        × (env.acquire t1 id ≡ none)
        × (req.last_applied_index ≡ env.last_applied (locked id none ∷ t1))
        × (unguarded (handle_request env req t).1 ≡ unguarded t)
  unfolding handle_request
  proposed_on_base req t h = elim (Option-cases (validate_request req)) [
    | inl n ↦ ground (arith, n, handle_valid-on_base req t, handle_valid-unguarded req t, h)
    | inr (err, n) ↦ absurd (ground (arith, n, h))
  ]
