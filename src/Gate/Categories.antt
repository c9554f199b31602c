-- ===== src/Gate/Categories.antt =====
-- internal/gate/gate.go: what the leader's error becomes on its way through the response to the
-- follower that forwarded the write.
use Prim.Native.String.{String}
use literaft.Base.{
  ℕ, ◌≡◌, ◌≢◌, refl, Option, none, some, List, ◌∷◌, ◌⊎◌, inl, inr, arith, Bool-cases,
}
use literaft.Errors.{
  Error, not_leader, catching_up, not_applied, not_applied_by, ambiguous_error, plain, message,
  Category, redirect, retryable, ambiguous, classify, as_not_leader, as_catching_up, as_not_applied,
}
use literaft.Proto.{LogEntry}
use literaft.Gate.Messages.{busy_reason}
use literaft.Gate.Environment.{
  Event, read_state, awaited, World, RaftError, enqueue_timeout, raft_error,
}
use literaft.Gate.{
  stop, apply_error, apply_content, leader_ready, propose_entry, await_result, await_fsm_applied,
  on_status,
}
use literaft.Gate.Requests.{classify_apply_err}

-- The errors with a category that the leader's own proposal can fail with.
data Failure (err : Error) (c : Category) : Type 0 where
  moved : (l : String) → err ≡ not_leader l → c ≡ redirect → Failure err c
  draining : err ≡ catching_up → c ≡ retryable → Failure err c
  dropped :
      (reason text : String)
      → err ≡ not_applied_by reason (plain text)
      → c ≡ retryable
      → Failure err c
  unknown : (text : String) → err ≡ ambiguous_error (plain text) → c ≡ ambiguous → Failure err c

apply_error-Failure :
    (r : Option RaftError) (err : Error) (c : Category)
    → apply_error r ≡ some err
    → classify err ≡ some c
    → Failure err c
unfolding apply_error classify
apply_error-Failure none err c h k = absurd (cc)
apply_error-Failure (some enqueue_timeout) err c h k =
    dropped "proposal not enqueued before timeout" "timed out enqueuing operation" (ground arith)
      (ground arith)
apply_error-Failure (some (raft_error text)) err c h k = unknown text (ground arith) (ground arith)

apply_content-Failure :
    (world : World) (content : String ⊎ List ℕ) (entry : LogEntry) (t u : List Event) (err : Error)
    (c : Category)
    → apply_content world content entry t ≡ (some err, u)
    → classify err ≡ some c
    → Failure err c
unfolding apply_content classify
apply_content-Failure world (inl text) entry t u err c h k = absurd (ground arith)
apply_content-Failure world (inr content) entry t u err c h k =
    apply_error-Failure (world.raft_apply t content) err c (ground arith) k

propose_entry-Failure :
    (world : World) (entry : LogEntry) (t u : List Event) (err : Error) (c : Category)
    → propose_entry world entry t ≡ (some err, u)
    → classify err ≡ some c
    → Failure err c
unfolding propose_entry classify
propose_entry-Failure world entry t u err c h k =
    let t1 = read_state (world.is_leader t) ∷ t in
    let r = leader_ready world t1 in
    elim (Bool-cases (world.is_leader t)) [
      | inr n ↦ moved (world.leader t1) (ground arith) (ground arith)
      | inl n ↦ elim (Bool-cases r.0) [
        | inr n' ↦ draining (ground arith) (ground arith)
        | inl n' ↦
            apply_content-Failure world (world.marshal entry) entry r.1 u err c (ground arith) k
      ]
    ]

awaited_ambiguous :
    (answer : Option Error) (cause : Error)
    → (await_result answer (some cause) ≡ none)
      ⊎ ((e : Error) × (await_result answer (some cause) ≡ some e) × (classify e ≡ some ambiguous))
unfolding await_result classify
awaited_ambiguous none cause = inl refl
awaited_ambiguous (some e) cause = inr (ambiguous_error cause, refl, refl)

abbrev Forwarded : World → String → List Event → Error → Category → Type 0
Forwarded follower id s err c =
    let res = classify_apply_err err in
    (outcome : Option Error) × (s' : List Event) × (on_status follower 1 id res res.status s
      ≡ stop outcome s')
    × (c ≢ ambiguous → s' ≡ s)
    × (((c ≡ ambiguous) × (outcome ≡ none))
        ⊎ ((e : Error) × (outcome ≡ some e) × (classify e ≡ some c)))

Failure-Forwarded :
    (follower : World) (id : String) (s : List Event) (err : Error) (c : Category)
    → Failure err c
    → Forwarded follower id s err c
unfolding classify_apply_err as_not_leader as_catching_up as_not_applied classify on_status
    await_fsm_applied
Failure-Forwarded follower id s err c (moved l e q) =
    rw (e, q) (some (not_leader l), s, refl, λ ne. refl, inr (not_leader l, refl, refl))
Failure-Forwarded follower id s err c (draining e q) =
    rw (e, q) (some catching_up, s, refl, λ ne. refl, inr (catching_up, refl, refl))
Failure-Forwarded follower id s err c (dropped reason text e q) =
    let outcome = not_applied (busy_reason (message (not_applied_by reason (plain text)))) in
    rw (e, q) (some outcome, s, refl, λ ne. refl, inr (outcome, refl, refl))
Failure-Forwarded follower id s err c (unknown text e q) =
    let cause = plain (message (ambiguous_error (plain text))) in
    let answer = follower.await_marker s id in
    rw (e, q)
      (
        await_result answer (some cause),
        awaited id answer ∷ s,
        refl,
        λ ne. absurd (ne refl),
        elim (awaited_ambiguous answer cause) [ inl n ↦ inl (refl, n) | inr p ↦ inr p ],
      )

-- An error with which the leader's own proposal fails reaches the follower, which has been
-- redirected once already, with its category: a redirect as a redirect and a retryable error as a
-- retryable one, without another event;
-- and an ambiguous error as an ambiguous one, unless the follower's apply
-- loop sees the write.
pub category_forwarded :
    (leader follower : World) (entry : LogEntry) (id : String) (t s u : List Event) (err : Error)
    (c : Category)
    → propose_entry leader entry t ≡ (some err, u)
    → classify err ≡ some c
    → let res = classify_apply_err err in
      (outcome : Option Error) × (s' : List Event) × (on_status follower 1 id res res.status s
        ≡ stop outcome s')
      × (c ≢ ambiguous → s' ≡ s)
      × (((c ≡ ambiguous) × (outcome ≡ none))
          ⊎ ((e : Error) × (outcome ≡ some e) × (classify e ≡ some c)))
category_forwarded leader follower entry id t s u err c h k =
    Failure-Forwarded follower id s err c (propose_entry-Failure leader entry t u err c h k)
