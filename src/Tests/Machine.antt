-- ===== src/Tests/Machine.antt =====
-- fsm/fsm.go on concrete deliveries, over an appender that only keeps the frames.
use literaft.Base.{
  ℕ, zero, suc, ◌⊎◌, ◌<◌, ◌≡◌, refl, true, false, List, [], ◌∷◌, ◌++◌, arith, Option, none, some,
  if◌then◌else◌,
}
use literaft.Base.Maps.{empty_map, update}
use literaft.Errors.{plain}
use literaft.Wal.Frame.{Frame}
use literaft.Proto.{LogEntry, Transaction, frames}
use literaft.Fsm.{
  returned, pending, Fsm, Log, no_markers, Markers, apply, apply_entry, materialize, after_append,
  try_consume_skip_marker, try_consume, create_skip_marker, delete_skip_marker, await_end,
  begin_held_apply, on_deadline, skipped, abandoned, write_marker,
}
use literaft.Fsm.Interface.{Appender, appended}
use literaft.Fsm.Interleavings.{Reach, here, next, create, consume, delete}
use literaft.Fsm.Decisions.{
  state_of, Reach-decided, await_end-success, await_end-failure, await_end-consumed,
}
use literaft.Fsm.Apply.{
  Applied, append_answer, Consumed, NotPending, release_times, apply-once, held_apply-loan,
}

-- The frames appended so far, and the lock's holder if it is held.
abbrev list_appender : Appender
list_appender = record {
  State = List Frame × Option ℕ;
  append_under_lock = λ h fs s. appended none (s.0 ++ fs, s.1);
  append_frames = λ fs s. appended none (s.0 ++ fs, s.1);
  acquire = λ expired s. if expired then (none, s) else (some 1, (s.0, some 1));
  release = λ h s. (s.0, none);
}

abbrev one_page : Transaction
one_page = record { pages = record { page_no = 1; image = 5 ∷ [] } ∷ []; truncate = 1 }

-- Content `[0]` is an entry without a transaction, `[n + 1]` one with, and all else is unreadable.
abbrev decode : List ℕ → Option LogEntry
decode (zero ∷ []) = some (record { id = "b"; transaction = none })
decode (suc n ∷ []) = some (record { id = "a"; transaction = some one_page })
decode _ = none

abbrev node : Fsm list_appender decode
node = record { last_applied = 0; markers = no_markers; loans = empty_map; appender = ([], none) }

abbrev entry_log : Log
entry_log = record { index = 7; command = true; content = 1 ∷ [] }

apply-once_example :
    ((g : Fsm list_appender decode)
      → apply list_appender decode entry_log node ≡ returned g
      → Applied list_appender decode 7 "a" one_page node g)
    × ((r : ℕ)
        → node.markers.by_id "a" ≡ some r
        → (node.markers.store r).state ≡ pending
        → (g : Fsm list_appender decode) × (apply list_appender decode entry_log node ≡ returned g))
    × ((a : List Frame × Option ℕ)
        → append_answer list_appender decode "a" one_page node ≡ appended none a
        → (g : Fsm list_appender decode) × (apply list_appender decode entry_log node ≡ returned g))
apply-once_example = apply-once list_appender decode entry_log "a" one_page node refl refl

abbrev loaned : Fsm list_appender decode
loaned = record node { loans = update empty_map "a" (some 1); appender = ([], some 1) }

abbrev delivered : Fsm list_appender decode
delivered = record loaned { last_applied = 7; appender = (frames one_page, some 1) }

held_apply-loan_example :
    let w = release_times list_appender decode 3 false "a" 1 delivered in
    (list_appender.acquire false node.appender ≡ (some 1, loaned.appender))
    × ((Consumed list_appender decode "a" loaned.markers delivered.markers
          × (delivered.appender ≡ loaned.appender))
        ⊎ (NotPending list_appender decode "a" loaned.markers
            × (list_appender.append_under_lock 1 (frames one_page) loaned.appender
                ≡ appended none delivered.appender)))
    × (w.appender ≡ list_appender.release 1 delivered.appender)
    × (w.loans "a" ≡ none)
unfolding begin_held_apply apply apply_entry try_consume_skip_marker try_consume materialize
    after_append update
held_apply-loan_example =
    held_apply-loan list_appender decode false entry_log "a" one_page 1 2 node {g = loaned}
      {u = delivered} refl refl refl refl

abbrev one : Markers
one = create_skip_marker "a" no_markers

abbrev one_consumed : Markers
one_consumed = (try_consume "a" one).1

abbrev one_abandoned : Markers
one_abandoned = write_marker one 0 (record { state = abandoned; done = false })

past_one : Reach no_markers one
past_one = next here (create "a" refl)

Reach-decided_example :
    (0 < one_abandoned.next)
    × (state_of 0 (delete_skip_marker "a" one_abandoned) ≡ state_of 0 one_abandoned)
unfolding create_skip_marker write_marker delete_skip_marker
Reach-decided_example =
    Reach-decided {m = one_abandoned} 0 (next here (delete "a" refl)) (omega arith) (λ e. cc (e))

await_end-success_example : state_of 0 (delete_skip_marker "a" one_consumed) ≡ skipped
unfolding create_skip_marker await_end try_consume write_marker update
await_end-success_example =
    await_end-success on_deadline 0 (next past_one (consume "a" refl)) (omega arith) refl
      (next here (delete "a" refl))

await_end-failure_example : try_consume "a" one_abandoned ≡ (false, one_abandoned)
unfolding create_skip_marker await_end write_marker update
await_end-failure_example =
    await_end-failure on_deadline "a" 0 (plain "context deadline exceeded") one (omega arith) refl
      here refl

await_end-consumed_example :
    await_end on_deadline 0 (delete_skip_marker "a" one_consumed)
    ≡ some (none, delete_skip_marker "a" one_consumed)
unfolding create_skip_marker try_consume write_marker update
await_end-consumed_example =
    await_end-consumed on_deadline "a" 0 past_one refl refl (next here (delete "a" refl))
