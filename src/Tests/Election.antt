-- ===== src/Tests/Election.antt =====
-- internal/gate/gate.go: a node that is elected, drains and gets ready.
use literaft.Base.{◌≡◌, refl, true, [], arith}
use literaft.Gate.Leadership.{
  Leadership, started, is_ready, receive, reset_ready, start_drain, check_drain, set_ready, Reach,
  here, next, elected, deposed, announced, receives, resets, starts, barrier, checks, sets,
}
use literaft.Gate.Drained.{ready_is_drained}

abbrev leading : Leadership
leading = record (started 1) { leader = true; term = 2 }

abbrev drained : Leadership
drained = record leading { ready = true; drained = 2 }

drained-Reach : Reach (started 1) drained
unfolding receive reset_ready start_drain check_drain set_ready
drained-Reach =
    let s1 = next here (elected 2 refl (omega arith) refl) in
    let s2 = next s1 (announced refl refl) in
    let s3 = next s2 (receives true refl refl refl) in
    let s4 = next s3 (resets true refl refl refl) in
    let s5 = next s4 (starts refl refl) in
    let s6 = next s5 (barrier 2 [] [] refl refl refl) in
    let s7 = next s6 (checks 2 2 [] [] refl refl refl) in next s7 (sets 2 2 refl refl)

ready_is_drained_example : (is_ready drained ≡ true) × (drained.drained ≡ drained.term)
ready_is_drained_example = ready_is_drained drained-Reach refl refl

-- Deposed and elected again before the watcher has run, the node counts as ready in a term for which
-- it has not drained.
abbrev stale : Leadership
stale = record drained { term = 3; owed = true }

stale-Reach : Reach drained stale
stale-Reach = next (next here (deposed refl refl)) (elected 3 refl (omega arith) refl)

stale-is_ready : is_ready stale ≡ true
unfolding is_ready
stale-is_ready = refl
