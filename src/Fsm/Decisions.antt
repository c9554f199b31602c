-- ===== src/Fsm/Decisions.antt =====
-- Who materializes an entry is decided once: either the apply loop consumes its marker and the
-- proposer is told of success, or the proposer gives up and the apply loop materializes the entry.
use Prim.Native.String.{String}
use literaft.Base.{ℕ, ◌<◌, ◌≡◌, ◌≢◌, refl, Bool, true, false, none, some, arith, ◌∙◌, sym, ap}
use literaft.Errors.{Error}
use literaft.Fsm.{
  MarkerState, pending, skipped, abandoned, Markers, no_markers, create_skip_marker,
  delete_skip_marker, try_consume, await_end, Wake, on_done, on_deadline,
}
use literaft.Fsm.Interleavings.{
  Step, create, delete, consume, wake, Reach, here, next, IsValid, Reach-IsValid,
  no_markers-IsValid,
}

abbrev pub state_of : ℕ → Markers → MarkerState
state_of r m = (m.store r).state

-- A step never takes back a decision on an allocated marker.
Step-decided :
    {m u : Markers} (r : ℕ)
    → Step m u
    → r < m.next
    → (r < u.next) × (state_of r m ≢ pending → state_of r u ≡ state_of r m)
unfolding create_skip_marker delete_skip_marker try_consume await_end
Step-decided r (create id e) lt = ground arith
Step-decided r (delete id e) lt = ground arith
Step-decided r (consume id e) lt = ground arith
Step-decided r (wake on_done q e l h) lt = ground arith
Step-decided r (wake on_deadline q e l h) lt = ground arith

-- From any state, whatever proposers, waiters and the apply loop do, in any order, a marker that is
-- skipped or abandoned stays so.
pub Reach-decided :
    {m u : Markers} (r : ℕ)
    → Reach m u
    → r < m.next
    → state_of r m ≢ pending
    → (r < u.next) × (state_of r u ≡ state_of r m)
Reach-decided r here lt h = (lt, refl)
Reach-decided r (next p s) lt h =
    let (lt', same) = Reach-decided r p lt h in
    let (lt'', keep) = Step-decided r s lt' in (lt'', keep (λ e. h (sym same ∙ e)) ∙ same)

await_end-none :
    (w : Wake) (r : ℕ) {m u : Markers}
    → IsValid m
    → await_end w r m ≡ some (none, u)
    → (state_of r m ≡ skipped) × (u ≡ m)
unfolding await_end
await_end-none on_done r v h = ground (arith, v.closed r)
await_end-none on_deadline r v h = ground (arith, v.closed r)

await_end-some :
    (w : Wake) (r : ℕ) (e : Error) (m : Markers) {u : Markers}
    → await_end w r m ≡ some (some e, u)
    → (state_of r u ≡ abandoned) × (u.next ≡ m.next)
unfolding await_end
await_end-some on_done r e m h = ground arith
await_end-some on_deadline r e m h = ground arith

-- The apply loop finds nothing to consume through a marker that is no longer pending.
try_consume-decided :
    (id : String) (r : ℕ) (m : Markers)
    → m.by_id id ≡ some r
    → state_of r m ≢ pending
    → try_consume id m ≡ (false, m)
unfolding try_consume
try_consume-decided id r m h d = ground arith

-- A proposer that is told of success can rely on it: the apply loop has consumed its marker, and no
-- later step of anyone changes that.
pub await_end-success :
    (w : Wake) (r : ℕ) {m u t : Markers}
    → Reach no_markers m
    → r < m.next
    → await_end w r m ≡ some (none, u)
    → Reach u t
    → state_of r t ≡ skipped
await_end-success w r {u = u} past lt h future =
    let (s, same) = await_end-none w r (Reach-IsValid past no_markers-IsValid) h in
    let s' : state_of r u ≡ skipped = rw same s in
    let (_, keep) = Reach-decided r future (rw same lt) (λ p. cc (s', p)) in keep ∙ s'

-- A proposer that is told of failure can rely on it: if the entry is delivered under that marker,
-- however many steps of others lie between, it is not skipped and so is materialized.
pub await_end-failure :
    (w : Wake) (id : String) (r : ℕ) (e : Error) (m : Markers) {u t : Markers}
    → r < m.next
    → await_end w r m ≡ some (some e, u)
    → Reach u t
    → t.by_id id ≡ some r
    → try_consume id t ≡ (false, t)
await_end-failure w id r e m {t = t} lt h future at =
    let (s, same) = await_end-some w r e m h in
    let (_, keep) = Reach-decided r future (rw same lt) (λ p. cc (s, p)) in
    try_consume-decided id r t at (λ p. cc (keep, s, p))

consumed-skipped :
    (id : String) (r : ℕ) (m : Markers) {u : Markers}
    → m.by_id id ≡ some r
    → try_consume id m ≡ (true, u)
    → (state_of r u ≡ skipped) × (u.next ≡ m.next)
unfolding try_consume
consumed-skipped id r m at h = ground arith

skipped_wakes :
    (w : Wake) (r : ℕ) (m : Markers)
    → IsValid m
    → state_of r m ≡ skipped
    → await_end w r m ≡ some (none, m)
unfolding await_end
skipped_wakes on_done r m v h = ground (arith, v.closed r)
skipped_wakes on_deadline r m v h = ground (arith, v.closed r)

-- A consumed marker wakes its waiter with success at any later time, also if the deadline fires
-- first.
pub await_end-consumed :
    (w : Wake) (id : String) (r : ℕ) {m u t : Markers}
    → Reach no_markers m
    → m.by_id id ≡ some r
    → try_consume id m ≡ (true, u)
    → Reach u t
    → await_end w r t ≡ some (none, t)
await_end-consumed w id r {m} {u} {t} past at h future =
    let v = Reach-IsValid past no_markers-IsValid in
    let (s, same) = consumed-skipped id r m at h in
    let u-valid : IsValid u =
      Reach-IsValid (next here (consume id (ap (λ (p : Bool × Markers). p.1) (sym h)))) v in
    let lt = v.allocated id r at in
    let (_, keep) = Reach-decided r future (rw same lt) (λ p. cc (s, p)) in
    skipped_wakes w r t (Reach-IsValid future u-valid) (keep ∙ s)
