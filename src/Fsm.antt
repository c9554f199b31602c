-- ===== src/Fsm.antt =====
-- fsm/fsm.go: the raft state machine of one node. The skip markers, the loaned write locks and the
-- index of the last entry that was materialized are state here; the WAL appender stands behind an
-- interface.
pub mod Interface
pub mod Interleavings
pub mod Decisions
pub mod Apply
use Prim.Native.String.{String}
use literaft.Base.{
  ℕ, zero, suc, ◌+◌, ◌==◌, Bool, true, false, not, Option, none, some, List, if◌then◌else◌,
}
use literaft.Base.Maps.{StringMap, empty_map, update}
use literaft.Errors.{Error, plain}
use literaft.Proto.{LogEntry, Transaction, frames}
use literaft.Fsm.Interface.{Appender, HeldLock, Appended, appended, append_panicked, append_endless}

pub data MarkerState : Type 0 where
  pending skipped abandoned : MarkerState

-- skipMarker; `done` says whether the channel is closed.
pub record SkipMarker : Type 0 where
  pub state : MarkerState
  pub done : Bool

abbrev pub is_pending : MarkerState → Bool
is_pending pending = true
is_pending skipped = false
is_pending abandoned = false

abbrev pub is_skipped : MarkerState → Bool
is_skipped pending = false
is_skipped skipped = true
is_skipped abandoned = false

-- The markers are shared through pointers: the map holds references into a store, and a waiter
-- keeps its reference when the entry is deleted from the map.
pub record Markers : Type 0 where
  pub store : ℕ → SkipMarker
  pub next : ℕ
  pub by_id : StringMap ℕ

abbrev pub fresh_marker : SkipMarker
fresh_marker = record { state = pending; done = false }

abbrev pub no_markers : Markers
no_markers = record { store = λ _. fresh_marker; next = 0; by_id = empty_map }

unfoldable pub write_marker : Markers → ℕ → SkipMarker → Markers
write_marker m r v = record m { store = λ q. if q == r then v else m.store q }

unfoldable pub create_skip_marker : String → Markers → Markers
create_skip_marker id m = record {
  store = λ q. if q == m.next then fresh_marker else m.store q;
  next = suc m.next;
  by_id = update m.by_id id (some m.next);
}

unfoldable pub delete_skip_marker : String → Markers → Markers
delete_skip_marker id m = record m { by_id = update m.by_id id none }

-- tryConsumeSkipMarker, without the store of `lastApplied`, which its caller below makes.
unfoldable pub try_consume : String → Markers → Bool × Markers
unfolding write_marker
try_consume id m = elim (m.by_id id) [
  | none ↦ (false, m)
  | some r ↦
      if is_pending (m.store r).state
      then (true, write_marker m r (record { state = skipped; done = true }))
      else (false, m)
]

-- The first half of AwaitSkipMarkerConsumed, under the mutex: the marker's reference.
unfoldable pub await_begin : String → Markers → Option ℕ
await_begin id m = m.by_id id

-- The case of the `select` that fires.
pub data Wake : Type 0 where
  on_done on_deadline : Wake

-- The second half. `none` means that this case is not ready. On the deadline the state is read
-- again under the mutex.
unfoldable pub await_end : Wake → ℕ → Markers → Option (Option Error × Markers)
unfolding write_marker
await_end on_done r m = if (m.store r).done then some (none, m) else none
await_end on_deadline r m =
    if is_skipped (m.store r).state
    then some (none, m)
    else some (
      some (plain "context deadline exceeded"),
      write_marker m r (record { state = abandoned; done = (m.store r).done }),
    )

-- raft.Log: `command` is `log.Type == raft.LogCommand`.
pub record Log : Type 0 where
  pub index : ℕ
  pub command : Bool
  pub content : List ℕ

module _ (A : Appender) (unmarshal : List ℕ → Option LogEntry) where
  pub record Fsm : Type 0 where
    pub last_applied : ℕ
    pub markers : Markers
    pub loans : StringMap HeldLock
    pub appender : A.State

  -- Apply returns nil, panics, or never ends, with the append that it waits for.
  pub data Outcome : Type 0 where
    returned : Fsm → Outcome
    panicked : Outcome
    endless : Outcome

  unfoldable pub try_consume_skip_marker : String → ℕ → Fsm → Bool × Fsm
  try_consume_skip_marker id index f =
      let (consumed, m) = try_consume id f.markers in
      if consumed then (true, record f { markers = m; last_applied = index }) else (false, f)

  -- What follows the append; its error is a panic of the node.
  unfoldable pub after_append : ℕ → Fsm → Appended A.State → Outcome
  after_append index f (appended (some e) a) = panicked
  after_append index f (appended none a) =
      returned (record f { appender = a; last_applied = index })
  after_append index f append_panicked = panicked
  after_append index f append_endless = endless

  -- Materializing a transaction: under the loaned lock if there is one, else under our own.
  unfoldable pub materialize : String → ℕ → Transaction → Fsm → Outcome
  unfolding after_append
  materialize id index txn f = after_append index f (elim (f.loans id) [
    | some loan ↦ A.append_under_lock loan (frames txn) f.appender
    | none ↦ A.append_frames (frames txn) f.appender
  ])

  unfoldable pub apply_entry : ℕ → LogEntry → Fsm → Outcome
  unfolding try_consume_skip_marker
  apply_entry index entry f =
      let (consumed, f') = try_consume_skip_marker entry.id index f in
      if consumed then returned f' else elim entry.transaction [
        | none ↦ returned f'
        | some txn ↦ materialize entry.id index txn f'
      ]

  unfoldable pub apply : Log → Fsm → Outcome
  apply log f = if not log.command then returned f else elim (unmarshal log.content) [
    | none ↦ panicked
    | some entry ↦ apply_entry log.index entry f
  ]

  -- BeginHeldApply: on success the lock is loaned under the entry's id. `expired` is the context.
  unfoldable pub begin_held_apply : Bool → String → Fsm → Option HeldLock × Fsm
  begin_held_apply expired id f =
      let (got, a) = A.acquire expired f.appender in
      elim got [
        | none ↦ (none, record f { appender = a })
        | some h ↦ (some h, record f { appender = a; loans = update f.loans id (some h) })
      ]

  -- The release function that BeginHeldApply returns; `once` is the state of its sync.Once.
  unfoldable pub release_held : Bool → String → HeldLock → Fsm → Bool × Fsm
  release_held once id h f =
      if once
      then (true, f)
      else (true, record f { loans = update f.loans id none; appender = A.release h f.appender })
