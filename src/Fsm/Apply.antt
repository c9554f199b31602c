-- ===== src/Fsm/Apply.antt =====
-- What one delivery of a committed log entry does to a node.
use Prim.Native.String.{String}
use literaft.Base.{
  Option-cases, Bool-cases, zero, suc, ℕ, ◌≡◌, ◌≢◌, refl, ap, sym, subst, ◌∙◌, Bool, true, false,
  Option, none, some, List, arith, ◌⊎◌, inl, inr,
}
use literaft.Base.Maps.{StringMap, update, update_self}
use literaft.Proto.{LogEntry, Transaction, frames}
use literaft.Fsm.Interface.{Appender, HeldLock, Appended, appended}
use literaft.Fsm.{
  Fsm, returned, Log, Markers, MarkerState, pending, skipped, abandoned, is_pending, write_marker,
  try_consume, try_consume_skip_marker, after_append, materialize, apply_entry, apply,
  begin_held_apply, release_held,
}

is_pending_eq : (s : MarkerState) → is_pending s ≡ true → s ≡ pending
is_pending_eq pending h = refl
is_pending_eq skipped h = absurd (cc (h))
is_pending_eq abandoned h = absurd (cc (h))

module _ (A : Appender) (unmarshal : List ℕ → Option LogEntry) where
  abbrev Node : Type 0
  Node = Fsm A unmarshal

  -- The appender's answer to the entry's frames: under the lock that a forwarding handler holds for
  -- this entry if there is one, and else under a lock of its own.
  abbrev pub append_answer : String → Transaction → Node → Appended A.State
  append_answer id txn f = elim (f.loans id) [
    | some loan ↦ A.append_under_lock loan (frames txn) f.appender
    | none ↦ A.append_frames (frames txn) f.appender
  ]

  -- The marker of `id` was pending, and is skipped now and its waiter woken; nothing else happened
  -- to the markers.
  pub record Consumed (id : String) (m u : Markers) : Type 0 where
    pub ref : ℕ
    pub found : m.by_id id ≡ some ref
    pub was : (m.store ref).state ≡ pending
    pub now : u.store ref ≡ record { state = skipped; done = true }
    pub others : (q : ℕ) → q ≢ ref → u.store q ≡ m.store q
    pub kept : u.by_id ≡ m.by_id

  -- There is no marker of `id`, or it is decided already.
  abbrev pub NotPending : String → Markers → Type 0
  NotPending id m = (r : ℕ) → m.by_id id ≡ some r → (m.store r).state ≢ pending

  pub record Applied (index : ℕ) (id : String) (txn : Transaction) (f g : Node) : Type 0 where
    pub indexed : g.last_applied ≡ index
    pub loans_kept : g.loans ≡ f.loans
    pub once :
        (Consumed id f.markers g.markers × (g.appender ≡ f.appender))
        ⊎ (NotPending id f.markers
            × (append_answer id txn f ≡ appended none g.appender)
            × (g.markers ≡ f.markers))

  try_consume-cases :
      (id : String) (m : Markers)
      → (((try_consume id m).0 ≡ true) × Consumed id m (try_consume id m).1)
        ⊎ (((try_consume id m).0 ≡ false) × NotPending id m)
  unfolding try_consume write_marker
  try_consume-cases id m = elim (Option-cases (m.by_id id)) [
    | inl n ↦ rw (n, try_consume) (inr (refl, λ r e. absurd (cc (e))))
    | inr (r, n) ↦ elim (Bool-cases (is_pending (m.store r).state)) [
      | inl p ↦
          rw (n, p, try_consume)
            (inl (
              refl,
              record {
                ref = r;
                found = n;
                was = is_pending_eq _ p;
                now = ground arith;
                others = λ q ne. ground (arith, ne);
                kept = refl;
              },
            ))
      | inr p ↦ rw (n, p, try_consume) (inr (refl, λ q e s. absurd (ground (arith, n, p, e, s))))
    ]
  ]

  materialize-returned :
      (index : ℕ) (id : String) (txn : Transaction) (f : Node) {g : Node}
      → materialize A unmarshal id index txn f ≡ returned g
      → (append_answer id txn f ≡ appended none g.appender)
        × (g.last_applied ≡ index)
        × (g.loans ≡ f.loans)
        × (g.markers ≡ f.markers)
  unfolding materialize after_append
  materialize-returned index id txn f h = ground arith

  unconsumed_entry :
      (index : ℕ) (id : String) (txn : Transaction) (f : Node)
      → (try_consume id f.markers).0 ≡ false
      → apply_entry A unmarshal index (record { id = id; transaction = some txn }) f
        ≡ materialize A unmarshal id index txn f
  unfolding apply_entry try_consume_skip_marker
  unconsumed_entry index id txn f c = rw (c, apply_entry)

  apply_entry-Applied :
      (index : ℕ) (id : String) (txn : Transaction) (f : Node) {g : Node}
      → apply_entry A unmarshal index (record { id = id; transaction = some txn }) f ≡ returned g
      → Applied index id txn f g
  unfolding apply_entry try_consume_skip_marker
  apply_entry-Applied index id txn f {g} h = elim (try_consume-cases id f.markers) [
    | inl (c, done) ↦
        let e : apply_entry A unmarshal index (record { id = id; transaction = some txn }) f
            ≡ returned (record f { markers = (try_consume id f.markers).1; last_applied = index }) =
          rw (c, apply_entry) in
        let same : record f { markers = (try_consume id f.markers).1; last_applied = index } ≡ g =
          cc (e, h) in
        subst (Applied index id txn f) same
          (record { indexed = refl; loans_kept = refl; once = inl (done, refl) })
    | inr (c, old) ↦
        let e = unconsumed_entry index id txn f c in
        let (answer, at, loans, markers) =
          materialize-returned index id txn f {g = g} (sym e ∙ h) in
        record { indexed = at; loans_kept = loans; once = inr (old, answer, markers) }
  ]

  consumed_returns :
      (index : ℕ) (id : String) (txn : Transaction) (f : Node)
      → (try_consume id f.markers).0 ≡ true
      → (g : Node) × (apply_entry A unmarshal index (record { id = id; transaction = some txn }) f
          ≡ returned g)
  unfolding apply_entry try_consume_skip_marker
  consumed_returns index id txn f c = (
    record f { markers = (try_consume id f.markers).1; last_applied = index },
    rw (c, apply_entry),
  )

  pending_consumed :
      (id : String) (r : ℕ) (m : Markers)
      → m.by_id id ≡ some r
      → (m.store r).state ≡ pending
      → (try_consume id m).0 ≡ true
  pending_consumed id r m e p = elim (try_consume-cases id m) [
    | inl (c, done) ↦ c
    | inr (c, old) ↦ absurd (old r e p)
  ]

  appended_returns :
      (index : ℕ) (id : String) (txn : Transaction) (f : Node) (a : A.State)
      → append_answer id txn f ≡ appended none a
      → (g : Node) × (apply_entry A unmarshal index (record { id = id; transaction = some txn }) f
          ≡ returned g)
  unfolding materialize after_append
  appended_returns index id txn f a k = elim (Bool-cases (try_consume id f.markers).0) [
    | inl c ↦ consumed_returns index id txn f c
    | inr c ↦
        let e = unconsumed_entry index id txn f c in
        (
          record f { appender = a; last_applied = index },
          e ∙ ap (after_append A unmarshal index f) k,
        )
  ]

  -- A delivered transaction counts exactly once. Apply returns if the entry's own marker is pending,
  -- and else if the append of its frames succeeds. When it returns, then with a pending marker the
  -- node made that skipped, woke its waiter and left its WAL alone; otherwise it left the markers
  -- alone and appended the entry's frames, once, with success. On both ways `lastApplied` is the
  -- entry's index and no loan is touched.
  pub apply-once :
      (log : Log) (id : String) (txn : Transaction) (f : Node)
      → log.command ≡ true
      → unmarshal log.content ≡ some (record { id = id; transaction = some txn })
      → ((g : Node) → apply A unmarshal log f ≡ returned g → Applied log.index id txn f g)
        × ((r : ℕ)
            → f.markers.by_id id ≡ some r
            → (f.markers.store r).state ≡ pending
            → (g : Node) × (apply A unmarshal log f ≡ returned g))
        × ((a : A.State)
            → append_answer id txn f ≡ appended none a
            → (g : Node) × (apply A unmarshal log f ≡ returned g))
  unfolding apply
  apply-once log id txn f command decoded =
      let entry : LogEntry = record { id = id; transaction = some txn } in
      let same : apply A unmarshal log f ≡ apply_entry A unmarshal log.index entry f =
        rw (command, decoded, apply) in
      (
        λ g h. apply_entry-Applied log.index id txn f {g = g} (sym same ∙ h),
        λ r e p.
            let (g, h) =
              consumed_returns log.index id txn f (pending_consumed id r f.markers e p) in
            (g, same ∙ h),
        λ a k. let (g, h) = appended_returns log.index id txn f a k in (g, same ∙ h),
      )

  -- What is no command, and a command without a transaction whose marker is not pending, changes
  -- nothing.
  pub apply-without_transaction :
      (log : Log) (id : String) (f : Node)
      → unmarshal log.content ≡ some (record { id = id; transaction = none })
      → (log.command ≡ false) ⊎ ((try_consume id f.markers).0 ≡ false)
      → apply A unmarshal log f ≡ returned f
  unfolding apply apply_entry
  apply-without_transaction log id f u h = ground arith

  begin_held_apply_lem :
      (expired : Bool) (id : String) (h : HeldLock) (f : Node) {g : Node}
      → begin_held_apply A unmarshal expired id f ≡ (some h, g)
      → (A.acquire expired f.appender ≡ (some h, g.appender))
        × (g.loans ≡ update f.loans id (some h))
  unfolding begin_held_apply
  begin_held_apply_lem expired id h f e = ground arith

  under_loan :
      (id : String) (txn : Transaction) (g : Node) (h : HeldLock)
      → g.loans id ≡ some h
      → A.append_under_lock h (frames txn) g.appender ≡ append_answer id txn g
  under_loan id txn g h at = rw (at, append_answer)

  -- The release function, called `n` times.
  abbrev pub release_times : ℕ → Bool → String → HeldLock → Node → Node
  release_times zero once id h f = f
  release_times (suc n) once id h f =
      let (once', f') = release_held A unmarshal once id h f in release_times n once' id h f'

  released_once : (n : ℕ) (id : String) (h : HeldLock) (f : Node) → release_times n true id h f ≡ f
  unfolding release_held
  released_once zero id h f = refl
  released_once (suc n) id h f = released_once n id h f

  -- The write lock that a handler holds serves the entry that it forwards. It is taken before it is
  -- loaned; the entry, delivered meanwhile, is appended under it, or else its marker was pending
  -- and nothing is appended; and however often the release function is called then, the loan is
  -- gone and the lock is given back once.
  pub held_apply-loan :
      (expired : Bool) (log : Log) (id : String) (txn : Transaction) (h : HeldLock) (n : ℕ)
      (f : Node) {g u : Node}
      → log.command ≡ true
      → unmarshal log.content ≡ some (record { id = id; transaction = some txn })
      → begin_held_apply A unmarshal expired id f ≡ (some h, g)
      → apply A unmarshal log g ≡ returned u
      → let w = release_times (suc n) false id h u in
        (A.acquire expired f.appender ≡ (some h, g.appender))
        × ((Consumed id g.markers u.markers × (u.appender ≡ g.appender))
            ⊎ (NotPending id g.markers
                × (A.append_under_lock h (frames txn) g.appender ≡ appended none u.appender)))
        × (w.appender ≡ A.release h u.appender)
        × (w.loans id ≡ none)
  unfolding begin_held_apply release_held
  held_apply-loan expired log id txn h n f {g} {u} command decoded e d =
      let (got, loaned) = begin_held_apply_lem expired id h f e in
      let at : g.loans id ≡ some h =
        ap (λ (m : StringMap HeldLock). m id) loaned ∙ update_self f.loans id (some h) in
      let v = (apply-once log id txn g command decoded).0 u d in
      let back =
        released_once n id h
          (record u { loans = update u.loans id none; appender = A.release h u.appender }) in
      (
        got,
        elim v.once [
          | inl c ↦ inl c
          | inr (old, answer, kept) ↦ inr (old, under_loan id txn g h at ∙ answer)
        ],
        ap (λ (w : Node). w.appender) back,
        ap (λ (w : Node). w.loans id) back ∙ update_self u.loans id none,
      )
