-- ===== src/Forward/Connections.antt =====
-- cmd/literaft/forward/transport.go: the clients that a transport keeps, and Close.
use Prim.Native.String.{String}
use literaft.Base.{
  ◌≡◌, ◌≢◌, refl, true, false, some, Option-cases, Bool-cases, Sum-cases, List, [], ◌∷◌, inl, inr,
}
use literaft.Errors.{Error, plain, not_applied_by, as_not_applied}
use literaft.Gate.Messages.{LeaderRequest, LeaderResponse}
use literaft.Forward.{
  Event, Network, Conns, Transport, new, handle, cached_in, Conn, connected, refused, conn_panicked,
  keep, failed, panicked, dial, conn, transmit, with_conn, decode_response, propose, close,
}

-- The map of clients is there as long as the transport is open.
abbrev pub IsValid : Transport → Type 0
IsValid t = t.closed ≡ false → (l : Conns) × (t.conns ≡ some l)

-- What goroutines do with a transport, under its lock one after the other.
pub data Op : Type 0 where
  proposes : String → LeaderRequest → Op
  handles : (LeaderRequest → LeaderResponse) → Op
  closes : Op

module _ (net : Network) where
  unfoldable pub step : Op → Transport → List Event → Transport × List Event
  step (proposes leader req) t ev = let (r, t', ev') = propose net leader req t ev in (t', ev')
  step (handles h) t ev = (handle h t, ev)
  step closes t ev = let (errs, t', ev') = close net t in (t', ev')

  unfoldable pub run : List Op → Transport → List Event → Transport × List Event
  unfolding step
  run [] t ev = (t, ev)
  run (op ∷ ops) t ev = let (t', ev') = step op t ev in run ops t' ev'

  -- `conn` returns and keeps the map, or fails.
  pub record Connects (addr : String) (t : Transport) (ev : List Event) : Type 0 where
    pub whole : (conn net addr t ev).0 ≢ conn_panicked
    pub valid : IsValid (conn net addr t ev).1

  pub conn-Connects :
      (addr : String) (t : Transport) (ev : List Event) → IsValid t → Connects addr t ev
  unfolding conn dial keep
  conn-Connects addr t ev v = elim (Bool-cases t.closed) [
    | inl c ↦ record {
      whole = λ e. absurd (cc (rw (c, conn) at e));
      valid = rw (c, conn) (λ e. absurd (cc (e)));
    }
    | inr c ↦ elim (Option-cases (cached_in t.conns addr)) [
      | inr (k, h) ↦ record {
        whole = λ e. absurd (cc (rw (c, h, conn) at e));
        valid = rw (c, h, conn) (λ e. v c);
      }
      | inl h ↦ elim (Sum-cases (net.new_client ev addr)) [
        | inl (x, n) ↦ record {
          whole = λ e. absurd (cc (rw (c, h, n, conn, dial) at e));
          valid = rw (c, h, n, conn, dial) (λ e. v c);
        }
        | inr (k, n) ↦
            let (l, is) = v c in
            record {
              whole = λ e. absurd (cc (rw (c, h, n, is, conn, dial, keep) at e));
              valid = rw (c, h, n, is, conn, dial, keep) (λ o. ((addr, k) ∷ l, refl));
            }
      ]
    ]
  ]

  with_conn-whole :
      (req : LeaderRequest) (got : Conn) (ev : List Event)
      → got ≢ conn_panicked
      → (with_conn net req got ev).0 ≢ panicked
  unfolding with_conn transmit decode_response
  with_conn-whole req (refused e) ev ne z = absurd (cc (z))
  with_conn-whole req conn_panicked ev ne z = absurd (ne refl)
  with_conn-whole req (connected c) ev ne z = elim (Sum-cases (net.marshal_request req)) [
    | inl (e, k) ↦ absurd (cc (rw (k, with_conn) at z))
    | inr (p, k) ↦ elim (Sum-cases (net.call ev c p)) [
      | inl (e, n) ↦ absurd (cc (rw (k, n, with_conn, decode_response) at z))
      | inr (q, n) ↦ elim (Sum-cases (net.unmarshal_response q)) [
        | inl (e, w) ↦ absurd (cc (rw (k, n, w, with_conn, decode_response) at z))
        | inr (r, w) ↦ absurd (cc (rw (k, n, w, with_conn, decode_response) at z))
      ]
    ]
  ]

  step-IsValid : (op : Op) (t : Transport) (ev : List Event) → IsValid t → IsValid (step op t ev).0
  unfolding step propose handle close
  step-IsValid (proposes leader req) t ev v = (conn-Connects (net.resolve leader) t ev v).valid
  step-IsValid (handles h) t ev v = v
  step-IsValid closes t ev v = λ e. absurd (cc (e))

  run-IsValid :
      (ops : List Op) (t : Transport) (ev : List Event) → IsValid t → IsValid (run ops t ev).0
  unfolding run
  run-IsValid [] t ev v = v
  run-IsValid (op ∷ ops) t ev v = run-IsValid ops (step op t ev).0 _ (step-IsValid op t ev v)

  -- A transport that has proposed, been given handlers and been closed, in any order and number, never
  -- panics on a nil map: every proposal is answered or fails. If it is closed, the proposal fails
  -- as one that was not delivered.
  pub propose_never_panics :
      (ops : List Op) (leader : String) (req : LeaderRequest)
      → let s = run ops new [] in
        ((propose net leader req s.0 s.1).0 ≢ panicked)
        × (s.0.closed ≡ true
            → (err : Error) × ((propose net leader req s.0 s.1).0 ≡ failed err)
              × (as_not_applied err ≡ true))
  unfolding propose conn with_conn as_not_applied
  propose_never_panics ops leader req =
      let s = run ops new [] in
      let v = run-IsValid ops new [] (λ e. ([], refl)) in
      let c = conn-Connects (net.resolve leader) s.0 s.1 v in
      (
        with_conn-whole req (conn net (net.resolve leader) s.0 s.1).0 _ c.whole,
        λ shut. (
          not_applied_by "forward request not delivered to the leader"
              (plain "forward transport closed"),
          rw (shut, conn) refl,
          refl,
        ),
      )
