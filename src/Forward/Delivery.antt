-- ===== src/Forward/Delivery.antt =====
-- cmd/literaft/forward/transport.go: what a proposal's answer says of its delivery.
use Prim.Native.String.{String}
use literaft.Base.{
  ℕ, suc, ◌≡◌, ◌≢◌, refl, sym, ◌∙◌, true, false, Option, none, some, Option-cases, Bool-cases,
  Sum-cases, List, [], ◌∷◌, inl, inr, arith,
}
use literaft.Errors.{Error, as_not_applied}
use literaft.Gate.Messages.{LeaderRequest, LeaderResponse}
use literaft.Forward.Connections.{IsValid, conn-Connects}
use literaft.Forward.{
  Event, dialed, sent, closed_client, Network, Transport, cached_in, Conn, connected, refused,
  conn_panicked, Proposed, failed, answered, dial, conn, transmit, with_conn, decode_response,
  propose, serve, encode_response,
}

-- How many payloads have been given to gRPC to send.
abbrev pub sends : List Event → ℕ
sends [] = 0
sends (sent c payload r ∷ ev) = suc (sends ev)
sends (dialed addr c ∷ ev) = sends ev
sends (closed_client c ∷ ev) = sends ev

-- The client that the last payload went to.
abbrev pub receiver : List Event → Option ℕ
receiver [] = none
receiver (sent c payload r ∷ ev) = some c
receiver (dialed addr c ∷ ev) = receiver ev
receiver (closed_client c ∷ ev) = receiver ev

-- What the libraries promise: messages survive their encoding, and a call that returns without
-- an error returns what the server at the other end answered to the payload.
pub record GrpcLaws (net : Network) (served : ℕ → Transport) : Type 0 where
  pub request_trip :
      (req : LeaderRequest) (p : List ℕ)
      → net.marshal_request req ≡ inr p
      → net.unmarshal_request p ≡ inr req
  pub response_trip :
      (res : LeaderResponse) (p : List ℕ)
      → net.marshal_response res ≡ inr p
      → net.unmarshal_response p ≡ inr res
  pub delivered :
      (ev : List Event) (c : ℕ) (p q : List ℕ)
      → net.call ev c p ≡ inr q
      → serve net (served c) p ≡ inr q

module _ (net : Network) where
  conn-sends :
      (addr : String) (t : Transport) (ev : List Event) → sends (conn net addr t ev).2 ≡ sends ev
  unfolding conn dial
  conn-sends addr t ev = elim (Bool-cases t.closed) [
    | inl c ↦ rw (c, conn)
    | inr c ↦ elim (Option-cases (cached_in t.conns addr)) [
      | inr (k, h) ↦ rw (c, h, conn)
      | inl h ↦ elim (Sum-cases (net.new_client ev addr)) [
        | inl (x, n) ↦ rw (c, h, n, conn, dial)
        | inr (k, n) ↦ rw (c, h, n, conn, dial)
      ]
    ]
  ]

  -- The ends of a proposal that has a client, or has none.
  pub data Ends (req : LeaderRequest) (before : List Event) : Proposed → List Event → Type 0 where
    unsent :
        (err : Error) (ev : List Event) → sends ev ≡ sends before → Ends req before (failed err) ev
    lost :
        (err : Error) (ev : List Event)
        → as_not_applied err ≡ false
        → sends ev ≡ suc (sends before)
        → Ends req before (failed err) ev
    served_by :
        (res : LeaderResponse) (ev : List Event) (c : ℕ) (p q : List ℕ)
        → net.marshal_request req ≡ inr p
        → net.call before c p ≡ inr q
        → net.unmarshal_response q ≡ inr res
        → sends ev ≡ suc (sends before)
        → receiver ev ≡ some c
        → Ends req before (answered res) ev

  with_conn-Ends :
      (req : LeaderRequest) (got : Conn) (ev : List Event)
      → got ≢ conn_panicked
      → Ends req ev (with_conn net req got ev).0 (with_conn net req got ev).1
  unfolding with_conn transmit decode_response as_not_applied
  with_conn-Ends req (refused e) ev ne = unsent _ ev refl
  with_conn-Ends req conn_panicked ev ne = absurd (ne refl)
  with_conn-Ends req (connected c) ev ne = elim (Sum-cases (net.marshal_request req)) [
    | inl (e, k) ↦ rw (k, with_conn) (unsent _ ev refl)
    | inr (p, k) ↦ elim (Sum-cases (net.call ev c p)) [
      | inl (e, n) ↦ rw (k, n, with_conn, decode_response) (lost _ _ refl refl)
      | inr (q, n) ↦ elim (Sum-cases (net.unmarshal_response q)) [
        | inl (e, w) ↦ rw (k, n, w, with_conn, decode_response) (lost _ _ refl refl)
        | inr (r, w) ↦
            rw (k, n, w, with_conn, decode_response) (served_by r _ c p q k n w refl refl)
      ]
    ]
  ]

  module _ (served : ℕ → Transport) (laws : GrpcLaws net served) where
    handler_answers :
        (req : LeaderRequest) (res : LeaderResponse) (c : ℕ) (p q : List ℕ)
        → net.marshal_request req ≡ inr p
        → serve net (served c) p ≡ inr q
        → net.unmarshal_response q ≡ inr res
        → (h : LeaderRequest → LeaderResponse) × ((served c).handler ≡ some h) × (res ≡ h req)
    unfolding serve encode_response
    handler_answers req res c p q m s u = elim (Option-cases (served c).handler) [
      | inl k ↦ absurd (cc (rw (k, serve) at s))
      | inr (h, k) ↦
          let back = laws.request_trip req p m in
          elim (Sum-cases (net.marshal_response (h req))) [
            | inl (e, n) ↦ absurd (cc (rw (k, back, n, serve, encode_response) at s))
            | inr (p', n) ↦
                let same : p' ≡ q = cc (rw (k, back, n, serve, encode_response) at s) in
                let trip = laws.response_trip (h req) p' n in (h, k, cc (trip, u, same))
          ]
    ]

    -- A proposal that fails as not applied was not handed to gRPC. A proposal that is answered was
    -- handed to it once, and the answer is what the handler of the node there says to the request.
    pub delivered_once :
        (leader : String) (req : LeaderRequest) (t : Transport) (ev : List Event)
        → IsValid t
        → let out = propose net leader req t ev in
          ((err : Error) → out.0 ≡ failed err → as_not_applied err ≡ true → sends out.2 ≡ sends ev)
          × ((res : LeaderResponse)
              → out.0 ≡ answered res
              → (sends out.2 ≡ suc (sends ev))
                × ((c : ℕ) × (h : LeaderRequest → LeaderResponse) × (receiver out.2 ≡ some c)
                    × ((served c).handler ≡ some h)
                    × (res ≡ h req)))
    unfolding propose
    delivered_once leader req t ev v =
        let got = conn net (net.resolve leader) t ev in
        let same = conn-sends (net.resolve leader) t ev in
        ends req got.2 _ _
          (with_conn-Ends req got.0 got.2 (conn-Connects net (net.resolve leader) t ev v).whole)
          same
      where
        ends :
            (req : LeaderRequest) (before : List Event) (r : Proposed) (after : List Event)
            → Ends req before r after
            → sends before ≡ sends ev
            → ((err : Error) → r ≡ failed err → as_not_applied err ≡ true → sends after ≡ sends ev)
              × ((res : LeaderResponse)
                  → r ≡ answered res
                  → (sends after ≡ suc (sends ev))
                    × ((c : ℕ) × (h : LeaderRequest → LeaderResponse) × (receiver after ≡ some c)
                        × ((served c).handler ≡ some h)
                        × (res ≡ h req)))
        ends req before r after (unsent err ev' kept) same =
            (λ e eq safe. kept ∙ same, λ res eq. absurd (cc (eq)))
        ends req before r after (lost err ev' unsafe more) same =
            (λ e eq safe. absurd (cc (eq, safe, unsafe)), λ res eq. absurd (cc (eq)))
        ends req before r after (served_by res ev' c p q m k u more at) same = (
          λ e eq safe. absurd (cc (eq)),
          λ res' eq.
              let same_res : res ≡ res' = cc (eq) in
              let (h, is, made) =
                handler_answers req res c p q m (laws.delivered before c p q k) u in
              (omega (arith, more, same), (c, h, at, is, sym same_res ∙ made)),
        )
