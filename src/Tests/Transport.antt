-- ===== src/Tests/Transport.antt =====
-- cmd/literaft/forward/transport.go between two nodes, on a network that only carries requests without an
-- entry and the refusal that the leader gives to them.
use Prim.Native.String.{String}
use text.Mathlib.Text.{◌==◌ as str_eq}
use text.Mathlib.TextEquality.{eq_iff}
use literaft.Base.{
  ℕ, ◌≡◌, ◌≢◌, refl, sym, ap, Bool, true, false, ◌&&◌, none, some, List, [], ◌∷◌, ◌⊎◌, inl, inr,
  ◌==◌, if◌then◌else◌, arith, Bool-cases, Option-cases,
}
use literaft.Errors.{Error, as_not_applied, message}
use literaft.Gate.Messages.{
  Status, status_unspecified, status_ok, status_not_leader, status_stale_base, status_catching_up,
  status_busy, status_ambiguous, status_other, LeaderRequest, LeaderResponse, response,
  status_invalid,
}
use literaft.Gate.Requests.{handle_request, validate_request, validate_transaction}
use literaft.Gate.Retry.{unsettled}
use literaft.Forward.{
  Network, Transport, answered, failed, panicked, RpcError, conn, dial, keep, propose, transmit,
  with_conn, decode_response, serve, encode_response, new,
}
use literaft.Forward.Connections.{closes, proposes, run, propose_never_panics}
use literaft.Forward.Delivery.{GrpcLaws, sends, receiver, delivered_once}
use literaft.Forward.Delegation.{settled_unlogged}
use literaft.Tests.Proposals.{leader_world}

abbrev detail : String
detail = "forwarded entry has no transaction payload"

abbrev encode_request : LeaderRequest → String ⊎ List ℕ
encode_request req = elim req.entry [
  | some e ↦ inl "too large"
  | none ↦ inr (req.last_applied_index ∷ [])
]

abbrev decode_request : List ℕ → String ⊎ LeaderRequest
decode_request [] = inl "empty"
decode_request (n ∷ rest) = inr (record { last_applied_index = n; entry = none })

abbrev is_invalid : Status → Bool
is_invalid status_invalid = true
is_invalid s = false

abbrev is_refusal : LeaderResponse → Bool
is_refusal res =
    is_invalid res.status
    && str_eq res.leader_addr ""
    && res.last_applied_index == 0
    && str_eq res.detail detail

abbrev refusal : LeaderResponse
refusal = response status_invalid detail

abbrev encode_refusal : LeaderResponse → String ⊎ List ℕ
encode_refusal res = if is_refusal res then inr (7 ∷ []) else inl "another response"

abbrev offline : Network
offline = record {
  resolve = λ leader. leader;
  new_client = λ ev addr. inr 3;
  close_client = λ c. none;
  marshal_request = encode_request;
  unmarshal_request = decode_request;
  marshal_response = encode_refusal;
  unmarshal_response = λ p. inr refusal;
  call = λ ev c p. inl "offline";
}

abbrev leader_node : ℕ → Transport
leader_node c = record new { handler = some (λ q. (handle_request leader_world q []).0) }

abbrev carried : RpcError ⊎ List ℕ → String ⊎ List ℕ
carried (inl e) = inl "rpc error"
carried (inr q) = inr q

abbrev online : Network
online = record offline { call = λ ev c p. carried (serve offline (leader_node c) p) }

is_invalid_eq : (s : Status) → is_invalid s ≡ true → s ≡ status_invalid
is_invalid_eq status_unspecified h = absurd (cc (h))
is_invalid_eq status_ok h = absurd (cc (h))
is_invalid_eq status_not_leader h = absurd (cc (h))
is_invalid_eq status_stale_base h = absurd (cc (h))
is_invalid_eq status_catching_up h = absurd (cc (h))
is_invalid_eq status_busy h = absurd (cc (h))
is_invalid_eq status_ambiguous h = absurd (cc (h))
is_invalid_eq status_invalid h = refl
is_invalid_eq (status_other n) h = absurd (cc (h))

request_back :
    (req : LeaderRequest) (p : List ℕ) → encode_request req ≡ inr p → decode_request p ≡ inr req
request_back req p h = elim (Option-cases req.entry) [
  | inr (e, k) ↦ absurd (cc (rw k at h))
  | inl k ↦
      let same : req.last_applied_index ∷ [] ≡ p = cc (rw k at h) in
      rw (← same)
        (λ i. inr (record { last_applied_index = req.last_applied_index; entry = sym k i }))
]

carried_back : (r : RpcError ⊎ List ℕ) (q : List ℕ) → carried r ≡ inr q → r ≡ inr q
carried_back (inl e) q h = absurd (cc (h))
carried_back (inr p) q h = cc (h)

and_left : (a b : Bool) → (a && b) ≡ true → (a ≡ true) × (b ≡ true)
and_left true b h = (refl, h)
and_left false b h = absurd (cc (h))

is_refusal_eq : (res : LeaderResponse) → is_refusal res ≡ true → refusal ≡ res
is_refusal_eq res h =
    let a = and_left _ (str_eq res.detail detail) h in
    let b = and_left _ (res.last_applied_index == 0) a.0 in
    let c = and_left (is_invalid res.status) (str_eq res.leader_addr "") b.0 in
    let status = is_invalid_eq res.status c.0 in
    let leader : res.leader_addr ≡ "" = (eq_iff res.leader_addr "").0 c.1 in
    let index : res.last_applied_index ≡ 0 = ground (arith, b.1) in
    let text : res.detail ≡ detail = (eq_iff res.detail detail).0 a.1 in
    λ i. record {
      status = sym status i;
      leader_addr = sym leader i;
      last_applied_index = sym index i;
      detail = sym text i;
    }

refusal_back :
    (res : LeaderResponse) (p : List ℕ)
    → encode_refusal res ≡ inr p
    → ◌≡◌ {A = String ⊎ LeaderResponse} (inr refusal) (inr res)
refusal_back res p h = elim (Bool-cases (is_refusal res)) [
  | inl k ↦ ap inr (is_refusal_eq res k)
  | inr k ↦ absurd (cc (rw k at h))
]

online-GrpcLaws : GrpcLaws online leader_node
unfolding serve
online-GrpcLaws = record {
  request_trip = request_back;
  response_trip = refusal_back;
  delivered = λ ev c p q h. carried_back (serve offline (leader_node c) p) q h;
}

abbrev a_request : LeaderRequest
a_request = record { last_applied_index = 4; entry = none }

delivered_once_example :
    let out = propose online "n1" a_request new [] in
    ((err : Error) → out.0 ≡ failed err → as_not_applied err ≡ true → sends out.2 ≡ 0)
    × ((res : LeaderResponse)
        → out.0 ≡ answered res
        → (sends out.2 ≡ 1)
          × ((c : ℕ) × (h : LeaderRequest → LeaderResponse) × (receiver out.2 ≡ some c)
              × ((leader_node c).handler ≡ some h)
              × (res ≡ h a_request)))
delivered_once_example =
    delivered_once online leader_node online-GrpcLaws "n1" a_request new [] (λ e. (_, refl))

settled_unlogged_example :
    (sends (propose online "n1" a_request new []).2 ≡ 0)
    ⊎ ((c : ℕ) × (receiver (propose online "n1" a_request new []).2 ≡ some c)
        × (unsettled (handle_request leader_world a_request []).1 ≡ 0))
unfolding propose conn dial keep with_conn transmit decode_response serve encode_response
    handle_request validate_request validate_transaction message
settled_unlogged_example =
    settled_unlogged online leader_node online-GrpcLaws (λ c. leader_world) (λ c. []) (λ c. refl)
      "n1" a_request new [] (inr refusal) (λ e. (_, refl)) refl refl

propose_never_panics_example :
    let s = run offline (proposes "n1" a_request ∷ closes ∷ []) new [] in
    ((propose offline "n1" a_request s.0 s.1).0 ≢ panicked)
    × (s.0.closed ≡ true
        → (err : Error) × ((propose offline "n1" a_request s.0 s.1).0 ≡ failed err)
          × (as_not_applied err ≡ true))
propose_never_panics_example =
    propose_never_panics offline (proposes "n1" a_request ∷ closes ∷ []) "n1" a_request
