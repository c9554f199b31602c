-- ===== src/Forward.antt =====
-- cmd/literaft/forward/transport.go: the gRPC transport that carries a follower's write to the leader.
-- The gRPC library and the generated protobuf code are a Network.
pub mod Delivery
pub mod Connections
pub mod Delegation
use Prim.Native.String.{String, ◌++◌ as str_append}
use text.Mathlib.Text.{◌==◌ as str_eq}
use literaft.Base.{
  ℕ, Bool, true, false, Option, none, some, List, [], ◌∷◌, ◌⊎◌, inl, inr, if◌then◌else◌,
}
use literaft.Errors.{Error, plain, wrapped, not_applied_by}
use literaft.Gate.Messages.{LeaderRequest, LeaderResponse}

-- What the transport does on the network: a client is created, a payload is sent and answered, a
-- client is closed.
pub data Event : Type 0 where
  dialed : String → ℕ → Event
  sent : ℕ → List ℕ → String ⊎ List ℕ → Event
  closed_client : ℕ → Event

-- A ClientConn is a number. Answers may depend on what happened before.
pub record Network : Type 0 where
  pub resolve : String → String
  pub new_client : List Event → String → String ⊎ ℕ
  pub close_client : ℕ → Option String
  pub marshal_request : LeaderRequest → String ⊎ List ℕ
  pub unmarshal_request : List ℕ → String ⊎ LeaderRequest
  pub marshal_response : LeaderResponse → String ⊎ List ℕ
  pub unmarshal_response : List ℕ → String ⊎ LeaderResponse
  pub call : List Event → ℕ → List ℕ → String ⊎ List ℕ

abbrev pub Conns : Type 0
Conns = List (String × ℕ)

-- `conns` is nil (`none`) behind Close.
pub record Transport : Type 0 where
  pub handler : Option (LeaderRequest → LeaderResponse)
  pub conns : Option Conns
  pub closed : Bool

abbrev pub new : Transport
new = record { handler = none; conns = some []; closed = false }

unfoldable pub handle : (LeaderRequest → LeaderResponse) → Transport → Transport
handle h t = record t { handler = some h }

abbrev pub cached : Conns → String → Option ℕ
cached [] addr = none
cached ((a, c) ∷ l) addr = if str_eq addr a then some c else cached l addr

-- A read of a nil map finds nothing.
abbrev pub cached_in : Option Conns → String → Option ℕ
cached_in none addr = none
cached_in (some l) addr = cached l addr

-- The client or the error of `conn`, or the panic of a write to a nil map.
pub data Conn : Type 0 where
  connected : ℕ → Conn
  refused : Error → Conn
  conn_panicked : Conn

-- The end of `conn`, where the new client is kept.
unfoldable pub keep : String → ℕ → Option Conns → Transport → Conn × Transport
keep addr c none t = (conn_panicked, t)
keep addr c (some l) t = (connected c, record t { conns = some ((addr, c) ∷ l) })

pub data Proposed : Type 0 where
  answered : LeaderResponse → Proposed
  failed : Error → Proposed
  panicked : Proposed

-- The codes that the server answers with.
pub data RpcError : Type 0 where
  unavailable invalid_argument internal : String → RpcError

module _ (net : Network) where
  unfoldable pub dial : String → Transport → List Event → Conn × Transport × List Event
  unfolding keep
  dial addr t ev = elim (net.new_client ev addr) [
    | inl e ↦ (refused (wrapped (str_append "dial forward target " addr) (plain e)), t, ev)
    | inr c ↦ let (r, t') = keep addr c t.conns t in (r, t', dialed addr c ∷ ev)
  ]

  unfoldable pub conn : String → Transport → List Event → Conn × Transport × List Event
  unfolding dial
  conn addr t ev =
      if t.closed
      then (refused (plain "forward transport closed"), t, ev)
      else elim (cached_in t.conns addr) [ some c ↦ (connected c, t, ev) | none ↦ dial addr t ev ]

  unfoldable pub decode_response : String ⊎ List ℕ → Proposed
  decode_response (inl e) = failed (plain e)
  decode_response (inr payload) = elim (net.unmarshal_response payload) [
    | inl e ↦ failed (wrapped "unmarshal forward response" (plain e))
    | inr res ↦ answered res
  ]

  unfoldable pub transmit : ℕ → String ⊎ List ℕ → List Event → Proposed × List Event
  unfolding decode_response
  transmit c (inl e) ev = (failed (wrapped "marshal forward request" (plain e)), ev)
  transmit c (inr payload) ev =
      let r = net.call ev c payload in (decode_response r, sent c payload r ∷ ev)

  unfoldable pub with_conn : LeaderRequest → Conn → List Event → Proposed × List Event
  unfolding transmit
  with_conn req (refused e) ev =
      (failed (not_applied_by "forward request not delivered to the leader" e), ev)
  with_conn req conn_panicked ev = (panicked, ev)
  with_conn req (connected c) ev = transmit c (net.marshal_request req) ev

  unfoldable pub propose :
      String → LeaderRequest → Transport → List Event → Proposed × Transport × List Event
  unfolding conn with_conn
  propose leader req t ev =
      let (got, t', ev') = conn (net.resolve leader) t ev in
      let (r, ev'') = with_conn req got ev' in (r, t', ev'')

  -- Close: every client is closed, and the errors of all of them are joined.
  unfoldable pub close_all : Conns → List String × List Event
  close_all [] = ([], [])
  close_all ((addr, c) ∷ l) =
      let (errs, ev) = close_all l in
      (elim (net.close_client c) [ none ↦ errs | some e ↦ e ∷ errs ], closed_client c ∷ ev)

  abbrev clients : Option Conns → Conns
  clients none = []
  clients (some l) = l

  unfoldable pub close : Transport → List String × Transport × List Event
  unfolding close_all
  close t =
      let (errs, ev) = close_all (clients t.conns) in
      (errs, record t { conns = none; closed = true }, ev)

  unfoldable pub encode_response : LeaderResponse → RpcError ⊎ List ℕ
  encode_response res = elim (net.marshal_response res) [
    | inl e ↦ inl (internal (str_append "marshal forward response: " e))
    | inr payload ↦ inr payload
  ]

  -- server.Propose: what a node answers to a payload.
  unfoldable pub serve : Transport → List ℕ → RpcError ⊎ List ℕ
  unfolding encode_response
  serve t payload = elim t.handler [
    | none ↦ inl (unavailable "forward handler not registered")
    | some h ↦ elim (net.unmarshal_request payload) [
      | inl e ↦ inl (invalid_argument (str_append "unmarshal forward request: " e))
      | inr req ↦ encode_response (h req)
    ]
  ]
