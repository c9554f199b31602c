-- ===== src/Forward/Delegation.antt =====
-- cmd/literaft/forward/transport.go between the gates of two nodes: internal/gate/gate.go asks the
-- leader through it, and its handler answers there.
use Prim.Native.String.{String}
use literaft.Base.{ℕ, ◌≡◌, refl, sym, ap, ◌∙◌, true, Option, none, some, List, ◌⊎◌, inl, inr}
use literaft.Errors.{Error}
use literaft.Gate.Messages.{LeaderRequest, LeaderResponse}
use literaft.Gate.Environment as Gate
use literaft.Gate.Environment.{World}
use literaft.Gate.Requests.{handle_request}
use literaft.Gate.Retry.{refuses, settled, unsettled}
use literaft.Gate.Handler.{refusal_honest}
use literaft.Forward.{Event, Network, Transport, Proposed, answered, failed, panicked, propose}
use literaft.Forward.Connections.{IsValid}
use literaft.Forward.Delivery.{sends, receiver, GrpcLaws, delivered_once}

-- What the gate gets of a proposal that returns.
abbrev pub reply : Proposed → Option (Error ⊎ LeaderResponse)
reply (answered res) = some (inr res)
reply (failed err) = some (inl err)
reply panicked = none

module _ (net : Network) (served : ℕ → Transport) (laws : GrpcLaws net served) where
  -- Every server runs the gate's handler of its node `c`, in the node's history.
  module _ (world : ℕ → World) (history : ℕ → List Gate.Event)
      (handlers : (c : ℕ)
        → (served c).handler ≡ some (λ q. (handle_request (world c) q (history c)).0)) where
    -- If what the gate gets of a proposal tells it that the write did not happen, either nothing was
    -- handed to gRPC, or the node that answered has not brought the write into its raft log.
    pub settled_unlogged :
        (leader : String) (req : LeaderRequest) (t : Transport) (ev : List Event)
        (got : Error ⊎ LeaderResponse)
        → IsValid t
        → reply (propose net leader req t ev).0 ≡ some got
        → settled got ≡ true
        → (sends (propose net leader req t ev).2 ≡ sends ev)
          ⊎ ((c : ℕ) × (receiver (propose net leader req t ev).2 ≡ some c)
              × (unsettled (handle_request (world c) req (history c)).1 ≡ unsettled (history c)))
    settled_unlogged leader req t ev got v e s = by_reply (propose net leader req t ev).0 refl e
      where
        by_reply :
            (r : Proposed)
            → (propose net leader req t ev).0 ≡ r
            → reply r ≡ some got
            → (sends (propose net leader req t ev).2 ≡ sends ev)
              ⊎ ((c : ℕ) × (receiver (propose net leader req t ev).2 ≡ some c)
                  × (unsettled (handle_request (world c) req (history c)).1
                      ≡ unsettled (history c)))
        by_reply panicked at k = absurd (cc (k))
        by_reply (failed err) at k =
            let same : inl err ≡ got = cc (k) in
            inl ((delivered_once net served laws leader req t ev v).0 err at (ap settled same ∙ s))
        by_reply (answered res) at k =
            let same : inr res ≡ got = cc (k) in
            let (more, (c, h, to, is, made)) =
              (delivered_once net served laws leader req t ev v).1 res at in
            let handler : h ≡ (λ q. (handle_request (world c) q (history c)).0) =
              cc (is, handlers c) in
            let says : res ≡ (handle_request (world c) req (history c)).0 =
              made ∙ ap (λ (g : LeaderRequest → LeaderResponse). g req) handler in
            inr (
              c,
              to,
              refusal_honest (world c) req (history c) (
                  ap (λ (x : LeaderResponse). refuses x.status) (sym says) ∙ (ap settled same ∙ s)),
            )
