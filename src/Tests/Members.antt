-- ===== src/Tests/Members.antt =====
-- cmd/literaft/membership: a node that joins through a follower, which learns of the leader late.
use Prim.Native.String.{String}
use text.Mathlib.Text.{◌==◌ as str_eq}
use literaft.Base.{
  ◌≡◌, refl, Bool, true, false, none, some, List, [], ◌∷◌, ◌⊎◌, length, ltb, if◌then◌else◌,
}
use literaft.Membership.{
  Status, unavailable, internal, other_code, add_voter, Event, dialed, hung_up, voter_added,
  Cluster, dial_failed, call_failed, leader_client, change, serve, call, attempted, join_loop, join,
  leave,
}
use literaft.Membership.Closing.{Balanced}
use literaft.Membership.Joining.{Ends, join-Ends}

abbrev no_reply : Status
no_reply = record { code = unavailable; text = "connection closed" }

-- "n2" leads; "n1" knows it once `known` says so, and loses the reply at an event count that `lossy`
-- picks.
abbrev cluster : (List Event → Bool) → (List Event → Bool) → Cluster
cluster known lossy = record {
  is_leader = λ ev node. str_eq node "n2";
  leader_addr = λ ev node. if known ev then "n2" else "";
  raft_add_voter = λ ev node id address. none;
  raft_remove_server = λ ev node id. some "no such server";
  new_client = λ ev addr. if str_eq addr "bad" then some "bad address" else none;
  undelivered = λ ev node. none;
  reply_lost = λ ev node. if lossy ev then some no_reply else none;
  deadline = record { code = other_code 4; text = "context deadline exceeded" };
}

abbrev settled : Cluster
settled = cluster (λ ev. true) (λ ev. false)

-- The reply of the first call is lost behind raft's answer, so that the node is added twice.
abbrev lossy : Cluster
lossy = cluster (λ ev. true) (λ ev. ltb (length ev) 5)

abbrev leaderless : Cluster
leaderless = cluster (λ ev. false) (λ ev. false)

joins_through_follower : join settled 3 3 "n1" "n3" "addr3" [] ≡ (
  none,
  hung_up "n1" ∷ hung_up "n2" ∷ voter_added "n2" "n3" "addr3" none ∷ dialed "n2" ∷ dialed "n1" ∷ [],
)
unfolding join join_loop attempted call serve leader_client change
joins_through_follower = refl

joins_after_lost_reply : (join lossy 3 3 "n2" "n3" "addr3" []).0 ≡ none
unfolding join join_loop attempted call serve leader_client change
joins_after_lost_reply = refl

-- Nobody leads: every attempt is Unavailable, until the context is done.
times_out_without_leader : length (join leaderless 3 3 "n1" "n3" "addr3" []).1 ≡ 2
unfolding join join_loop attempted call serve leader_client change
times_out_without_leader = refl

leave_is_refused :
    (leave settled 2 "n1" "n3" []).0
    ≡ some (call_failed (record { code = internal; text = "remove voter n3: no such server" }))
unfolding leave call serve leader_client change
leave_is_refused = refl

join-Ends_example :
    let out = join lossy 3 3 "n1" "n3" "addr3" [] in
    Balanced [] out.1
    × (((e : String) × (out ≡ (some (dial_failed e), [])))
        ⊎ Ends lossy (add_voter "n3" "addr3") [] out.0 out.1)
join-Ends_example = join-Ends lossy 3 3 "n1" "n3" "addr3" []
