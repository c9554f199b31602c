-- ===== src/Membership.antt =====
-- cmd/literaft/membership/membership.go and client.go: a change to the voters of the cluster, asked of
-- any member and forwarded to the leader. A context is the number of calls (`hops`) and of waits
-- that it leaves before it is done.
pub mod Closing
pub mod Joining
use Prim.Native.String.{String, ◌++◌ as str_append}
use text.Mathlib.Text.{◌==◌ as str_eq}
use literaft.Base.{
  if◌then◌else◌, ℕ, zero, suc, Bool, true, false, Option, none, some, List, [], ◌∷◌, ◌⊎◌, inl, inr,
}

pub data Code : Type 0 where
  unavailable : Code
  internal : Code
  other_code : ℕ → Code

-- A gRPC status that is an error.
pub record Status : Type 0 where
  pub code : Code
  pub text : String

abbrev pub is_unavailable : Status → Bool
is_unavailable s = elim s.code [ unavailable ↦ true | internal ↦ false | other_code n ↦ false ]

pub data Request : Type 0 where
  add_voter : String → String → Request
  remove_voter : String → Request

-- Connections, and the configuration changes that a node hands to raft, with raft's answer.
pub data Event : Type 0 where
  dialed : String → Event
  hung_up : String → Event
  voter_added : String → String → String → Option String → Event
  server_removed : String → String → Option String → Event

-- raft and gRPC. What they answer may depend on what happened before. A call may fail before it
-- reaches the server, by its deadline for one, and its reply may be lost.
pub record Cluster : Type 0 where
  pub is_leader : List Event → String → Bool
  pub leader_addr : List Event → String → String
  pub raft_add_voter : List Event → String → String → String → Option String
  pub raft_remove_server : List Event → String → String → Option String
  pub new_client : List Event → String → Option String
  pub undelivered : List Event → String → Option Status
  pub reply_lost : List Event → String → Option Status
  pub deadline : Status

-- What a call returns: no error, or a status.
abbrev pub Reply : Type 0
Reply = Option Status × List Event

abbrev pub change_status : String → String → Option String → Option Status
change_status what id none = none
change_status what id (some e) =
    some (record { code = internal; text = str_append what (str_append id (str_append ": " e)) })

abbrev pub dial_text : String → String → String
dial_text addr e = str_append "dial leader " (str_append addr (str_append ": " e))

-- The reply as the caller sees it.
abbrev pub received : Option Status → Option Status → Option Status
received none r = r
received (some lost) r = some lost

pub data JoinError : Type 0 where
  dial_failed : String → JoinError
  call_failed : Status → JoinError
  timed_out : Status → JoinError

module _ (net : Cluster) where
  unfoldable pub leader_client : String → List Event → Status ⊎ String
  leader_client node ev =
      if str_eq (net.leader_addr ev node) ""
      then inl (record { code = unavailable; text = "no known leader to forward to" })
      else elim (net.new_client ev (net.leader_addr ev node)) [
        | some e ↦ inl (record { code = unavailable; text = dial_text (net.leader_addr ev node) e })
        | none ↦ inr (net.leader_addr ev node)
      ]

  unfoldable pub change : String → Request → List Event → Reply
  change node (add_voter id address) ev =
      let r = net.raft_add_voter ev node id address in
      (change_status "add voter " id r, voter_added node id address r ∷ ev)
  change node (remove_voter id) ev =
      let r = net.raft_remove_server ev node id in
      (change_status "remove voter " id r, server_removed node id r ∷ ev)

  -- AddVoter and RemoveVoter at a node; `forward` is the same call at another.
  unfoldable pub serve : (String → List Event → Reply) → String → Request → List Event → Reply
  unfolding leader_client change
  serve forward node req ev = elim (net.is_leader ev node) [
    | true ↦ change node req ev
    | false ↦ elim (leader_client node ev) [
      | inl s ↦ (some s, ev)
      | inr addr ↦ let (r, ev') = forward addr (dialed addr ∷ ev) in (r, hung_up addr ∷ ev')
    ]
  ]

  unfoldable pub call : ℕ → Request → String → List Event → Reply
  unfolding serve
  call zero req node ev = (some net.deadline, ev)
  call (suc hops) req node ev = elim (net.undelivered ev node) [
    | some s ↦ (some s, ev)
    | none ↦
        let (r, ev') = serve (call hops req) node req ev in
        (received (net.reply_lost ev' node) r, ev')
  ]

  -- Join, behind an attempt; `wait` is the select with which it goes on.
  unfoldable pub attempted :
      (Status → Option JoinError × List Event) → Reply → Option JoinError × List Event
  attempted wait (none, ev) = (none, ev)
  attempted wait (some s, ev) = elim (is_unavailable s) [
    | true ↦ wait s
    | false ↦ (some (call_failed s), ev)
  ]

  unfoldable pub join_loop : ℕ → ℕ → Request → String → List Event → Option JoinError × List Event
  unfolding call attempted
  join_loop zero hops req join_addr ev =
      let reply = call hops req join_addr ev in attempted (λ s. (some (timed_out s), reply.1)) reply
  join_loop (suc waits) hops req join_addr ev =
      let reply = call hops req join_addr ev in
      attempted (λ s. join_loop waits hops req join_addr reply.1) reply

  unfoldable pub join :
      ℕ → ℕ → String → String → String → List Event → Option JoinError × List Event
  unfolding join_loop
  join waits hops join_addr id self_addr ev = elim (net.new_client ev join_addr) [
    | some e ↦ (some (dial_failed e), ev)
    | none ↦
        let (r, ev') =
          join_loop waits hops (add_voter id self_addr) join_addr (dialed join_addr ∷ ev) in
        (r, hung_up join_addr ∷ ev')
  ]

  abbrev pub leave_error : Option Status → Option JoinError
  leave_error none = none
  leave_error (some s) = some (call_failed s)

  unfoldable pub leave : ℕ → String → String → List Event → Option JoinError × List Event
  unfolding call
  leave hops addr id ev = elim (net.new_client ev addr) [
    | some e ↦ (some (dial_failed e), ev)
    | none ↦
        let (r, ev') = call hops (remove_voter id) addr (dialed addr ∷ ev) in
        (leave_error r, hung_up addr ∷ ev')
  ]
