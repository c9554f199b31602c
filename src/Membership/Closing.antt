-- ===== src/Membership/Closing.antt =====
-- cmd/literaft/membership/membership.go and client.go: the connections that a Join opens, at every node.
use Prim.Native.String.{String}
use literaft.Base.{
  ℕ, zero, suc, ◌+◌, ◌≡◌, Option, none, some, Option-cases, Bool-cases, Sum-cases, List, [], ◌∷◌,
  inl, inr, arith,
}
use literaft.Membership.{
  Status, is_unavailable, Request, add_voter, remove_voter, Event, dialed, hung_up, voter_added,
  server_removed, Cluster, Reply, JoinError, timed_out, leader_client, change, serve, call,
  attempted, join_loop, join,
}

abbrev pub opened : List Event → ℕ
opened [] = 0
opened (dialed addr ∷ ev) = suc (opened ev)
opened (hung_up addr ∷ ev) = opened ev
opened (voter_added node id address r ∷ ev) = opened ev
opened (server_removed node id r ∷ ev) = opened ev

abbrev pub closed : List Event → ℕ
closed [] = 0
closed (dialed addr ∷ ev) = closed ev
closed (hung_up addr ∷ ev) = suc (closed ev)
closed (voter_added node id address r ∷ ev) = closed ev
closed (server_removed node id r ∷ ev) = closed ev

-- As many connections are closed as are opened.
abbrev pub Balanced : List Event → List Event → Type 0
Balanced before after = opened after + closed before ≡ opened before + closed after

module _ (net : Cluster) where
  change-Balanced :
      (node : String) (req : Request) (ev : List Event) → Balanced ev (change net node req ev).1
  unfolding change
  change-Balanced node (add_voter id address) ev = omega arith
  change-Balanced node (remove_voter id) ev = omega arith

  serve-Balanced :
      (forward : String → List Event → Reply)
      → ((node : String) (ev : List Event) → Balanced ev (forward node ev).1)
      → (node : String) (req : Request) (ev : List Event)
      → Balanced ev (serve net forward node req ev).1
  unfolding serve
  serve-Balanced forward ok node req ev = elim (Bool-cases (net.is_leader ev node)) [
    | inl k ↦ rw (k, serve) (change-Balanced node req ev)
    | inr k ↦ elim (Sum-cases (leader_client net node ev)) [
      | inl (s, n) ↦ rw (k, n, serve) (omega arith)
      | inr (addr, n) ↦ rw (k, n, serve) (omega (arith, ok addr (dialed addr ∷ ev)))
    ]
  ]

  call-Balanced :
      (hops : ℕ) (req : Request) (node : String) (ev : List Event)
      → Balanced ev (call net hops req node ev).1
  unfolding call
  call-Balanced zero req node ev = omega arith
  call-Balanced (suc hops) req node ev = elim (Option-cases (net.undelivered ev node)) [
    | inr (s, k) ↦ rw (k, call) (omega arith)
    | inl k ↦ rw (k, call) (serve-Balanced (call net hops req) (call-Balanced hops req) node req ev)
  ]

  attempted-Balanced :
      (before : List Event) (wait : Status → Option JoinError × List Event) (out : Reply)
      → Balanced before out.1
      → ((s : Status) → Balanced before (wait s).1)
      → Balanced before (attempted net wait out).1
  unfolding attempted
  attempted-Balanced before wait (none, ev) b go = b
  attempted-Balanced before wait (some s, ev) b go = elim (Bool-cases (is_unavailable s)) [
    | inl k ↦ rw (k, attempted) (go s)
    | inr k ↦ rw (k, attempted) b
  ]

  join_loop-Balanced :
      (waits hops : ℕ) (req : Request) (addr : String) (ev : List Event)
      → Balanced ev (join_loop net waits hops req addr ev).1
  unfolding join_loop
  join_loop-Balanced zero hops req addr ev =
      let reply = call net hops req addr ev in
      let b = call-Balanced hops req addr ev in
      attempted-Balanced ev (λ s. (some (timed_out s), reply.1)) reply b (λ s. b)
  join_loop-Balanced (suc waits) hops req addr ev =
      let reply = call net hops req addr ev in
      let b = call-Balanced hops req addr ev in
      attempted-Balanced ev (λ s. join_loop net waits hops req addr reply.1) reply b
        (λ s. omega (arith, b, join_loop-Balanced waits hops req addr reply.1))

  pub join-Balanced :
      (waits hops : ℕ) (join_addr id self_addr : String) (ev : List Event)
      → Balanced ev (join net waits hops join_addr id self_addr ev).1
  unfolding join
  join-Balanced waits hops join_addr id self_addr ev =
      elim (Option-cases (net.new_client ev join_addr)) [
        | inr (e, k) ↦ rw (k, join) (omega arith)
        | inl k ↦
            rw (k, join)
              (omega (
                arith,
                join_loop-Balanced waits hops (add_voter id self_addr) join_addr
                    (dialed join_addr ∷ ev),
              ))
      ]
