-- ===== src/Membership/Joining.antt =====
-- cmd/literaft/membership/membership.go and client.go: what raft is told when a node joins, over all
-- the nodes that forward the call and all the attempts.
use Prim.Native.String.{String}
use literaft.Base.{
  ℕ, zero, suc, ◌≡◌, refl, subst, Bool, true, false, ◌||◌, Option, none, some, Option-cases,
  Bool-cases, Sum-cases, List, ◌∷◌, ◌⊎◌, inl, inr,
}
use literaft.Membership.Closing.{Balanced, join-Balanced}
use literaft.Membership.{
  Status, is_unavailable, Request, add_voter, Event, dialed, hung_up, Cluster, Reply, received,
  JoinError, dial_failed, call_failed, timed_out, leader_client, change, serve, call, attempted,
  join_loop, join,
}

abbrev pub succeeded : Option Status → Bool
succeeded none = true
succeeded (some s) = false

module _ (net : Cluster) where
  -- Since `before`, raft has been told nothing but `req`, and that by nodes that were the leader. The
  -- Boolean says whether raft has accepted it.
  pub data Asked (req : Request) (before : List Event) : Bool → List Event → Type 0 where
    unasked : Asked req before false before
    on_dial :
        (b : Bool) (ev : List Event) (addr : String)
        → Asked req before b ev
        → Asked req before b (dialed addr ∷ ev)
    on_hang_up :
        (b : Bool) (ev : List Event) (addr : String)
        → Asked req before b ev
        → Asked req before b (hung_up addr ∷ ev)
    asked :
        (b : Bool) (ev : List Event) (node : String)
        → net.is_leader ev node ≡ true
        → Asked req before b ev
        → Asked req before (succeeded (change net node req ev).0 || b) (change net node req ev).1

  -- A success is one that raft has accepted.
  abbrev pub Honest : Request → List Event → Reply → Type 0
  Honest req before out = (b : Bool) × (Asked req before b out.1) × (out.0 ≡ none → b ≡ true)

  module _ (req : Request) (before : List Event) where
    serve-Honest :
        (forward : String → List Event → Reply)
        → ((node : String) (b : Bool) (ev : List Event)
            → Asked req before b ev
            → Honest req before (forward node ev))
        → (node : String) (b : Bool) (ev : List Event) → Asked req before b ev
        → Honest req before (serve net forward node req ev)
    unfolding serve
    serve-Honest forward ok node b ev a = elim (Bool-cases (net.is_leader ev node)) [
      | inl k ↦
          rw (k, serve)
            (succeeded (change net node req ev).0 || b, asked b ev node k a, λ n. rw n refl)
      | inr k ↦ elim (Sum-cases (leader_client net node ev)) [
        | inl (s, n) ↦ rw (k, n, serve) (b, a, λ e. absurd (cc (e)))
        | inr (addr, n) ↦
            rw (k, n, serve)
              (let (b', a', e) = ok addr b (dialed addr ∷ ev) (on_dial b ev addr a) in
                (b', on_hang_up b' _ addr a', e))
      ]
    ]

    call-Honest :
        (hops : ℕ) (node : String) (b : Bool) (ev : List Event)
        → Asked req before b ev
        → Honest req before (call net hops req node ev)
    unfolding call
    call-Honest zero node b ev a = (b, a, λ e. absurd (cc (e)))
    call-Honest (suc hops) node b ev a = elim (Option-cases (net.undelivered ev node)) [
      | inr (s, k) ↦ rw (k, call) (b, a, λ e. absurd (cc (e)))
      | inl k ↦
          rw (k, call)
            (let (b', a', e) = serve-Honest (call net hops req) (call-Honest hops) node b ev a in
              (b', a', λ n. e (unlost _ _ n)))
    ]
      where
        unlost : (lost r : Option Status) → received lost r ≡ none → r ≡ none
        unlost none r n = n
        unlost (some s) r n = absurd (cc (n))

  -- The ends of Join's loop.
  pub data Ends (req : Request) (before : List Event) : Option JoinError → List Event → Type 0 where
    joined : (ev : List Event) → Asked req before true ev → Ends req before none ev
    refused :
        (b : Bool) (s : Status) (ev : List Event)
        → is_unavailable s ≡ false
        → Asked req before b ev
        → Ends req before (some (call_failed s)) ev
    late :
        (b : Bool) (s : Status) (ev : List Event)
        → is_unavailable s ≡ true
        → Asked req before b ev
        → Ends req before (some (timed_out s)) ev

  attempted-Ends :
      (req : Request) (before : List Event) (wait : Status → Option JoinError × List Event)
      (out : Reply)
      → Honest req before out
      → ((s : Status) → is_unavailable s ≡ true → Ends req before (wait s).0 (wait s).1)
      → Ends req before (attempted net wait out).0 (attempted net wait out).1
  unfolding attempted
  attempted-Ends req before wait (none, ev) (b, a, e) go =
      joined ev (subst (λ c. Asked req before c ev) (e refl) a)
  attempted-Ends req before wait (some s, ev) (b, a, e) go = elim (Bool-cases (is_unavailable s)) [
    | inl k ↦ rw (k, attempted) (go s k)
    | inr k ↦ rw (k, attempted) (refused b s ev k a)
  ]

  join_loop-Ends :
      (waits hops : ℕ) (req : Request) (before : List Event) (addr : String) (b : Bool)
      (ev : List Event)
      → Asked req before b ev
      → let out = join_loop net waits hops req addr ev in Ends req before out.0 out.1
  unfolding join_loop
  join_loop-Ends zero hops req before addr b ev a =
      let h = call-Honest req before hops addr b ev a in
      attempted-Ends req before _ _ h (λ s k. late h.0 s _ k h.1)
  join_loop-Ends (suc waits) hops req before addr b ev a =
      let h = call-Honest req before hops addr b ev a in
      attempted-Ends req before _ _ h (λ s k. join_loop-Ends waits hops req before addr h.0 _ h.1)

  hang_up-Ends :
      (req : Request) (before : List Event) (addr : String) (r : Option JoinError) (ev : List Event)
      → Ends req before r ev
      → Ends req before r (hung_up addr ∷ ev)
  hang_up-Ends req before addr _ _ (joined ev a) = joined _ (on_hang_up true ev addr a)
  hang_up-Ends req before addr _ _ (refused b s ev k a) = refused b s _ k (on_hang_up b ev addr a)
  hang_up-Ends req before addr _ _ (late b s ev k a) = late b s _ k (on_hang_up b ev addr a)

  -- A Join closes as many connections as it opens, at all nodes. It cannot dial, and does nothing.
  -- Or it tells raft nothing but to add the joining node under the address it gives, and that at
  -- nodes that are the leader, whatever nodes forward the call and however often it is tried. It
  -- then succeeds only if raft has accepted the node; it stops for a status only if that is not
  -- Unavailable, and times out only with Unavailable.
  pub join-Ends :
      (waits hops : ℕ) (join_addr id self_addr : String) (ev : List Event)
      → let out = join net waits hops join_addr id self_addr ev in
        Balanced ev out.1
        × (((e : String) × (out ≡ (some (dial_failed e), ev)))
            ⊎ Ends (add_voter id self_addr) ev out.0 out.1)
  unfolding join
  join-Ends waits hops join_addr id self_addr ev = (
    join-Balanced net waits hops join_addr id self_addr ev,
    elim (Option-cases (net.new_client ev join_addr)) [
      | inr (e, k) ↦ rw (k, join) (inl (e, refl))
      | inl k ↦
          rw (k, join)
            (inr (
              hang_up-Ends _ ev join_addr _ _ (
                join_loop-Ends waits hops _ ev join_addr false _
                  (on_dial false ev join_addr unasked))))
    ],
  )
