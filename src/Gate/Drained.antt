-- ===== src/Gate/Drained.antt =====
-- internal/gate/gate.go: what `ready` says about the backlog of a leader.
use literaft.Base.{
  ℕ, ◌≤◌, ◌≡◌, Bool, true, false, Option, none, some, List, [], ◌∷◌, inl, inr, arith, ◌++◌, ◌==◌,
  ◌&&◌, ◌||◌, Bool-cases,
}
use literaft.Proto.RoundTrip.{All}
use literaft.Gate.Leadership.{
  Watcher, waiting, received, gained, Drain, before, behind, Leadership, started, is_ready, receive,
  reset_ready, start_drain, check_drain, set_ready, Step, elected, deposed, new_term, announced,
  receives, resets, starts, gives_up, barrier, checks, sets, Reach, here, next,
}

abbrev pub is_some : Option Bool → Bool
is_some none = false
is_some (some b) = true

abbrev pub is_received : Watcher → Bool
is_received waiting = false
is_received (received b) = true
is_received gained = false

-- A change of leadership is on its way to the reset of `ready`.
abbrev pub is_pending : Leadership → Bool
is_pending s = s.owed || is_some s.notified || is_received s.watcher

-- The barrier of a drain succeeded in a term not below the drain's own, nor above raft's.
abbrev pub Within : ℕ → Drain → Type 0
Within term (before n) = n ≤ term
Within term (behind n m) = (n ≤ m) × (m ≤ term)

pub record IsValid (s : Leadership) : Type 0 where
  pub ready_drained :
      s.ready ≡ true → is_pending s ≡ false → (s.leader ≡ true) × (s.drained ≡ s.term)
  pub holder_drained :
      (n m : ℕ) → s.holder ≡ some (n, m) → is_pending s ≡ false → (s.leader ≡ true) × (m ≡ s.term)
  pub within : All (Within s.term) s.drains

Within-mono : (a b : ℕ) (d : Drain) → a ≤ b → Within a d → Within b d
Within-mono a b (before n) le h = omega arith
Within-mono a b (behind n m) le h = (omega arith, omega arith)

All-mono : (a b : ℕ) (ds : List Drain) → a ≤ b → All (Within a) ds → All (Within b) ds
All-mono a b [] le h = tt
All-mono a b (d ∷ ds) le h = (Within-mono a b d le h.0, All-mono a b ds le h.1)

All-drop :
    (n : ℕ) (front back : List Drain) (d : Drain)
    → All (Within n) (front ++ d ∷ back)
    → Within n d × All (Within n) (front ++ back)
All-drop n [] back d h = h
All-drop n (f ∷ front) back d h = let (w, rest) = All-drop n front back d h.1 in (w, (h.0, rest))

All-replace :
    (n : ℕ) (front back : List Drain) (d e : Drain)
    → All (Within n) (front ++ d ∷ back)
    → (Within n d → Within n e)
    → All (Within n) (front ++ e ∷ back)
All-replace n [] back d e h k = (k h.0, h.1)
All-replace n (f ∷ front) back d e h k = (h.0, All-replace n front back d e h.1 k)

Step-IsValid : {s u : Leadership} → Step s u → IsValid s → IsValid u
unfolding receive reset_ready start_drain check_drain set_ready
Step-IsValid {s} (elected n f lt e) v = rw e (record {
  ready_drained = λ r p. absurd (ground arith);
  holder_drained = λ a b h p. absurd (ground arith);
  within = All-mono s.term n s.drains (omega arith) v.within;
})
Step-IsValid (deposed l e) v = rw e (record {
  ready_drained = λ r p. absurd (ground arith);
  holder_drained = λ a b h p. absurd (ground arith);
  within = v.within;
})
Step-IsValid {s} (new_term n f le e) v = rw e (record {
  ready_drained = λ r p. ground (arith, f, v.ready_drained r p);
  holder_drained = λ a b h p. ground (arith, f, v.holder_drained a b h p);
  within = All-mono s.term n s.drains le v.within;
})
Step-IsValid (announced o e) v = rw e (record {
  ready_drained = λ r p. absurd (ground arith);
  holder_drained = λ a b h p. absurd (ground arith);
  within = v.within;
})
Step-IsValid (receives b w k e) v = rw e (record {
  ready_drained = λ r p. absurd (ground arith);
  holder_drained = λ a c h p. absurd (ground arith);
  within = v.within;
})
Step-IsValid (resets b w k e) v = rw e (record {
  ready_drained = λ r p. absurd (cc);
  holder_drained = λ a c h p. absurd (cc);
  within = v.within;
})
Step-IsValid (starts w e) v = rw e (record {
  ready_drained = λ r p. ground (arith, v.ready_drained r);
  holder_drained = λ a c h p. ground (arith, v.holder_drained a c h);
  within = (omega arith, v.within);
})
Step-IsValid (gives_up d front back k e) v = rw e (record {
  ready_drained = v.ready_drained;
  holder_drained = v.holder_drained;
  within = (All-drop _ front back d (rw k at v.within)).1;
})
Step-IsValid {s} (barrier n front back k l e) v = rw e (record {
  ready_drained = v.ready_drained;
  holder_drained = v.holder_drained;
  within =
      All-replace s.term front back (before n) (behind n s.term) (rw k at v.within)
        (λ w. (w, omega arith));
})
Step-IsValid {s} (checks n m front back k l e) v =
    let (w, rest) = All-drop s.term front back (behind n m) (rw k at v.within) in
    rw e (elim (Bool-cases (s.leader && (s.term == n))) [
      | inr other ↦ rw other (record {
        ready_drained = v.ready_drained;
        holder_drained = v.holder_drained;
        within = rest;
      })
      | inl same ↦ rw same (record {
        ready_drained = v.ready_drained;
        holder_drained = λ a c h p. ground (arith, same, w.0, w.1, h);
        within = rest;
      })
    ])
Step-IsValid (sets n m h e) v = rw e (record {
  ready_drained = λ r p. v.holder_drained n m h p;
  holder_drained = λ a c k p. absurd (cc);
  within = v.within;
})

reached-IsValid : {s u : Leadership} → Reach s u → IsValid s → IsValid u
reached-IsValid here v = v
reached-IsValid (next r s) v = Step-IsValid s (reached-IsValid r v)

started-IsValid : (n : ℕ) → IsValid (started n)
started-IsValid n = record {
  ready_drained = λ r p. absurd (cc);
  holder_drained = λ a c h p. absurd (cc);
  within = tt;
}

-- Whatever raft, the watcher and the drains do, in any order: where no change of leadership is
-- still on its way to the watcher, a gate that is ready stands on a leader, and the barrier behind
-- it succeeded in the leader's current term.
pub ready_is_drained :
    {n : ℕ} {s : Leadership}
    → Reach (started n) s
    → s.ready ≡ true
    → is_pending s ≡ false
    → (is_ready s ≡ true) × (s.drained ≡ s.term)
unfolding is_ready
ready_is_drained {n} r h p =
    let v = reached-IsValid r (started-IsValid n) in ground (arith, v.ready_drained h p, h)
