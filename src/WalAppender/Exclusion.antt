-- ===== src/WalAppender/Exclusion.antt =====
-- internal/fsm/walappender/walappender.go: one holder of the write lock at a time.
use literaft.Base.{
  ℕ, suc, ◌≡◌, ◌<◌, ◌≤◌, refl, sym, ◌∙◌, inl, inr, Bool-cases, Bool, true, false, not, Option, none,
  some, arith, ◌==◌, if◌then◌else◌,
}
use literaft.Errors.{Error}
use literaft.WalAppender.Lock.{
  Locks, Acquired, unlocked, acquire_write_lock, checkpoint, maybe_threshold_checkpoint, release,
  close, IsHeld, Step, acquires, releases, appends, ticks, closes, Reach, here, next_step,
}

pub record IsValid (s : Locks) : Type 0 where
  pub taken : (h : ℕ) → IsHeld h s → (s.token ≡ false) × (s.closed ≡ false → s.os_locked ≡ true)
  pub alone : (h k : ℕ) → IsHeld h s → IsHeld k s → h ≡ k
  pub unused : (h : ℕ) → s.next ≤ h → s.released h ≡ false

-- Both states have the same locks.
record SameLocks (s u : Locks) : Type 0 where
  token : u.token ≡ s.token
  os : u.os_locked ≡ s.os_locked
  shut : u.closed ≡ s.closed
  released : (h : ℕ) → u.released h ≡ s.released h
  next : u.next ≡ s.next

SameLocks-IsValid : {s u : Locks} → SameLocks s u → IsValid s → IsValid u
SameLocks-IsValid {s} {u} w v =
    let back : (h : ℕ) → IsHeld h u → IsHeld h s =
      λ h (lt, r). (omega (arith, w.next), sym (w.released h) ∙ r) in
    record {
      taken = λ h held.
          let (a, b) = v.taken h (back h held) in (w.token ∙ a, λ o. w.os ∙ b (sym w.shut ∙ o));
      alone = λ h k hh hk. v.alone h k (back h hh) (back k hk);
      unused = λ h le. w.released h ∙ v.unused h (omega (arith, w.next));
    }

checkpoint-SameLocks : (s : Locks) → SameLocks s (checkpoint s)
unfolding checkpoint
checkpoint-SameLocks s = record {
  token = ground arith;
  os = ground arith;
  shut = ground arith;
  released = λ h. ground arith;
  next = ground arith;
}

maybe_threshold_checkpoint-SameLocks : (s : Locks) → SameLocks s (maybe_threshold_checkpoint s)
unfolding maybe_threshold_checkpoint checkpoint
maybe_threshold_checkpoint-SameLocks s = record {
  token = ground arith;
  os = ground arith;
  shut = ground arith;
  released = λ h. ground arith;
  next = ground arith;
}

granted-IsValid :
    (s : Locks)
    → s.token ≡ true
    → IsValid s
    → IsValid (record s { token = false; os_locked = true; next = suc s.next })
granted-IsValid s free v =
    let none_held : (k : ℕ) → k < s.next → s.released k ≡ false → ⊥ =
      λ k lt r. absurd (cc (free, (v.taken k (lt, r)).0)) in
    record {
      taken = λ h held. (refl, λ o. refl);
      alone = λ h k hh hk. ground (arith, none_held h, none_held k, hh.0, hh.1, hk.0, hk.1);
      unused = λ h le. v.unused h (omega arith);
    }

if-IsValid :
    (b : Bool) (x y : Acquired × Locks)
    → (b ≡ true → IsValid x.1)
    → (b ≡ false → IsValid y.1)
    → IsValid (if b then x else y).1
if-IsValid true x y h k = h refl
if-IsValid false x y h k = k refl

acquire-IsValid :
    (expired : Bool) (os : Option Error) (s : Locks)
    → IsValid s
    → IsValid (acquire_write_lock expired os s).1
unfolding acquire_write_lock
acquire-IsValid true os s v = v
acquire-IsValid false (some e) s v = if-IsValid s.token _ _ (λ t. v) (λ t. v)
acquire-IsValid false none s v =
    if-IsValid (not s.token) _ _ (λ t. v)
      (λ t. if-IsValid s.closed _ _ (λ c. v) (λ c. granted-IsValid s (ground arith) v))

-- The state between a release and the checkpoint that may follow it.
abbrev given_back : ℕ → Locks → Locks
given_back h s = record s {
  released = λ q. if q == h then true else s.released q;
  os_locked = false;
  token = true;
}

given_back-IsValid :
    (h : ℕ) (s : Locks) → h < s.next → s.released h ≡ false → IsValid s → IsValid (given_back h s)
given_back-IsValid h s lt r v =
    let none_left : (k : ℕ) → IsHeld k (given_back h s) → ⊥ =
      λ k held. ground (arith, held.0, held.1, lt, r, v.alone k h) in
    record {
      taken = λ k held. absurd (none_left k held);
      alone = λ k q hk hq. absurd (none_left k hk);
      unused = λ k le. ground (arith, v.unused k le);
    }

release-IsValid : (h : ℕ) (s : Locks) → h < s.next → IsValid s → IsValid (release h s)
unfolding release
release-IsValid h s lt v = elim (Bool-cases (s.released h)) [
  | inl r ↦ rw r v
  | inr r ↦ rw r (
      SameLocks-IsValid (maybe_threshold_checkpoint-SameLocks (given_back h s))
        (given_back-IsValid h s lt r v))
]

Step-IsValid : {s u : Locks} → Step s u → IsValid s → IsValid u
unfolding close
Step-IsValid {s} (acquires expired os e) v = rw e (acquire-IsValid expired os s v)
Step-IsValid {s} (releases h lt e) v = rw e (release-IsValid h s lt v)
Step-IsValid (appends h n held e) v =
    rw e (record { taken = v.taken; alone = v.alone; unused = v.unused })
Step-IsValid {s} (ticks e) v = rw e (SameLocks-IsValid (checkpoint-SameLocks s) v)
Step-IsValid (closes e) v = rw e (record {
  taken = λ h held. ((v.taken h held).0, λ o. absurd (cc (o)));
  alone = v.alone;
  unused = v.unused;
})

reached-IsValid : {s u : Locks} → Reach s u → IsValid s → IsValid u
reached-IsValid here v = v
reached-IsValid (next_step r s) v = Step-IsValid s (reached-IsValid r v)

unlocked-IsValid : (threshold : ℕ) → IsValid (unlocked threshold)
unlocked-IsValid threshold = record {
  taken = λ h held. absurd (omega (arith, held.0));
  alone = λ h k hh hk. absurd (omega (arith, hh.0));
  unused = λ h le. refl;
}

-- Whatever goroutines do with the appender's lock, in any order: two locks that are held are one,
-- and while one is held the token is not in its channel, and the operating system's lock is taken
-- unless the appender has been closed.
pub one_holder :
    (threshold : ℕ) {s : Locks} (h k : ℕ)
    → Reach (unlocked threshold) s
    → IsHeld h s
    → IsHeld k s
    → (h ≡ k) × (s.token ≡ false) × (s.closed ≡ false → s.os_locked ≡ true)
one_holder threshold h k r hh hk =
    let v = reached-IsValid r (unlocked-IsValid threshold) in
    (v.alone h k hh hk, (v.taken h hh).0, (v.taken h hh).1)
