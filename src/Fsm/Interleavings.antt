-- ===== src/Fsm/Interleavings.antt =====
-- Interleavings of proposers and the apply loop over the skip markers.
use Prim.Native.String.{String}
use text.Mathlib.TextEquality.{eq_iff}
use literaft.Base.{ℕ, ◌<◌, ◌≡◌, refl, Option, some, arith}
use literaft.Base.Maps.{update}
use literaft.Errors.{Error}
use literaft.Fsm.{
  Markers, no_markers, is_skipped, create_skip_marker, delete_skip_marker, try_consume, await_end,
  Wake, on_done, on_deadline,
}

-- One critical section of some goroutine.
pub data Step (m u : Markers) : Type 0 where
  create : (id : String) → u ≡ create_skip_marker id m → Step m u
  delete : (id : String) → u ≡ delete_skip_marker id m → Step m u
  consume : (id : String) → u ≡ (try_consume id m).1 → Step m u
  wake :
      (w : Wake) (r : ℕ) (e : Option Error) → r < m.next → await_end w r m ≡ some (e, u) → Step m u

pub data Reach (m : Markers) : Markers → Type 0 where
  here : Reach m m
  next : {t u : Markers} → Reach m t → Step t u → Reach m u

-- The channel is closed exactly on the markers that the apply loop consumed; references in the map
-- are allocated, and no two ids share one.
pub record IsValid (m : Markers) : Type 0 where
  pub closed : (r : ℕ) → (m.store r).done ≡ is_skipped (m.store r).state
  pub allocated : (id : String) (r : ℕ) → m.by_id id ≡ some r → r < m.next
  pub unshared : (id id' : String) (r : ℕ) → m.by_id id ≡ some r → m.by_id id' ≡ some r → id ≡ id'

create-IsValid : (id : String) {m : Markers} → IsValid m → IsValid (create_skip_marker id m)
unfolding create_skip_marker update
create-IsValid id {m} v = record {
  closed = λ r. ground (arith, v.closed r);
  allocated = λ k r h. ground (arith, v.allocated k r);
  unshared = λ k k' r h h'.
      ground
        (arith, v.allocated k r, v.allocated k' r, v.unshared k k' r, eq_iff k id, eq_iff k' id);
}

delete-IsValid : (id : String) {m : Markers} → IsValid m → IsValid (delete_skip_marker id m)
unfolding delete_skip_marker update
delete-IsValid id {m} v = record {
  closed = v.closed;
  allocated = λ k r h. ground (arith, v.allocated k r);
  unshared = λ k k' r h h'. ground (arith, v.unshared k k' r);
}

consume-IsValid : (id : String) {m : Markers} → IsValid m → IsValid (try_consume id m).1
unfolding try_consume
consume-IsValid id {m} v = record {
  closed = λ r. ground (arith, v.closed r);
  allocated = λ k r h. ground (arith, v.allocated k r);
  unshared = λ k k' r h h'. ground (arith, v.unshared k k' r);
}

wake-IsValid :
    (w : Wake) (r : ℕ) (e : Option Error) {m u : Markers}
    → IsValid m
    → await_end w r m ≡ some (e, u)
    → IsValid u
unfolding await_end
wake-IsValid on_done r e {m} {u} v h = record {
  closed = λ q. ground (arith, v.closed q);
  allocated = λ k q p. ground (arith, v.allocated k q);
  unshared = λ k k' q p p'. ground (arith, v.unshared k k' q);
}
wake-IsValid on_deadline r e {m} {u} v h = record {
  closed = λ q. ground (arith, v.closed q);
  allocated = λ k q p. ground (arith, v.allocated k q);
  unshared = λ k k' q p p'. ground (arith, v.unshared k k' q);
}

Step-IsValid : {m u : Markers} → Step m u → IsValid m → IsValid u
Step-IsValid (create id e) v = rw e (create-IsValid id v)
Step-IsValid (delete id e) v = rw e (delete-IsValid id v)
Step-IsValid (consume id e) v = rw e (consume-IsValid id v)
Step-IsValid (wake w r e lt h) v = wake-IsValid w r e v h

pub Reach-IsValid : {m u : Markers} → Reach m u → IsValid m → IsValid u
Reach-IsValid here v = v
Reach-IsValid (next r s) v = Step-IsValid s (Reach-IsValid r v)

pub no_markers-IsValid : IsValid no_markers
no_markers-IsValid = record {
  closed = λ r. refl;
  allocated = λ k r h. cc;
  unshared = λ k k' r h h'. absurd (cc);
}
