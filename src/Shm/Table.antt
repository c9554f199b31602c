-- ===== src/Shm/Table.antt =====
-- internal/fsm/walappender/shm: AddFrame's search for a free slot ends, and what it adds is found.
use literaft.Base.{
  ℕ, zero, suc, ◌+◌, ◌-◌, ◌*◌, ◌%◌, ◌<◌, ◌≡◌, ◌≢◌, sym, ap, ◌∙◌, false, inl, inr, some, arith, ◌==◌,
  Bool-cases,
}
use literaft.Base.Bytes.{Bytes, get16}
use literaft.Shm.Layout.{slot_count, hash_offset, next_hash_slot}
use literaft.Shm.Memory.{free_slot}

-- The content of a slot of the hash table: 0, or a place in the region.
abbrev pub slot_at : Bytes → ℕ → ℕ
slot_at r slot = get16 r (hash_offset + slot * 2)

-- The slot `n` steps behind `slot`.
abbrev pub behind : ℕ → ℕ → ℕ
behind slot n = (slot + n) % slot_count

-- The search from `slot` finds a free slot after `n` steps, and no earlier one is free.
pub record Found (fuel : ℕ) (r : Bytes) (slot : ℕ) : Type 0 where
  pub steps : ℕ
  pub short : steps < fuel
  pub result : free_slot fuel r slot ≡ some (behind slot steps)
  pub is_free : slot_at r (behind slot steps) ≡ 0
  pub taken : (k : ℕ) → k < steps → slot_at r (behind slot k) ≢ 0

behind-suc : (slot n : ℕ) → slot < slot_count → behind (next_hash_slot slot) n ≡ behind slot (suc n)
unfolding next_hash_slot
behind-suc slot n lt = omega arith

next_hash_slot-lt : (slot : ℕ) → next_hash_slot slot < slot_count
unfolding next_hash_slot
next_hash_slot-lt slot = omega arith

taken_behind :
    (r : Bytes) (slot n : ℕ)
    → slot < slot_count
    → (slot_at r slot == 0) ≡ false
    → ((k : ℕ) → k < n → slot_at r (behind (next_hash_slot slot) k) ≢ 0)
    → (k : ℕ) → k < suc n
    → slot_at r (behind slot k) ≢ 0
taken_behind r slot n lt h rest zero less z =
    let same : behind slot 0 ≡ slot = omega arith in
    absurd (ground (arith, h, sym (ap (slot_at r) same) ∙ z))
taken_behind r slot n lt h rest (suc k) less z =
    rest k (omega arith) (ap (slot_at r) (behind-suc slot k lt) ∙ z)

-- A free slot within reach is enough.
pub free_slot-Found :
    (fuel : ℕ) (r : Bytes) (slot d : ℕ)
    → slot < slot_count
    → d < fuel
    → slot_at r (behind slot d) ≡ 0
    → Found fuel r slot
unfolding free_slot
free_slot-Found zero r slot d lt reach free = absurd (omega arith)
free_slot-Found (suc fuel) r slot d lt reach free = elim (Bool-cases (slot_at r slot == 0)) [
  | inl now ↦
      let same : behind slot 0 ≡ slot = omega arith in
      record {
        steps = 0;
        short = omega arith;
        result = rw (now, same, free_slot);
        is_free = rw same (ground arith);
        taken = λ k no. absurd (omega arith);
      }
  | inr later ↦
      let nonzero : d ≢ 0 = λ z. absurd (ground (arith, z, later, free, lt)) in
      let shift : behind (next_hash_slot slot) (d - 1) ≡ behind slot d =
        behind-suc slot (d - 1) lt ∙ ap (behind slot) (omega arith) in
      let rest =
        free_slot-Found fuel r (next_hash_slot slot) (d - 1) (next_hash_slot-lt slot) (omega arith)
          (ap (slot_at r) shift ∙ free) in
      let at = behind-suc slot rest.steps lt in
      record {
        steps = suc rest.steps;
        short = omega (arith, rest.short);
        result = rw (later, free_slot) (rest.result ∙ ap some at);
        is_free = ap (slot_at r) (sym at) ∙ rest.is_free;
        taken = taken_behind r slot rest.steps lt later rest.taken;
      }
]
