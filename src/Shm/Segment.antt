-- ===== src/Shm/Segment.antt =====
-- internal/fsm/walappender/shm: the invariant of one region of the wal-index under AddFrame.
use literaft.Base.{
  ℕ, zero, suc, ◌+◌, ◌-◌, ◌*◌, ◌≤◌, ◌<◌, ◌≡◌, ◌≢◌, refl, ap, ◌∙◌, inl, inr, arith, ◌==◌,
  if◌then◌else◌, Bool-cases,
}
use literaft.Base.Bytes.{little, Bytes, put16, get32, get16-put16, get16-put16_ne}
use literaft.Shm.Layout.{slot_count, hash_offset, hash_slot_for_page, page_numbers_offset}
use literaft.Shm.Table.{slot_at, behind}

-- How many of the first `n` slots are taken.
unfoldable pub used : ℕ → Bytes → ℕ
used zero r = 0
used (suc n) r = let rest = used n r in if slot_at r n == 0 then rest else suc rest

pub free_exists : (n : ℕ) (r : Bytes) → used n r < n → (s : ℕ) × (s < n) × (slot_at r s ≡ 0)
unfolding used
free_exists zero r lt = absurd (omega arith)
free_exists (suc n) r lt = elim (Bool-cases (slot_at r n == 0)) [
  | inl h ↦ (n, omega arith, ground (arith, h))
  | inr h ↦ let (s, less, free) = free_exists n r (ground (arith, h, lt)) in (s, omega arith, free)
]

pub used-agree :
    (n : ℕ) (r q : Bytes) → ((s : ℕ) → s < n → slot_at r s ≡ slot_at q s) → used n r ≡ used n q
unfolding used
used-agree zero r q e = refl
used-agree (suc n) r q e =
    ground (arith, e n (omega arith), used-agree n r q (λ s lt. e s (omega arith)))

pub used-free : (n : ℕ) (r : Bytes) → ((s : ℕ) → s < n → slot_at r s ≡ 0) → used n r ≡ 0
unfolding used
used-free zero r e = refl
used-free (suc n) r e = ground (arith, e n (omega arith), used-free n r (λ s lt. e s (omega arith)))

abbrev pub put_slot : Bytes → ℕ → ℕ → Bytes
put_slot r s v = put16 r (hash_offset + s * 2) v

pub slot_at-put_slot : (r : Bytes) (s v : ℕ) → v < 65536 → slot_at (put_slot r s v) s ≡ v
slot_at-put_slot r s v lt = get16-put16 r (hash_offset + s * 2) v ∙ omega arith

pub slot_at-put_slot_ne : (r : Bytes) (s q v : ℕ) → q ≢ s → slot_at (put_slot r s v) q ≡ slot_at r q
slot_at-put_slot_ne r s q v ne =
    get16-put16_ne r (hash_offset + s * 2) (hash_offset + q * 2) v (ground (arith, ne))

-- Taking a free slot counts one more.
pub used-put_slot :
    (n : ℕ) (r : Bytes) (s v : ℕ)
    → 0 < v
    → v < 65536
    → slot_at r s ≡ 0
    → (s < n → used n (put_slot r s v) ≡ suc (used n r))
      × (n ≤ s → used n (put_slot r s v) ≡ used n r)
unfolding used
used-put_slot zero r s v pos lt free = (λ h. absurd (omega arith), λ h. refl)
used-put_slot (suc n) r s v pos lt free =
    let (more, same) = used-put_slot n r s v pos lt free in
    let at = slot_at-put_slot r s v lt in
    elim (Bool-cases (n == s)) [
      | inl h ↦
          let e : n ≡ s = ground (arith, h) in
          let here : slot_at (put_slot r s v) n ≡ v = ap (slot_at (put_slot r s v)) e ∙ at in
          let was : slot_at r n ≡ 0 = ap (slot_at r) e ∙ free in
          (λ l. ground (arith, here, was, same (omega arith), pos), λ l. absurd (omega arith))
      | inr h ↦
          let ne : n ≢ s = λ e. absurd (ground (arith, h, e)) in
          let keep = slot_at-put_slot_ne r s n v ne in
          (
            λ l. ground (arith, keep, more (omega arith)),
            λ l. ground (arith, keep, same (omega arith)),
          )
    ]

-- The page number at place `i`, counted from 1.
abbrev pub page_at : ℕ → Bytes → ℕ → ℕ
page_at region r i = get32 little r (page_numbers_offset region + (i - 1) * 4)

-- The entry of place `i` is on the way of a search for its page.
abbrev pub Reachable : ℕ → Bytes → ℕ → Type 0
Reachable region r i =
    (n : ℕ) × (slot_at r (behind (hash_slot_for_page (page_at region r i)) n) ≡ i)
    × ((k : ℕ) → k < n → slot_at r (behind (hash_slot_for_page (page_at region r i)) k) ≢ 0)

pub record Segment (region count : ℕ) (r : Bytes) : Type 0 where
  pub counted : used slot_count r ≡ count
  pub reachable : (i : ℕ) → 1 ≤ i → i ≤ count → Reachable region r i
