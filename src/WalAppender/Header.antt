-- ===== src/WalAppender/Header.antt =====
-- internal/fsm/walappender/walappender.go: publishing a header leaves the index of the log as it is.
use literaft.Base.{
  ℕ, suc, ◌+◌, ◌-◌, ◌*◌, ◌≤◌, ◌≡◌, ◌≢◌, sym, ◌∙◌, Option, none, List, [], ◌∷◌, length, inl, inr,
  ◌==◌, arith, Bool-cases,
}
use literaft.Base.Bytes.{Bytes, get16, get32}
use literaft.Errors.{Error}
use literaft.Shm.Layout.{region_for_frame, index_in_region, hash_offset, slot_count}
use literaft.Shm.Memory.{SharedMemory, write_header}
use literaft.Shm.RoundTrip.{read_header-write_header}
use literaft.Shm.Table.{slot_at}
use literaft.Shm.Segment.{Segment, Reachable, page_at, used-agree}
use literaft.WalAppender.Indexed.{Entries, Tail, IsIndex}

-- The same outside both copies of the header.
pub record SameTables (c d : ℕ → Bytes) : Type 0 where
  pub others : (q : ℕ) → q ≢ 0 → d q ≡ c q
  pub rest : (j : ℕ) → 96 ≤ j → d 0 j ≡ c 0 j

module _ (c d : ℕ → Bytes) (same : SameTables c d) where
  same-slot_at : (r s : ℕ) → slot_at (d r) s ≡ slot_at (c r) s
  unfolding get16
  same-slot_at r s = elim (Bool-cases (r == 0)) [
    | inr h ↦ rw (same.others r (λ e. absurd (ground (arith, h, e))))
    | inl h ↦
        let e : r ≡ 0 = ground (arith, h) in
        rw e (
          ground (
            arith,
            same.rest (hash_offset + s * 2) (omega arith),
            same.rest (hash_offset + s * 2 + 1) (omega arith),
          ))
  ]

  same-page_at : (r i : ℕ) → page_at r (d r) i ≡ page_at r (c r) i
  unfolding get32
  same-page_at r i = elim (Bool-cases (r == 0)) [
    | inr h ↦ rw (same.others r (λ e. absurd (ground (arith, h, e))))
    | inl h ↦
        let e : r ≡ 0 = ground (arith, h) in
        let off = 136 + (i - 1) * 4 in
        rw e (
          ground (
            arith,
            same.rest off (omega arith),
            same.rest (off + 1) (omega arith),
            same.rest (off + 2) (omega arith),
            same.rest (off + 3) (omega arith),
          ))
  ]

  same-Reachable : (r i : ℕ) → Reachable r (c r) i → Reachable r (d r) i
  same-Reachable r i (n, at, taken) =
      rw (same-page_at r i)
        (n, same-slot_at r _ ∙ at, λ k less z. taken k less (sym (same-slot_at r _) ∙ z))

  same-Segment : (r i : ℕ) → Segment r i (c r) → Segment r i (d r)
  same-Segment r i seg = record {
    counted = used-agree slot_count (d r) (c r) (λ s lt. same-slot_at r s) ∙ seg.counted;
    reachable = λ k lo hi. same-Reachable r k (seg.reachable k lo hi);
  }

  same-Entries : (ps : List ℕ) → Entries c ps → Entries d ps
  same-Entries [] e = tt
  same-Entries (p ∷ ps) ((page, reach), es) =
      let k = suc (length ps) in
      (
        (
          same-page_at (region_for_frame k) (index_in_region k) ∙ page,
          same-Reachable (region_for_frame k) (index_in_region k) reach,
        ),
        same-Entries ps es,
      )

  same-Tail : (n : ℕ) → Tail c n → Tail d n
  same-Tail n (inl z) = inl z
  same-Tail n (inr seg) = inr (same-Segment (region_for_frame n) (index_in_region n) seg)

  pub SameTables-IsIndex : (ps : List ℕ) → IsIndex c ps → IsIndex d ps
  SameTables-IsIndex ps v = record {
    entries = same-Entries ps v.entries;
    tail = same-Tail (length ps) v.tail;
  }

pub write_header-SameTables :
    (fault : ℕ → Option Error) (h : Bytes) (s u : SharedMemory)
    → write_header fault h s ≡ (none, u)
    → SameTables s.content u.content
write_header-SameTables fault h s u e =
    let (c, back, agree, rest, others) = read_header-write_header fault h s u e in
    record { others = others; rest = rest }
