-- ===== src/Shm/Insert.antt =====
-- internal/fsm/walappender/shm/shm.go: AddFrame keeps the invariant of its region.
use literaft.Base.{
  Option, none, some, ℕ, ◌+◌, ◌-◌, ◌*◌, ◌%◌, ◌≤◌, ◌<◌, ◌≡◌, ◌≢◌, refl, sym, ap, ◌∙◌, inl, inr, some,
  arith, ◌==◌, if◌then◌else◌, Bool-cases,
}
use literaft.Base.Bytes.{
  little, Bytes, get16, put16, get32, put32, get32-put32, get32-put32_ne, u32_mod,
}
use literaft.Shm.Layout.{
  slot_count, hash_offset, hash_slot_for_page, page_numbers_offset, region0_page_count,
  page_count_per_region,
}
use literaft.Shm.Memory.{free_slot, wipe_segment, add_entry}
use literaft.Shm.Table.{slot_at, behind, Found, free_slot-Found}
use literaft.Shm.Segment.{
  used, free_exists, used-agree, used-free, put_slot, slot_at-put_slot, slot_at-put_slot_ne,
  used-put_slot, page_at, Segment,
}

-- How many frames a region indexes.
abbrev pub capacity : ℕ → ℕ
capacity region = if region == 0 then region0_page_count else page_count_per_region

slot_at-put32 :
    (r : Bytes) (off v s : ℕ)
    → off + 4 ≤ hash_offset
    → slot_at (put32 little r off v) s ≡ slot_at r s
unfolding get16 put32
slot_at-put32 r off v s le = ground arith

get32-put_slot :
    (r : Bytes) (off s v : ℕ)
    → off + 4 ≤ hash_offset
    → get32 little (put_slot r s v) off ≡ get32 little r off
unfolding get32 put16
get32-put_slot r off s v le = ground arith

place-bound :
    (region i : ℕ)
    → 1 ≤ i
    → i ≤ capacity region
    → page_numbers_offset region + (i - 1) * 4 + 4 ≤ hash_offset
place-bound region i lo hi = ground arith

wiped_slot : (region s : ℕ) (r : Bytes) → s < slot_count → slot_at (wipe_segment region 1 r) s ≡ 0
unfolding wipe_segment get16
wiped_slot region s r lt = ground arith

unwiped : (region idx : ℕ) (r : Bytes) → idx ≢ 1 → wipe_segment region idx r ≡ r
unfolding wipe_segment
unwiped region idx r ne = ground (arith, ne)

-- The region is ready for place `idx`.
abbrev pub Prepared : ℕ → ℕ → Bytes → Bytes → Type 0
Prepared region idx r r0 =
    Segment region (idx - 1) r0
    × ((i : ℕ) → 1 ≤ i → i < idx → page_at region r0 i ≡ page_at region r i)

wipe_segment-Prepared :
    (region idx : ℕ) (r : Bytes)
    → 1 ≤ idx
    → (idx ≢ 1 → Segment region (idx - 1) r)
    → Prepared region idx r (wipe_segment region idx r)
wipe_segment-Prepared region idx r lo before = elim (Bool-cases (idx == 1)) [
  | inl h ↦
      let e : idx ≡ 1 = ground (arith, h) in
      rw e (
        record {
          counted = used-free slot_count _ (λ s lt. wiped_slot region s r lt);
          reachable = λ i l u. absurd (omega arith);
        },
        λ i l u. absurd (omega arith),
      )
  | inr h ↦
      let ne : idx ≢ 1 = λ e. absurd (ground (arith, h, e)) in
      rw (unwiped region idx r ne) (before ne, λ i l u. refl)
]

-- Some number of steps leads from any slot to any other.
distance :
    (h s : ℕ) → h < slot_count → s < slot_count → (d : ℕ) × (d < slot_count) × (behind h d ≡ s)
distance h s lh ls = ((s + slot_count - h) % slot_count, omega arith, omega arith)

hash_slot_for_page-lt : (p : ℕ) → hash_slot_for_page p < slot_count
unfolding hash_slot_for_page
hash_slot_for_page-lt p = omega arith

-- The search in a segment that is not full.
segment-Found :
    (r : Bytes) (h : ℕ) → h < slot_count → used slot_count r < slot_count → Found slot_count r h
segment-Found r h lh few =
    let (s, ls, free) = free_exists slot_count r few in
    let (d, ld, at) = distance h s lh ls in
    free_slot-Found slot_count r h d lh ld (ap (slot_at r) at ∙ free)

-- What AddFrame gets from the steps before it: the page number is written, and the search has ended.
record Ready (region idx pg_no : ℕ) (r r1 : Bytes) : Type 0 where
  segment : Segment region (idx - 1) r1
  written : page_at region r1 idx ≡ pg_no
  kept : (i : ℕ) → 1 ≤ i → i < idx → page_at region r1 i ≡ page_at region r i
  found : Found slot_count r1 (hash_slot_for_page pg_no)

page-written :
    (region idx pg_no : ℕ) (r r0 : Bytes)
    → 1 ≤ idx
    → idx ≤ capacity region
    → pg_no < u32_mod
    → Prepared region idx r r0
    → Ready region idx pg_no r (put32 little r0 (page_numbers_offset region + (idx - 1) * 4) pg_no)
page-written region idx pg_no r r0 lo hi lt (seg, same) =
    let off = page_numbers_offset region + (idx - 1) * 4 in
    let bound = place-bound region idx lo hi in
    let r1 = put32 little r0 off pg_no in
    let slots : (s : ℕ) → slot_at r1 s ≡ slot_at r0 s = λ s. slot_at-put32 r0 off pg_no s bound in
    let count : used slot_count r1 ≡ idx - 1 =
      used-agree slot_count r1 r0 (λ s l. slots s) ∙ seg.counted in
    let pages : (i : ℕ) → 1 ≤ i → i < idx → page_at region r1 i ≡ page_at region r0 i = λ i l u.
      get32-put32_ne little little r0 off (page_numbers_offset region + (i - 1) * 4) pg_no
        (inr (omega arith)) in
    record {
      segment = record {
        counted = count;
        reachable = λ i l u.
            let (n, at, taken) = seg.reachable i l u in
            rw (pages i l (omega arith))
              (n, slots _ ∙ at, λ k less z. taken k less (sym (slots _) ∙ z));
      };
      written = get32-put32 little r0 off pg_no lt;
      kept = λ i l u. pages i l u ∙ same i l u;
      found =
          segment-Found r1 (hash_slot_for_page pg_no) (hash_slot_for_page-lt pg_no)
            (omega (arith, count));
    }

-- Taking the slot that the search has found.
slot-taken :
    (region idx pg_no : ℕ) (r r1 : Bytes) (slot : ℕ)
    → 1 ≤ idx
    → idx ≤ capacity region
    → (ready : Ready region idx pg_no r r1)
    → slot ≡ behind (hash_slot_for_page pg_no) ready.found.steps
    → Segment region idx (put_slot r1 slot idx)
slot-taken region idx pg_no r r1 slot lo hi ready at =
    let found = ready.found in
    let u = put_slot r1 slot idx in
    let free : slot_at r1 slot ≡ 0 = ap (slot_at r1) at ∙ found.is_free in
    let page : (i : ℕ) → 1 ≤ i → i ≤ idx → page_at region u i ≡ page_at region r1 i =
      λ i l h. get32-put_slot r1 _ slot idx (place-bound region i l (omega arith)) in
    let new : slot_at u slot ≡ idx = slot_at-put_slot r1 slot idx (ground arith) in
    let still : (s : ℕ) → slot_at r1 s ≢ 0 → slot_at u s ≡ slot_at r1 s =
      λ s ne. slot_at-put_slot_ne r1 slot s idx (λ e. ne (ap (slot_at r1) e ∙ free)) in
    let nonzero : (s : ℕ) → slot_at r1 s ≢ 0 → slot_at u s ≢ 0 =
      λ s ne z. ne (sym (still s ne) ∙ z) in
    record {
      counted =
          (used-put_slot slot_count r1 slot idx (omega arith) (ground arith) free).0
            (omega (arith, at))
          ∙ omega (arith, ready.segment.counted);
      reachable = λ i l h. elim (Bool-cases (i == idx)) [
        | inl e ↦
            let same : i ≡ idx = ground (arith, e) in
            rw (page i l h, same, ready.written)
              (found.steps, ap (slot_at u) (sym at) ∙ new, λ k less. nonzero _ (found.taken k less))
        | inr e ↦
            let (n, is, taken) = ready.segment.reachable i l (ground (arith, e, h)) in
            rw (page i l h) (
              n,
              still _ (λ z. absurd (omega (arith, is, z, l))) ∙ is,
              λ k less. nonzero _ (taken k less),
            )
      ];
    }

entry_place : (o idx : ℕ) → 1 ≤ idx → o + idx * 4 - 4 ≡ o + (idx - 1) * 4
entry_place o idx lo = omega arith

-- The entry of AddFrame with its page number at `off`.
abbrev entry_at : ℕ → ℕ → ℕ → Bytes → Option Bytes
entry_at off idx pg_no r0 =
    elim (free_slot slot_count (put32 little r0 off pg_no) (hash_slot_for_page pg_no)) [
      | none ↦ none
      | some slot ↦ some (put16 (put32 little r0 off pg_no) (hash_offset + slot * 2) idx)
    ]

add_entry-at :
    (region idx pg_no : ℕ) (r : Bytes)
    → 1 ≤ idx
    → add_entry region idx pg_no r
      ≡ entry_at (page_numbers_offset region + (idx - 1) * 4) idx pg_no (wipe_segment region idx r)
unfolding add_entry
add_entry-at region idx pg_no r lo =
    ap (λ o. entry_at o idx pg_no (wipe_segment region idx r))
      (entry_place (page_numbers_offset region) idx lo)

found-entry :
    (off idx pg_no slot : ℕ) (r0 : Bytes)
    → free_slot slot_count (put32 little r0 off pg_no) (hash_slot_for_page pg_no) ≡ some slot
    → entry_at off idx pg_no r0
      ≡ some (put16 (put32 little r0 off pg_no) (hash_offset + slot * 2) idx)
found-entry off idx pg_no slot r0 h = rw (h, entry_at)

-- AddFrame inside its region, for a place that the region has and a segment of the places before it
-- (of which the first needs none): its search ends, the page number stands at its place, the page
-- numbers before it are kept, and every entry up to it, the new one included, is on the way of a
-- search for its page.
pub add_entry-Segment :
    (region idx pg_no : ℕ) (r : Bytes)
    → 1 ≤ idx
    → idx ≤ capacity region
    → pg_no < u32_mod
    → (idx ≢ 1 → Segment region (idx - 1) r)
    → (u : Bytes) × (add_entry region idx pg_no r ≡ some u)
      × Segment region idx u
      × (page_at region u idx ≡ pg_no)
      × ((i : ℕ) → 1 ≤ i → i < idx → page_at region u i ≡ page_at region r i)
unfolding add_entry
add_entry-Segment region idx pg_no r lo hi lt before =
    let r0 = wipe_segment region idx r in
    let r1 = put32 little r0 (page_numbers_offset region + (idx - 1) * 4) pg_no in
    let ready =
      page-written region idx pg_no r r0 lo hi lt (wipe_segment-Prepared region idx r lo before) in
    let slot = behind (hash_slot_for_page pg_no) ready.found.steps in
    let page : (i : ℕ)
        → 1 ≤ i
        → i ≤ idx
        → page_at region (put_slot r1 slot idx) i ≡ page_at region r1 i =
      λ i l h. get32-put_slot r1 _ slot idx (place-bound region i l (omega arith)) in
    (
      put_slot r1 slot idx,
      add_entry-at region idx pg_no r lo ∙ found-entry _ idx pg_no slot r0 ready.found.result,
      slot-taken region idx pg_no r r1 slot lo hi ready refl,
      page idx lo (omega arith) ∙ ready.written,
      λ i l u. page i l (omega arith) ∙ ready.kept i l u,
    )
