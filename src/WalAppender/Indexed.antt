-- ===== src/WalAppender/Indexed.antt =====
-- internal/fsm/walappender/shm/shm.go: the wal-index of a log, frame by frame, as AddFrame extends it.
use literaft.Base.{
  ℕ, suc, ◌-◌, ◌≤◌, ◌<◌, ◌≡◌, ◌≢◌, sym, ap, subst, ◌∙◌, Option, none, some, List, [], ◌∷◌, length,
  inl, inr, ◌⊎◌, ◌==◌, arith, Bool-cases, Option-cases,
}
use literaft.Base.Bytes.{Bytes, u32_mod}
use literaft.Errors.{Error, wrapped}
use literaft.Shm.Layout.{region_for_frame, index_in_region, frame_zero_for_region, place_in_bounds}
use literaft.Shm.Memory.{SharedMemory, get_region, add_in_region, add_frame}
use literaft.Shm.Segment.{Segment, Reachable, page_at}
use literaft.Shm.Frames.{add_frame-Indexed}
use literaft.WalAppender.Published.{get_region-content}

-- The entry of frame `k` has page `p`, and a search for that page comes by it.
abbrev pub HasEntry : (ℕ → Bytes) → ℕ → ℕ → Type 0
HasEntry c k p =
    (page_at (region_for_frame k) (c (region_for_frame k)) (index_in_region k) ≡ p)
    × Reachable (region_for_frame k) (c (region_for_frame k)) (index_in_region k)

-- The page numbers of a log, the newest frame's first.
abbrev pub Entries : (ℕ → Bytes) → List ℕ → Type 0
Entries c [] = Unit
Entries c (p ∷ ps) = HasEntry c (suc (length ps)) p × Entries c ps

-- The region of the last frame holds nothing behind it.
abbrev pub Tail : (ℕ → Bytes) → ℕ → Type 0
Tail c n = (n ≡ 0) ⊎ Segment (region_for_frame n) (index_in_region n) (c (region_for_frame n))

pub record IsIndex (c : ℕ → Bytes) (pages : List ℕ) : Type 0 where
  pub entries : Entries c pages
  pub tail : Tail c (length pages)

same_region :
    (n : ℕ)
    → 0 < n
    → suc n < u32_mod
    → index_in_region (suc n) ≢ 1
    → (region_for_frame n ≡ region_for_frame (suc n))
      × (index_in_region n ≡ index_in_region (suc n) - 1)
unfolding region_for_frame index_in_region frame_zero_for_region
same_region n pos lt ne = ground arith

first_frame : (n : ℕ) → n ≡ 0 → index_in_region (suc n) ≡ 1
unfolding region_for_frame index_in_region frame_zero_for_region
first_frame n z = ground arith

before_next :
    (c : ℕ → Bytes) (n : ℕ)
    → suc n < u32_mod
    → Tail c n
    → index_in_region (suc n) ≢ 1
    → Segment
        (region_for_frame (suc n))
        (index_in_region (suc n) - 1)
        (c (region_for_frame (suc n)))
before_next c n lt (inl z) ne = absurd (ne (first_frame n z))
before_next c n lt (inr seg) ne = elim (Bool-cases (n == 0)) [
  | inl z ↦ absurd (ne (first_frame n (ground (arith, z))))
  | inr pos ↦
      let (r, i) = same_region n (ground (arith, pos)) lt ne in
      subst (λ (q : ℕ). Segment q (index_in_region (suc n) - 1) (c q)) r
        (subst (λ (q : ℕ). Segment (region_for_frame n) q (c (region_for_frame n))) i seg)
]

-- An earlier frame of the same region stands before a later one.
index-lt :
    (j k : ℕ)
    → 0 < j
    → j < k
    → k < u32_mod
    → region_for_frame j ≡ region_for_frame k
    → (1 ≤ index_in_region j) × (index_in_region j < index_in_region k)
index-lt j k pos less lt same =
    let a = place_in_bounds j 0 pos (omega arith) in
    let b = place_in_bounds k 0 (omega arith) lt in
    (a.1, omega (arith, a.0, b.0, ap frame_zero_for_region same))

module _ (c d : ℕ → Bytes) (k p : ℕ) (lt : k < u32_mod)
    (segment : Segment (region_for_frame k) (index_in_region k) (d (region_for_frame k)))
    (others : (q : ℕ) → q ≢ region_for_frame k → d q ≡ c q)
    (kept : (i : ℕ)
      → 1 ≤ i
      → i < index_in_region k
      → page_at (region_for_frame k) (d (region_for_frame k)) i
        ≡ page_at (region_for_frame k) (c (region_for_frame k)) i) where
  entry-kept : (j q : ℕ) → 0 < j → j < k → HasEntry c j q → HasEntry d j q
  entry-kept j q pos less (page, reach) =
      elim (Bool-cases (region_for_frame j == region_for_frame k)) [
        | inr h ↦
            let same : d (region_for_frame j) ≡ c (region_for_frame j) =
              others (region_for_frame j) (λ e. absurd (ground (arith, h, e))) in
            rw same (page, reach)
        | inl h ↦
            let same : region_for_frame j ≡ region_for_frame k = ground (arith, h) in
            let (lo, hi) = index-lt j k pos less lt same in
            let page' : page_at (region_for_frame k) (c (region_for_frame k)) (index_in_region j)
                ≡ q =
              subst (λ (r : ℕ). page_at r (c r) (index_in_region j) ≡ q) same page in
            subst
              (λ (r : ℕ).
                (page_at r (d r) (index_in_region j) ≡ q) × Reachable r (d r) (index_in_region j))
              (sym same)
              (
                kept (index_in_region j) lo hi ∙ page',
                segment.reachable (index_in_region j) lo (omega arith),
              )
      ]

  entries-kept : (ps : List ℕ) → length ps < k → Entries c ps → Entries d ps
  entries-kept [] less e = tt
  entries-kept (q ∷ ps) less (e, es) =
      (entry-kept (suc (length ps)) q (omega arith) less e, entries-kept ps (omega arith) es)

module _ (fault : ℕ → Option Error) where
  -- AddFrame of the next frame of an indexed log ends: it fails and changes nothing, or the log is
  -- indexed with the frame.
  pub data Added (pages : List ℕ) (p : ℕ) (s : SharedMemory) : Type 0 where
    not_added :
        (e : Error) (u : SharedMemory)
        → add_frame fault (suc (length pages)) p s ≡ some (some e, u)
        → Added pages p s
    is_added :
        (u : SharedMemory)
        → add_frame fault (suc (length pages)) p s ≡ some (none, u)
        → IsIndex u.content (p ∷ pages)
        → Added pages p s

  pub add_frame-Added :
      (pages : List ℕ) (p : ℕ) (s : SharedMemory)
      → suc (length pages) < u32_mod
      → p < u32_mod
      → IsIndex s.content pages
      → Added pages p s
  unfolding add_frame add_in_region
  add_frame-Added pages p s lt pl v =
      let k = suc (length pages) in
      let id = region_for_frame k in
      let got = get_region fault id s in
      let content : got.1.content ≡ s.content = get_region-content fault id s in
      elim (Option-cases got.0) [
        | inr (e, h) ↦ not_added (wrapped "failed to get region" e) got.1 (rw (h, add_frame))
        | inl h ↦
            let (u, added, seg, page, others, kept) =
              add_frame-Indexed fault k p s got.1 (omega arith) lt pl (ap (λ e. (e, got.1)) h)
                (rw content (before_next s.content (length pages) lt v.tail)) in
            is_added u added (record {
              entries = (
                (
                  page,
                  seg.reachable (index_in_region k) (place_in_bounds k 0 (omega arith) lt).1
                      (omega arith),
                ),
                entries-kept s.content u.content k p lt seg (rw content at others)
                    (rw content at kept) pages (omega arith) v.entries,
              );
              tail = inr seg;
            })
      ]
