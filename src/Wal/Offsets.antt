-- ===== src/Wal/Offsets.antt =====
-- internal/wal/frame.go: which file offsets begin a frame header, and which a frame's page image.
use literaft.Base.{
  ℕ, ◌+◌, ◌-◌, ◌*◌, ◌%◌, ◌≤◌, ◌<◌, ◌≡◌, ap, ◌↔◌, ◌≢◌, ◌/◌, Bool, true, false, ◌&&◌, arith, leb,
  ◌==◌,
}
use native.Mathlib.Nat.{div-add-mod', mul-mod_left, add-mul-mod_self_right, mod-eq_of_lt}
use literaft.Wal.Frame.{frame_header_size}
use literaft.Wal.Header.{wal_header_size}

-- The offset is not below the subtrahend where the remainder is read, so truncated `-` is exact.
unfoldable pub is_frame_header_offset : ℕ → ℕ → Bool
is_frame_header_offset page off =
    leb wal_header_size off && (off - wal_header_size) % (frame_header_size + page) == 0

unfoldable pub is_frame_data_offset : ℕ → ℕ → Bool
is_frame_data_offset page off =
    leb (wal_header_size + frame_header_size) off
    && (off - wal_header_size - frame_header_size) % (frame_header_size + page) == 0

-- Where frame number `i`, counted from 0, begins.
abbrev pub frame_offset : ℕ → ℕ → ℕ
frame_offset page i = wal_header_size + i * (frame_header_size + page)

offset_of_test :
    (base s off : ℕ)
    → (leb base off && (off - base) % s == 0) ≡ true
    → base + (off - base) / s * s ≡ off
offset_of_test base s off h =
    let whole = div-add-mod' (off - base) s in let parts = split base s off h in omega arith
  where
    split :
        (base s off : ℕ)
        → (leb base off && (off - base) % s == 0) ≡ true
        → (base ≤ off) × ((off - base) % s ≡ 0)
    split base s off h = ground arith

test_of_offset : (base s i : ℕ) → (leb base (base + i * s) && (base + i * s - base) % s == 0) ≡ true
test_of_offset base s i =
    let e : base + i * s - base ≡ i * s = omega arith in rw (e, mul-mod_left) (ground arith)

regroup : (i s : ℕ) → wal_header_size + i * s + frame_header_size ≡ 56 + i * s
regroup i s = omega arith

-- Two frames never begin less than a whole frame apart.
multiples_apart : (s a b r : ℕ) → 0 < r → r < s → a * s ≢ r + b * s
multiples_apart s a b r pos lt e =
    let p : a * s % s ≡ (r + b * s) % s = ap (λ x. x % s) e in
    omega (arith, p, mul-mod_left a s, add-mul-mod_self_right r b s, mod-eq_of_lt lt)

module _ (page : ℕ) where
  pub header_offset_iff :
      (off : ℕ) → (is_frame_header_offset page off ≡ true) ↔ ((i : ℕ) × (frame_offset page i ≡ off))
  unfolding is_frame_header_offset
  header_offset_iff off = (
    λ h. ((off - wal_header_size) / (frame_header_size + page), offset_of_test 32 _ off h),
    λ p. rw (← p.1) (test_of_offset 32 (frame_header_size + page) p.0),
  )

  pub data_offset_iff :
      (off : ℕ)
      → (is_frame_data_offset page off ≡ true)
        ↔ ((i : ℕ) × (frame_offset page i + frame_header_size ≡ off))
  unfolding is_frame_data_offset
  data_offset_iff off =
      let e : off - wal_header_size - frame_header_size ≡ off - 56 = omega arith in
      let s = frame_header_size + page in
      (
        λ h. ((off - 56) / s, omega (arith, offset_of_test 56 s off (rw e at h))),
        λ p. rw e (rw (← p.1, regroup p.0 s) (test_of_offset 56 s p.0)),
      )

pub offsets_apart :
    (page off : ℕ)
    → 0 < page
    → is_frame_header_offset page off ≡ true
    → is_frame_data_offset page off ≡ true
    → ⊥
offsets_apart page off pos h d =
    let (i, p) = (header_offset_iff page off).0 h in
    let (j, q) = (data_offset_iff page off).0 d in
    multiples_apart (frame_header_size + page) i j 24 (omega arith) (omega arith) (omega arith)

-- With a page size, no offset begins both a frame's header and a frame's image.
pub offsets_disjoint :
    (page off : ℕ)
    → 0 < page
    → (is_frame_header_offset page off && is_frame_data_offset page off) ≡ false
offsets_disjoint page off pos = ground (arith, offsets_apart page off pos)
