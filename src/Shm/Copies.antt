-- ===== src/Shm/Copies.antt =====
-- internal/fsm/walappender/shm/shm.go: the two copies of the wal-index header, whole and torn.
use literaft.Base.{
  ℕ, zero, suc, ◌+◌, ◌≤◌, ◌<◌, ◌≡◌, refl, sym, ap, ◌∙◌, true, false, ◌&&◌, Option, some, List, [],
  ◌∷◌, ◌⊎◌, inl, inr, arith, ◌==◌, Bool-cases, Option-cases,
}
use literaft.Base.Bytes.{
  little, Bytes, u32_mod, get32, put32, get32-put32, get32-put32_ne, copy_into, clone, bytes_of,
}
use literaft.Wal.Checksum.{compute_checksums}
use literaft.Wal.Checksum.Detect.{compute_checksums-lt}
use literaft.Shm.Header.{
  header_copy_size, checksum1, set_checksum1, checksum2, set_checksum2, update_checksums,
}
use literaft.Shm.Memory.{is_checked, read_copies, copy_offsets, write_copies_at, write_copies}

bytes_of-agree :
    (h g : Bytes) (off n : ℕ)
    → ((j : ℕ) → off ≤ j → j < off + n → h j ≡ g j)
    → bytes_of h off n ≡ bytes_of g off n
unfolding bytes_of
bytes_of-agree h g off zero e = refl
bytes_of-agree h g off (suc n) e = λ i.
    e off (omega arith) (omega arith) i
    ∷ bytes_of-agree h g (off + 1) n (λ j lo hi. e j (omega arith) (omega arith)) i

abbrev pub Agree : Bytes → Bytes → Type 0
Agree c d = (j : ℕ) → j < header_copy_size → c j ≡ d j

abbrev sums : Bytes → Option (ℕ × ℕ)
sums h = compute_checksums little (bytes_of h 0 40) 0 0

-- 40 bytes are five blocks.
checksums_exist : (h : Bytes) → (c1 : ℕ) × (c2 : ℕ) × (sums h ≡ some (c1, c2))
unfolding compute_checksums bytes_of
checksums_exist h = elim (Option-cases (sums h)) [
  | inl n ↦ absurd (cc)
  | inr ((c1, c2), n) ↦ (c1, c2, n)
]

sums-Agree : (c d : Bytes) → Agree c d → sums c ≡ sums d
sums-Agree c d e =
    ap (λ bs. compute_checksums little bs 0 0)
      (bytes_of-agree c d 0 40 (λ j lo hi. e j (omega arith)))

is_checked_lem :
    (c : Bytes) (c1 c2 : ℕ)
    → sums c ≡ some (c1, c2)
    → is_checked c ≡ (c1 == checksum1 c && c2 == checksum2 c)
unfolding is_checked checksum1
is_checked_lem c c1 c2 n = rw (n, is_checked)

pub word-Agree :
    (c d : Bytes) (off : ℕ)
    → off + 4 ≤ header_copy_size
    → Agree c d
    → get32 little c off ≡ get32 little d off
unfolding get32
word-Agree c d off le e = ground (
  arith,
  e off (omega arith),
  e (off + 1) (omega arith),
  e (off + 2) (omega arith),
  e (off + 3) (omega arith),
)

is_checked-Agree : (c d : Bytes) → Agree c d → is_checked c ≡ is_checked d
unfolding checksum1 checksum2
is_checked-Agree c d e =
    let (c1, c2, n) = checksums_exist c in
    let a = is_checked_lem c c1 c2 n in
    let b = is_checked_lem d c1 c2 (sym (sums-Agree c d e) ∙ n) in
    let w1 = word-Agree c d 40 (omega arith) e in
    let w2 = word-Agree c d 44 (omega arith) e in ground (arith, a, b, w1, w2)

update_checksums_lem :
    (h : Bytes) (c1 c2 : ℕ)
    → sums h ≡ some (c1, c2)
    → update_checksums h ≡ set_checksum2 (set_checksum1 h c1) c2
unfolding update_checksums set_checksum2
update_checksums_lem h c1 c2 n = rw (n, update_checksums)

abbrev sealed : Bytes → ℕ → ℕ → Bytes
sealed h c1 c2 = set_checksum2 (set_checksum1 h c1) c2

sealed-fields :
    (h : Bytes) (c1 c2 : ℕ)
    → c1 < u32_mod
    → c2 < u32_mod
    → (checksum1 (sealed h c1 c2) ≡ c1) × (checksum2 (sealed h c1 c2) ≡ c2)
unfolding checksum1 checksum2 set_checksum1 set_checksum2
sealed-fields h c1 c2 l1 l2 = (
  get32-put32_ne little little (put32 little h 40 c1) 44 40 c2 (inr (omega arith))
      ∙ get32-put32 little h 40 c1 l1,
  get32-put32 little (put32 little h 40 c1) 44 c2 l2,
)

sealed-body : (h : Bytes) (c1 c2 j : ℕ) → j < 40 → sealed h c1 c2 j ≡ h j
unfolding set_checksum1 set_checksum2 put32
sealed-body h c1 c2 j lt = ground arith

-- UpdateChecksums makes a header that ReadHeader takes.
update_checksums-checked : (h : Bytes) → is_checked (update_checksums h) ≡ true
update_checksums-checked h =
    let (c1, c2, n) = checksums_exist h in
    let (l1, l2) =
      compute_checksums-lt little (bytes_of h 0 40) 0 0 (omega arith) (omega arith) n in
    let same = bytes_of-agree (sealed h c1 c2) h 0 40 (λ j lo hi. sealed-body h c1 c2 j hi) in
    let again : sums (sealed h c1 c2) ≡ some (c1, c2) =
      ap (λ bs. compute_checksums little bs 0 0) same ∙ n in
    let (f1, f2) = sealed-fields h c1 c2 l1 l2 in
    rw (update_checksums_lem h c1 c2 n)
      (is_checked_lem (sealed h c1 c2) c1 c2 again ∙ ground (arith, f1, f2))

-- The region if WriteHeader, whose copies go to `offs`, stops behind `n` of them and leaves any bytes
-- `junk` where the next one goes.
abbrev pub stopped : List ℕ → ℕ → Bytes → Bytes → Bytes → Bytes
stopped [] n junk r h = r
stopped (off ∷ offs) zero junk r h = copy_into r off header_copy_size junk
stopped (off ∷ offs) (suc n) junk r h = stopped offs n junk (copy_into r off header_copy_size h) h

clone-copied : (r h : Bytes) (off : ℕ) → Agree (clone (copy_into r off header_copy_size h) off 48) h
unfolding clone copy_into
clone-copied r h off j lt = ground arith

clone-kept :
    (r h : Bytes) (off at : ℕ)
    → (off + header_copy_size ≤ at) ⊎ (at + header_copy_size ≤ off)
    → Agree (clone (copy_into r off header_copy_size h) at 48) (clone r at 48)
unfolding clone copy_into
clone-kept r h off at (inl le) j lt = ground arith
clone-kept r h off at (inr le) j lt = ground arith

-- ReadHeader takes the first copy that has its own checksum.
read_first :
    (r c : Bytes)
    → Agree (clone r 0 48) c
    → is_checked c ≡ true
    → read_copies r ≡ some (clone r 0 48)
unfolding read_copies
read_first r c agree good = rw (is_checked-Agree (clone r 0 48) c agree ∙ good)

read_second :
    (r b c : Bytes)
    → Agree (clone r 0 48) b
    → is_checked b ≡ false
    → Agree (clone r 48 48) c
    → is_checked c ≡ true
    → read_copies r ≡ some (clone r 48 48)
unfolding read_copies
read_second r b c junk bad agree good =
    rw (
      is_checked-Agree (clone r 0 48) b junk ∙ bad,
      is_checked-Agree (clone r 48 48) c agree ∙ good,
    )

-- What ReadHeader returns from a region: the old header, the new one, or bytes of the copy that was
-- being made if they happen to have their own checksum.
abbrev pub Survives : Bytes → Bytes → Bytes → Bytes → Type 0
Survives old new junk r =
    (c : Bytes) × (read_copies r ≡ some c)
    × (Agree c old ⊎ (Agree c new ⊎ ((is_checked junk ≡ true) × Agree c junk)))

survives :
    (n : ℕ) (r h junk : Bytes)
    → is_checked (clone r 0 48) ≡ true
    → Survives
        (clone r 0 48)
        (update_checksums h)
        junk
        (stopped copy_offsets n junk r (update_checksums h))
survives zero r h junk good =
    let all = copy_into r 48 48 junk in
    let kept = clone-kept r junk 48 0 (inr (omega arith)) in
    (clone all 0 48, read_first all (clone r 0 48) kept good, inl kept)
survives (suc zero) r h junk good =
    let h' = update_checksums h in
    let first = copy_into r 48 48 h' in
    let all = copy_into first 0 48 junk in
    let torn = clone-copied first junk 0 in
    elim (Bool-cases (is_checked junk)) [
      | inl own ↦ (clone all 0 48, read_first all junk torn own, inr (inr (own, torn)))
      | inr bad ↦
          let made : Agree (clone all 48 48) h' = λ j lt.
            clone-kept first junk 0 48 (inl (omega arith)) j lt ∙ clone-copied r h' 48 j lt in
          (
            clone all 48 48,
            read_second all junk h' torn bad made (update_checksums-checked h),
            inr (inl made),
          )
    ]
survives (suc (suc n)) r h junk good =
    let h' = update_checksums h in
    let all = copy_into (copy_into r 48 48 h') 0 48 h' in
    let made = clone-copied (copy_into r 48 48 h') h' 0 in
    (clone all 0 48, read_first all h' made (update_checksums-checked h), inr (inl made))

-- WriteHeader can stop anywhere, behind none, one or both of its copies, with any bytes in the copy
-- that it was making. If copy 0 had its checksum before, ReadHeader returns a header: the old one,
-- the new one, or those bytes if they have their own checksum. Behind both copies
-- the region is what WriteHeader leaves.
pub torn_header :
    (n : ℕ) (r h junk : Bytes)
    → is_checked (clone r 0 48) ≡ true
    → Survives
        (clone r 0 48)
        (update_checksums h)
        junk
        (stopped copy_offsets n junk r (update_checksums h))
      × (stopped copy_offsets (suc (suc n)) junk r (update_checksums h)
          ≡ write_copies r (update_checksums h))
unfolding write_copies write_copies_at
torn_header n r h junk good = (survives n r h junk good, refl)

copy0-written : (r h : Bytes) → Agree (clone (write_copies r h) 0 48) h
unfolding clone write_copies write_copies_at copy_into
copy0-written r h j lt = ground arith

-- What WriteHeader has written, ReadHeader reads.
pub read_copies-write_copies :
    (r h : Bytes)
    → (c : Bytes) × (read_copies (write_copies r (update_checksums h)) ≡ some c)
      × Agree c (update_checksums h)
unfolding read_copies
read_copies-write_copies r h =
    let all = write_copies r (update_checksums h) in
    let at = copy0-written r (update_checksums h) in
    let good = is_checked-Agree (clone all 0 48) (update_checksums h) at in
    (clone all 0 48, rw (good ∙ update_checksums-checked h), at)
