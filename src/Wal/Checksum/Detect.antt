-- ===== src/Wal/Checksum/Detect.antt =====
-- What the running checksum tells apart.
use literaft.Base.{ℕ, ◌+◌, ◌%◌, ◌<◌, ◌≡◌, some, List, [], ◌∷◌, ◌++◌, arith}
use literaft.Base.Bytes.{ByteOrder, little, big, word32, u32_mod}
use literaft.Wal.Checksum.{compute_checksums, round1, round2}

-- The checksum of a whole is that of its parts, the second seeded by the first.
pub compute_checksums-append :
    (enc : ByteOrder) (xs ys : List ℕ) (a b : ℕ) {a' b' : ℕ}
    → compute_checksums enc xs a b ≡ some (a', b')
    → compute_checksums enc (xs ++ ys) a b ≡ compute_checksums enc ys a' b'
unfolding compute_checksums
compute_checksums-append enc (d0 ∷ d1 ∷ d2 ∷ d3 ∷ d4 ∷ d5 ∷ d6 ∷ d7 ∷ xs) ys a b h =
    compute_checksums-append enc xs ys _ _ h
compute_checksums-append enc [] ys a b h = ground arith
compute_checksums-append enc _ ys a b h = cc

add_mod_cancel :
    (x y k : ℕ) → x < u32_mod → y < u32_mod → (x + k) % u32_mod ≡ (y + k) % u32_mod → x ≡ y
add_mod_cancel x y k hx hy e = omega arith

add_mod_cancel_left :
    (x y k l : ℕ)
    → x < u32_mod
    → y < u32_mod
    → (k + (l + x)) % u32_mod ≡ (k + (l + y)) % u32_mod
    → x ≡ y
add_mod_cancel_left x y k l hx hy e = omega arith

-- A round is injective in the pair of sums that it is given.
round_injective :
    (w v a b c d : ℕ)
    → a < u32_mod
    → b < u32_mod
    → c < u32_mod
    → d < u32_mod
    → round1 w a b ≡ round1 w c d
    → round2 v (round1 w a b) b ≡ round2 v (round1 w c d) d
    → (a ≡ c) × (b ≡ d)
round_injective w v a b c d ha hb hc hd p q =
    let q' = rw (← p) at q in
    let eb = add_mod_cancel b d (v + round1 w a b) hb hd q' in
    let p' = rw (← eb) at p in (add_mod_cancel a c (w + b) ha hc p', eb)

pub compute_checksums-injective :
    (enc : ByteOrder) (xs : List ℕ) (a b c d : ℕ) {r : ℕ × ℕ}
    → a < u32_mod
    → b < u32_mod
    → c < u32_mod
    → d < u32_mod
    → compute_checksums enc xs a b ≡ some r
    → compute_checksums enc xs c d ≡ some r
    → (a ≡ c) × (b ≡ d)
unfolding compute_checksums
compute_checksums-injective enc (d0 ∷ d1 ∷ d2 ∷ d3 ∷ d4 ∷ d5 ∷ d6 ∷ d7 ∷ xs) a b c d ha hb hc hd p
      q =
    let (e1, e2) =
      compute_checksums-injective enc xs _ _ _ _ (omega arith) (omega arith) (omega arith)
        (omega arith) p q in
    round_injective _ _ a b c d ha hb hc hd e1 e2
compute_checksums-injective enc [] a b c d ha hb hc hd p q = (cc, cc)
compute_checksums-injective enc _ a b c d ha hb hc hd p q = cc

-- And in the two words of its block.
words_injective :
    (w v w' v' a b : ℕ)
    → w < u32_mod
    → v < u32_mod
    → w' < u32_mod
    → v' < u32_mod
    → round1 w a b ≡ round1 w' a b
    → round2 v (round1 w a b) b ≡ round2 v' (round1 w' a b) b
    → (w ≡ w') × (v ≡ v')
words_injective w v w' v' a b hw hv hw' hv' p q =
    let ew : w ≡ w' = omega arith in
    let q' = rw (← p) at q in let ev : v ≡ v' = omega arith in (ew, ev)

abbrev pub IsByte : ℕ → Type 0
IsByte d = d < 256

-- Eight bytes, the unit of the loop.
pub record Block : Type 0 where
  pub d0 : ℕ
  pub d1 : ℕ
  pub d2 : ℕ
  pub d3 : ℕ
  pub d4 : ℕ
  pub d5 : ℕ
  pub d6 : ℕ
  pub d7 : ℕ

abbrev pub block_bytes : Block → List ℕ
block_bytes k = k.d0 ∷ k.d1 ∷ k.d2 ∷ k.d3 ∷ k.d4 ∷ k.d5 ∷ k.d6 ∷ k.d7 ∷ []

pub record IsBlock (k : Block) : Type 0 where
  pub b0 : IsByte k.d0
  pub b1 : IsByte k.d1
  pub b2 : IsByte k.d2
  pub b3 : IsByte k.d3
  pub b4 : IsByte k.d4
  pub b5 : IsByte k.d5
  pub b6 : IsByte k.d6
  pub b7 : IsByte k.d7

word32-lt :
    (enc : ByteOrder) (a b c d : ℕ)
    → IsByte a
    → IsByte b
    → IsByte c
    → IsByte d
    → word32 enc a b c d < u32_mod
word32-lt little a b c d ha hb hc hd = omega arith
word32-lt big a b c d ha hb hc hd = omega arith

word32-injective :
    (enc : ByteOrder) (a b c d a' b' c' d' : ℕ)
    → IsByte a
    → IsByte b
    → IsByte c
    → IsByte d
    → IsByte a'
    → IsByte b'
    → IsByte c'
    → IsByte d'
    → word32 enc a b c d ≡ word32 enc a' b' c' d'
    → (a ≡ a') × (b ≡ b') × (c ≡ c') × (d ≡ d')
word32-injective little a b c d a' b' c' d' ha hb hc hd ha' hb' hc' hd' e =
    (omega arith, omega arith, omega arith, omega arith)
word32-injective big a b c d a' b' c' d' ha hb hc hd ha' hb' hc' hd' e =
    (omega arith, omega arith, omega arith, omega arith)

pub compute_checksums-lt :
    (enc : ByteOrder) (xs : List ℕ) (a b : ℕ) {c d : ℕ}
    → a < u32_mod
    → b < u32_mod
    → compute_checksums enc xs a b ≡ some (c, d)
    → (c < u32_mod) × (d < u32_mod)
unfolding compute_checksums
compute_checksums-lt enc (d0 ∷ d1 ∷ d2 ∷ d3 ∷ d4 ∷ d5 ∷ d6 ∷ d7 ∷ xs) a b ha hb h =
    compute_checksums-lt enc xs _ _ (omega arith) (omega arith) h
compute_checksums-lt enc [] a b ha hb h = ground arith
compute_checksums-lt enc _ a b ha hb h = absurd (cc)

-- The first block of what is read: the sums after it determine it.
block_injective :
    (enc : ByteOrder) (k k' : Block) (post : List ℕ) (a b : ℕ) {r : ℕ × ℕ}
    → IsBlock k
    → IsBlock k'
    → compute_checksums enc (block_bytes k ++ post) a b ≡ some r
    → compute_checksums enc (block_bytes k' ++ post) a b ≡ some r
    → k ≡ k'
unfolding compute_checksums
block_injective enc k k' post a b v v' p q =
    let (e1, e2) =
      compute_checksums-injective enc post _ _ _ _ (omega arith) (omega arith) (omega arith)
        (omega arith) p q in
    let (w1, w2) =
      words_injective _ _ _ _ a b (word32-lt enc k.d0 k.d1 k.d2 k.d3 v.b0 v.b1 v.b2 v.b3)
        (word32-lt enc k.d4 k.d5 k.d6 k.d7 v.b4 v.b5 v.b6 v.b7)
        (word32-lt enc k'.d0 k'.d1 k'.d2 k'.d3 v'.b0 v'.b1 v'.b2 v'.b3)
        (word32-lt enc k'.d4 k'.d5 k'.d6 k'.d7 v'.b4 v'.b5 v'.b6 v'.b7) e1 e2 in
    let (f0, f1, f2, f3) =
      word32-injective enc _ _ _ _ _ _ _ _ v.b0 v.b1 v.b2 v.b3 v'.b0 v'.b1 v'.b2 v'.b3 w1 in
    let (f4, f5, f6, f7) =
      word32-injective enc _ _ _ _ _ _ _ _ v.b4 v.b5 v.b6 v.b7 v'.b4 v'.b5 v'.b6 v'.b7 w2 in
    λ i. record {
      d0 = f0 i;
      d1 = f1 i;
      d2 = f2 i;
      d3 = f3 i;
      d4 = f4 i;
      d5 = f5 i;
      d6 = f6 i;
      d7 = f7 i;
    }

-- Two inputs of whole 8-byte blocks that differ in one block only, with the same seed, never have
-- the same pair of checksums; `pre` is given with its own checksums, so it consists of whole blocks.
pub checksums_detect_block :
    (enc : ByteOrder) (pre post : List ℕ) (k k' : Block) (a b : ℕ) {c d : ℕ} {r : ℕ × ℕ}
    → a < u32_mod
    → b < u32_mod
    → IsBlock k
    → IsBlock k'
    → compute_checksums enc pre a b ≡ some (c, d)
    → compute_checksums enc (pre ++ (block_bytes k ++ post)) a b ≡ some r
    → compute_checksums enc (pre ++ (block_bytes k' ++ post)) a b ≡ some r
    → k ≡ k'
checksums_detect_block enc pre post k k' a b ha hb v v' s p q =
    block_injective enc k k' post _ _ v v'
      (rw (compute_checksums-append enc pre (block_bytes k ++ post) a b s) at p)
      (rw (compute_checksums-append enc pre (block_bytes k' ++ post) a b s) at q)
