-- ===== src/Wal/Checksum.antt =====
-- internal/wal/checksum.go
pub mod Detect
use literaft.Base.{
  ℕ, zero, suc, ◌+◌, ◌*◌, ◌%◌, ◌<◌, ◌≡◌, refl, Option, none, some, List, [], ◌∷◌, ◌++◌, arith,
  length,
}
use literaft.Base.Bytes.{ByteOrder, little, big, word32, u32_mod}

-- One round of the loop, on the two words of an 8-byte block; uint32 addition wraps.
abbrev pub round1 : ℕ → ℕ → ℕ → ℕ
round1 w a b = (a + (w + b)) % u32_mod

abbrev pub round2 : ℕ → ℕ → ℕ → ℕ
round2 w a b = (b + (w + a)) % u32_mod

-- `none` stands for a length that is not a multiple of eight, which the loop cannot slice.
unfoldable pub compute_checksums : ByteOrder → List ℕ → ℕ → ℕ → Option (ℕ × ℕ)
compute_checksums enc [] a b = some (a, b)
compute_checksums enc (d0 ∷ d1 ∷ d2 ∷ d3 ∷ d4 ∷ d5 ∷ d6 ∷ d7 ∷ rest) a b =
    let a' = round1 (word32 enc d0 d1 d2 d3) a b in
    let b' = round2 (word32 enc d4 d5 d6 d7) a' b in compute_checksums enc rest a' b'
compute_checksums enc _ a b = none
