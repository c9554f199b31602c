-- ===== src/Wal/Frame.antt =====
-- internal/wal/frame.go: a frame is a 24-byte header and a page image.
use literaft.Base.{
  ℕ, ◌%◌, Bool, Option, none, some, List, [], ◌∷◌, ◌++◌, length, ◌==◌, if◌then◌else◌, not,
}
use literaft.Base.Bytes.{ByteOrder, big, Bytes, get32, put32, byte32}
use literaft.Wal.Checksum.{compute_checksums}

abbrev pub frame_header_size : ℕ
frame_header_size = 24

-- `Data` is called `image` here.
pub record Frame : Type 0 where
  pub header : Bytes
  pub image : List ℕ

unfoldable pub pg_no : Bytes → ℕ
pg_no h = get32 big h 0

unfoldable pub set_pg_no : Bytes → ℕ → Bytes
set_pg_no h p = put32 big h 0 p

unfoldable pub n_truncate : Bytes → ℕ
n_truncate h = get32 big h 4

unfoldable pub set_n_truncate : Bytes → ℕ → Bytes
set_n_truncate h n = put32 big h 4 n

unfoldable pub salt1 : Bytes → ℕ
salt1 h = get32 big h 8

unfoldable pub set_salt1 : Bytes → ℕ → Bytes
set_salt1 h s = put32 big h 8 s

unfoldable pub salt2 : Bytes → ℕ
salt2 h = get32 big h 12

unfoldable pub set_salt2 : Bytes → ℕ → Bytes
set_salt2 h s = put32 big h 12 s

unfoldable pub checksum1 : Bytes → ℕ
checksum1 h = get32 big h 16

unfoldable pub set_checksum1 : Bytes → ℕ → Bytes
set_checksum1 h c = put32 big h 16 c

unfoldable pub checksum2 : Bytes → ℕ
checksum2 h = get32 big h 20

unfoldable pub set_checksum2 : Bytes → ℕ → Bytes
set_checksum2 h c = put32 big h 20 c

unfoldable pub is_commit : Bytes → Bool
unfolding n_truncate
is_commit h = not (n_truncate h == 0)

-- binary.BigEndian.AppendUint32
abbrev pub be32 : ℕ → List ℕ
be32 v = byte32 big v 0 ∷ byte32 big v 1 ∷ byte32 big v 2 ∷ byte32 big v 3 ∷ []

-- What a frame's checksum covers: page number, commit size, image.
abbrev pub checksummed : Frame → List ℕ
checksummed f = be32 (pg_no f.header) ++ be32 (n_truncate f.header) ++ f.image

-- `none` is the error on an odd length; the caller's frame is then as it was.
unfoldable pub update_checksums : ByteOrder → Frame → ℕ → ℕ → Option Frame
unfolding set_checksum1 set_checksum2
update_checksums enc f prev1 prev2 =
    if length (checksummed f) % 8 == 0
    then elim (compute_checksums enc (checksummed f) prev1 prev2) [
      | none ↦ none
      | some (c1, c2) ↦ some (record f { header = set_checksum2 (set_checksum1 f.header c1) c2 })
    ]
    else none
