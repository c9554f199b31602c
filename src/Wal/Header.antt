-- ===== src/Wal/Header.antt =====
-- internal/wal/header.go: the 32 bytes at the start of a -wal file.
use literaft.Base.{ℕ, ◌==◌, Option, none, some, if◌then◌else◌}
use literaft.Base.Bytes.{ByteOrder, little, big, Bytes, zeros, get32, put32, bytes_of}
use literaft.Wal.Checksum.{compute_checksums}

abbrev pub wal_header_size : ℕ
wal_header_size = 32

abbrev pub magic_le : ℕ
magic_le = 0x377f0682

abbrev pub magic_be : ℕ
magic_be = 0x377f0683

abbrev pub wal_header_version : ℕ
wal_header_version = 3007000

unfoldable pub magic : Bytes → ℕ
magic h = get32 big h 0

unfoldable pub set_magic : Bytes → ℕ → Bytes
set_magic h m = put32 big h 0 m

unfoldable pub version : Bytes → ℕ
version h = get32 big h 4

unfoldable pub set_version : Bytes → ℕ → Bytes
set_version h v = put32 big h 4 v

unfoldable pub page_size : Bytes → ℕ
page_size h = get32 big h 8

unfoldable pub set_page_size : Bytes → ℕ → Bytes
set_page_size h p = put32 big h 8 p

unfoldable pub checkpoint_seq : Bytes → ℕ
checkpoint_seq h = get32 big h 12

unfoldable pub set_checkpoint_seq : Bytes → ℕ → Bytes
set_checkpoint_seq h s = put32 big h 12 s

unfoldable pub salt1 : Bytes → ℕ
salt1 h = get32 big h 16

unfoldable pub set_salt1 : Bytes → ℕ → Bytes
set_salt1 h s = put32 big h 16 s

unfoldable pub salt2 : Bytes → ℕ
salt2 h = get32 big h 20

unfoldable pub set_salt2 : Bytes → ℕ → Bytes
set_salt2 h s = put32 big h 20 s

unfoldable pub checksum1 : Bytes → ℕ
checksum1 h = get32 big h 24

unfoldable pub set_checksum1 : Bytes → ℕ → Bytes
set_checksum1 h c = put32 big h 24 c

unfoldable pub checksum2 : Bytes → ℕ
checksum2 h = get32 big h 28

unfoldable pub set_checksum2 : Bytes → ℕ → Bytes
set_checksum2 h c = put32 big h 28 c

-- The byte order that the magic number selects.
abbrev pub checksum_order : Bytes → ByteOrder
checksum_order h = if magic h == magic_be then big else little

-- The checksum of h[:24] is always defined, since 24 is a multiple of eight.
unfoldable pub update_checksums : Bytes → Bytes
unfolding magic set_checksum1 set_checksum2
update_checksums h = elim (compute_checksums (checksum_order h) (bytes_of h 0 24) 0 0) [
  | none ↦ h
  | some (c1, c2) ↦ set_checksum2 (set_checksum1 h c1) c2
]

-- The salt bytes that crypto/rand gives are an argument; `none` is its failure.
unfoldable pub init_header : Option Bytes → ℕ → Option Bytes
unfolding set_magic set_version set_page_size set_checkpoint_seq set_salt1 set_salt2
    update_checksums
init_header none page = none
init_header (some salt_bytes) page =
    let h0 =
      set_checkpoint_seq
        (set_page_size (set_version (set_magic zeros magic_le) wal_header_version) page) 0 in
    let h1 = set_salt2 (set_salt1 h0 (get32 big salt_bytes 0)) (get32 big salt_bytes 4) in
    some (update_checksums h1)
