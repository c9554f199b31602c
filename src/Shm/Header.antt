-- ===== src/Shm/Header.antt =====
-- internal/fsm/walappender/shm/walindex.go: the header of the wal-index, in little-endian order.
use literaft.Base.{ℕ, Bool, true, false, not, ◌==◌, none, some, if◌then◌else◌}
use literaft.Base.Bytes.{little, Bytes, zeros, get32, put32, get16, put16, put8, bytes_of}
use literaft.Wal.Checksum.{compute_checksums}
use literaft.Wal.Header.{wal_header_version}

abbrev pub header_copy_size : ℕ
header_copy_size = 48

unfoldable pub version : Bytes → ℕ
version h = get32 little h 0

unfoldable pub set_version : Bytes → ℕ → Bytes
set_version h v = put32 little h 0 v

unfoldable pub change_counter : Bytes → ℕ
change_counter h = get32 little h 8

unfoldable pub set_change_counter : Bytes → ℕ → Bytes
set_change_counter h v = put32 little h 8 v

unfoldable pub max_frame : Bytes → ℕ
max_frame h = get32 little h 16

unfoldable pub set_max_frame : Bytes → ℕ → Bytes
set_max_frame h v = put32 little h 16 v

unfoldable pub page_count : Bytes → ℕ
page_count h = get32 little h 20

unfoldable pub set_page_count : Bytes → ℕ → Bytes
set_page_count h v = put32 little h 20 v

unfoldable pub last_frame_checksum1 : Bytes → ℕ
last_frame_checksum1 h = get32 little h 24

unfoldable pub set_last_frame_checksum1 : Bytes → ℕ → Bytes
set_last_frame_checksum1 h v = put32 little h 24 v

unfoldable pub last_frame_checksum2 : Bytes → ℕ
last_frame_checksum2 h = get32 little h 28

unfoldable pub set_last_frame_checksum2 : Bytes → ℕ → Bytes
set_last_frame_checksum2 h v = put32 little h 28 v

unfoldable pub salt1 : Bytes → ℕ
salt1 h = get32 little h 32

unfoldable pub set_salt1 : Bytes → ℕ → Bytes
set_salt1 h v = put32 little h 32 v

unfoldable pub salt2 : Bytes → ℕ
salt2 h = get32 little h 36

unfoldable pub set_salt2 : Bytes → ℕ → Bytes
set_salt2 h v = put32 little h 36 v

unfoldable pub checksum1 : Bytes → ℕ
checksum1 h = get32 little h 40

unfoldable pub set_checksum1 : Bytes → ℕ → Bytes
set_checksum1 h v = put32 little h 40 v

unfoldable pub checksum2 : Bytes → ℕ
checksum2 h = get32 little h 44

unfoldable pub set_checksum2 : Bytes → ℕ → Bytes
set_checksum2 h v = put32 little h 44 v

unfoldable pub is_init : Bytes → Bool
is_init h = not (h 12 == 0)

unfoldable pub set_init : Bytes → Bool → Bytes
set_init h init = put8 h 12 (if init then 1 else 0)

unfoldable pub big_endian_checksum : Bytes → Bool
big_endian_checksum h = not (h 13 == 0)

unfoldable pub set_big_endian_checksum : Bytes → Bool → Bytes
set_big_endian_checksum h is_big = put8 h 13 (if is_big then 1 else 0)

-- The size 65536 does not fit into 16 bits and is stored as 1.
unfoldable pub page_size : Bytes → ℕ
page_size h = if get16 h 14 == 1 then 65536 else get16 h 14

unfoldable pub set_page_size : Bytes → ℕ → Bytes
set_page_size h size = put16 h 14 (if size == 65536 then 1 else size)

unfoldable pub update_checksums : Bytes → Bytes
unfolding set_checksum1 set_checksum2
update_checksums h = elim (compute_checksums little (bytes_of h 0 40) 0 0) [
  | none ↦ h
  | some (c1, c2) ↦ set_checksum2 (set_checksum1 h c1) c2
]

unfoldable pub init_header : ℕ → ℕ → ℕ → ℕ → ℕ → Bytes
unfolding set_version set_change_counter set_init set_big_endian_checksum set_page_size
    set_max_frame set_page_count set_last_frame_checksum1 set_last_frame_checksum2 set_salt1
    set_salt2
init_header size c1 c2 s1 s2 =
    let h1 = set_change_counter (set_version zeros wal_header_version) 0 in
    let h2 = set_page_size (set_big_endian_checksum (set_init h1 true) false) size in
    let h3 = set_page_count (set_max_frame h2 0) 0 in
    let h4 = set_last_frame_checksum2 (set_last_frame_checksum1 h3 c1) c2 in
    set_salt2 (set_salt1 h4 s1) s2
