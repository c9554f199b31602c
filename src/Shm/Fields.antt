-- ===== src/Shm/Fields.antt =====
-- internal/fsm/walappender/shm/walindex.go: the fields of a fresh wal-index header.
use literaft.Base.{ℕ, ◌<◌, ◌≤◌, ◌≡◌, true, false, arith}
use literaft.Base.Bytes.{Bytes, u32_mod, get32, put32, get16, put16, put8}
use literaft.Wal.Header.{wal_header_version}
use literaft.Shm.Header.{
  version, set_version, change_counter, set_change_counter, is_init, set_init, big_endian_checksum,
  set_big_endian_checksum, page_size, set_page_size, max_frame, set_max_frame, page_count,
  set_page_count, last_frame_checksum1, set_last_frame_checksum1, last_frame_checksum2,
  set_last_frame_checksum2, salt1, set_salt1, salt2, set_salt2, init_header,
}

-- SQLite's page sizes: from 512 to 65536, of which 65536 does not fit into the field's 16 bits.
pub record Fields (h : Bytes) (size c1 c2 s1 s2 : ℕ) : Type 0 where
  pub versioned : version h ≡ wal_header_version
  pub unchanged : change_counter h ≡ 0
  pub initialized : is_init h ≡ true
  pub native : big_endian_checksum h ≡ false
  pub sized : page_size h ≡ size
  pub empty_log : max_frame h ≡ 0
  pub empty_db : page_count h ≡ 0
  pub first : last_frame_checksum1 h ≡ c1
  pub second : last_frame_checksum2 h ≡ c2
  pub salted1 : salt1 h ≡ s1
  pub salted2 : salt2 h ≡ s2

-- InitHeader makes an initialized header of an empty log, every field of which reads back as it was
-- given.
pub init_header-Fields :
    (size c1 c2 s1 s2 : ℕ)
    → 512 ≤ size
    → size ≤ 65536
    → c1 < u32_mod
    → c2 < u32_mod
    → s1 < u32_mod
    → s2 < u32_mod
    → Fields (init_header size c1 c2 s1 s2) size c1 c2 s1 s2
unfolding init_header version change_counter is_init big_endian_checksum page_size max_frame
    page_count last_frame_checksum1 last_frame_checksum2 salt1 salt2 set_version set_change_counter
    set_init set_big_endian_checksum set_page_size set_max_frame set_page_count
    set_last_frame_checksum1 set_last_frame_checksum2 set_salt1 set_salt2 get32 put32 get16 put16
    put8
init_header-Fields size c1 c2 s1 s2 lo hi l1 l2 l3 l4 = record {
  versioned = ground arith;
  unchanged = ground arith;
  initialized = ground arith;
  native = ground arith;
  sized = ground arith;
  empty_log = ground arith;
  empty_db = ground arith;
  first = ground arith;
  second = ground arith;
  salted1 = ground arith;
  salted2 = ground arith;
}
