-- ===== src/WalAppender/Sealed.antt =====
-- internal/fsm/walappender/walappender.go: what sealing a frame leaves of it.
use literaft.Base.{ℕ, ◌+◌, ◌≤◌, ◌≡◌, refl, ◌∙◌, some, inl, inr, arith, Option-cases}
use literaft.Base.Bytes.{ByteOrder, Bytes, big, get32, put32, get32-put32_ne}
use literaft.Wal.Checksum.{compute_checksums}
use literaft.Wal.Frame as WalFrame
use literaft.Wal.Frame.{Frame, n_truncate, pg_no}
use literaft.Shm.Header as IndexHeader
use literaft.WalAppender.Append.{Loop, checksum_order, seal_frame}

salts-kept :
    (h : Bytes) (off a b : ℕ)
    → off + 4 ≤ 8
    → get32 big (WalFrame.set_salt2 (WalFrame.set_salt1 h a) b) off ≡ get32 big h off
unfolding WalFrame.set_salt1 WalFrame.set_salt2
salts-kept h off a b le =
    get32-put32_ne big big (put32 big h 8 a) 12 off b (inr (omega arith))
    ∙ get32-put32_ne big big h 8 off a (inr (omega arith))

checksums-kept :
    (h : Bytes) (off a b : ℕ)
    → off + 4 ≤ 8
    → get32 big (WalFrame.set_checksum2 (WalFrame.set_checksum1 h a) b) off ≡ get32 big h off
unfolding WalFrame.set_checksum1 WalFrame.set_checksum2
checksums-kept h off a b le =
    get32-put32_ne big big (put32 big h 16 a) 20 off b (inr (omega arith))
    ∙ get32-put32_ne big big h 16 off a (inr (omega arith))

update_checksums-kept :
    (enc : ByteOrder) (f g : Frame) (off a b : ℕ)
    → off + 4 ≤ 8
    → WalFrame.update_checksums enc f a b ≡ some g
    → (get32 big g.header off ≡ get32 big f.header off) × (g.image ≡ f.image)
unfolding WalFrame.update_checksums
update_checksums-kept enc f g off a b le h =
    elim (Option-cases (compute_checksums enc (WalFrame.checksummed f) a b)) [
      | inl k ↦ absurd (ground (arith, k, h))
      | inr ((c1, c2), k) ↦
          (ground (arith, k, h, checksums-kept f.header off c1 c2 le), ground (arith, k, h))
    ]

seal_frame-kept :
    (f : Frame) (l : Loop) (off : ℕ)
    → off + 4 ≤ 8
    → (get32 big (seal_frame f l).header off ≡ get32 big f.header off)
      × ((seal_frame f l).image ≡ f.image)
unfolding seal_frame
seal_frame-kept f l off le =
    let h =
      WalFrame.set_salt2 (WalFrame.set_salt1 f.header (IndexHeader.salt1 l.hdr))
        (IndexHeader.salt2 l.hdr) in
    let f1 : Frame = record { header = h; image = f.image } in
    let salted = salts-kept f.header off (IndexHeader.salt1 l.hdr) (IndexHeader.salt2 l.hdr) le in
    elim (Option-cases
      (WalFrame.update_checksums (checksum_order l.hdr) f1 l.checksum1 l.checksum2)) [
        | inl k ↦ rw (k, seal_frame) (salted, refl)
        | inr (g, k) ↦
            let (a, b) =
              update_checksums-kept (checksum_order l.hdr) f1 g off l.checksum1 l.checksum2 le k in
            rw (k, seal_frame) (a ∙ salted, b)
      ]

-- Sealing a frame does not make it a commit frame, nor unmake one.
pub seal_frame-n_truncate :
    (f : Frame) (l : Loop) → n_truncate (seal_frame f l).header ≡ n_truncate f.header
unfolding n_truncate
seal_frame-n_truncate f l = (seal_frame-kept f l 4 (omega arith)).0

pub seal_frame-pg_no : (f : Frame) (l : Loop) → pg_no (seal_frame f l).header ≡ pg_no f.header
unfolding pg_no
seal_frame-pg_no f l = (seal_frame-kept f l 0 (omega arith)).0

pub seal_frame-image : (f : Frame) (l : Loop) → (seal_frame f l).image ≡ f.image
seal_frame-image f l = (seal_frame-kept f l 0 (omega arith)).1
