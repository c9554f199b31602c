-- ===== src/WalAppender/Stored.antt =====
-- internal/fsm/walappender/walappender.go: what the -wal file holds after its writes.
use literaft.Base.{
  ℕ, zero, suc, ◌+◌, ◌-◌, ◌≤◌, ◌<◌, ◌≡◌, refl, ap, ◌∙◌, Option, none, List, [], ◌∷◌, length,
  get_elem?, leb, ltb, ◌&&◌, true, false, if◌then◌else◌, arith,
}
use literaft.Base.Bytes.{Bytes, bytes_of}
use literaft.Wal.Frame.{Frame, frame_header_size}
use literaft.Wal.Offsets.{frame_offset}

-- The byte at an offset: of the newest write that covers it.
unfoldable pub file_at : List (ℕ × List ℕ) → ℕ → Option ℕ
file_at [] j = none
file_at ((off, bytes) ∷ w) j =
    let rest = file_at w j in
    if leb off j && ltb j (off + length bytes) then get_elem? bytes (j - off) else rest

abbrev pub Wrote : List (ℕ × List ℕ) → ℕ → List ℕ → Type 0
Wrote w off bytes = (i : ℕ) → i < length bytes → file_at w (off + i) ≡ get_elem? bytes i

-- The frames of the log, the newest first, each at its place.
abbrev pub Stored : ℕ → List (ℕ × List ℕ) → List Frame → Type 0
Stored page w [] = Unit
Stored page w (f ∷ fs) =
    Wrote w (frame_offset page (length fs)) (bytes_of f.header 0 frame_header_size)
    × Wrote w (frame_offset page (length fs) + frame_header_size) f.image
    × (length f.image ≡ page)
    × Stored page w fs

Wrote-new : (w : List (ℕ × List ℕ)) (off : ℕ) (bytes : List ℕ) → Wrote ((off, bytes) ∷ w) off bytes
unfolding file_at
Wrote-new w off bytes i lt =
    let at : off + i - off ≡ i = omega arith in
    let inside : (leb off (off + i) && ltb (off + i) (off + length bytes)) ≡ true = ground arith in
    rw inside (rw at refl)

file_at-below :
    (w : List (ℕ × List ℕ)) (off j : ℕ) (bytes : List ℕ)
    → j < off
    → file_at ((off, bytes) ∷ w) j ≡ file_at w j
unfolding file_at
file_at-below w off j bytes lt =
    let outside : (leb off j && ltb j (off + length bytes)) ≡ false = ground arith in rw outside

Wrote-old :
    (w : List (ℕ × List ℕ)) (off start : ℕ) (bytes old : List ℕ)
    → start + length old ≤ off
    → Wrote w start old
    → Wrote ((off, bytes) ∷ w) start old
Wrote-old w off start bytes old le h i lt =
    file_at-below w off (start + i) bytes (omega arith) ∙ h i lt

length-bytes_of : (h : Bytes) (off n : ℕ) → length (bytes_of h off n) ≡ n
unfolding bytes_of
length-bytes_of h off zero = refl
length-bytes_of h off (suc n) = ap suc (length-bytes_of h (off + 1) n)

frame_offset-suc :
    (page n : ℕ) → frame_offset page (suc n) ≡ frame_offset page n + (frame_header_size + page)
frame_offset-suc page n = omega arith

-- A write behind the log leaves it as it is.
Stored-old :
    (page : ℕ) (w : List (ℕ × List ℕ)) (off : ℕ) (bytes : List ℕ) (log : List Frame)
    → frame_offset page (length log) ≤ off
    → Stored page w log
    → Stored page ((off, bytes) ∷ w) log
Stored-old page w off bytes [] le s = tt
Stored-old page w off bytes (f ∷ fs) le (head, image, sized, rest) =
    let next = frame_offset-suc page (length fs) in
    (
      Wrote-old w off _ bytes _ (omega (arith, length-bytes_of f.header 0 frame_header_size, next))
          head,
      Wrote-old w off _ bytes f.image (omega (arith, next, sized)) image,
      sized,
      Stored-old page w off bytes fs (omega (arith, next)) rest,
    )

-- Writing the header and the image of the next frame behind the log.
pub Stored-next :
    (page : ℕ) (w : List (ℕ × List ℕ)) (f : Frame) (log : List Frame)
    → length f.image ≡ page
    → Stored page w log
    → let off = frame_offset page (length log) in
      Stored page
        ((off + frame_header_size, f.image) ∷ ((off, bytes_of f.header 0 frame_header_size) ∷ w))
        (f ∷ log)
Stored-next page w f log sized s =
    let off = frame_offset page (length log) in
    let head = bytes_of f.header 0 frame_header_size in
    (
      Wrote-old ((off, head) ∷ w) (off + frame_header_size) off f.image head
          (omega (arith, length-bytes_of f.header 0 frame_header_size)) (Wrote-new w off head),
      Wrote-new ((off, head) ∷ w) (off + frame_header_size) f.image,
      sized,
      Stored-old page ((off, head) ∷ w) (off + frame_header_size) f.image log (omega arith)
          (Stored-old page w off head log (omega arith) s),
    )
