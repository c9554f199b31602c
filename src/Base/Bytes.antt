-- ===== src/Base/Bytes.antt =====
-- Fixed-size Go byte arrays, and the parts of encoding/binary that the WAL and the wal-index use.
-- An array is the function from an index to a byte; every index of the source is a constant inside
-- the array, or is shown to be inside it where it is computed.
use literaft.Base.Tests.{ltb, leb, ◌==◌, if◌then◌else◌}
use Prim.Native.Nat.{ℕ, zero, suc, ◌+◌, ◌-◌, ◌*◌, ◌/◌, ◌%◌, ◌≤◌, ◌<◌}
use mathlib.Core.Path.{◌≡◌}
use mathlib.Core.Logic.{◌⊎◌}
use mathlib.Core.Bool.{◌&&◌}
use mathlib.Core.List.{List, [], ◌∷◌}
use native.Mathlib.Omega.{arith}

abbrev pub Bytes : Type 0
Bytes = ℕ → ℕ

-- A fresh array is all zero.
abbrev pub zeros : Bytes
zeros = λ _. 0

abbrev pub u32_mod : ℕ
u32_mod = 4294967296

-- The byte order of a field or of a checksum.
pub data ByteOrder : Type 0 where
  little big : ByteOrder

-- Byte `k` of a 32-bit word in memory order.
abbrev pub byte32 : ByteOrder → ℕ → ℕ → ℕ
byte32 little v k =
    if k == 0
    then v % 256
    else if k == 1
    then v / 256 % 256
    else if k == 2
    then v / 65536 % 256
    else v / 16777216 % 256
byte32 big v k =
    if k == 0
    then v / 16777216 % 256
    else if k == 1
    then v / 65536 % 256
    else if k == 2
    then v / 256 % 256
    else v % 256

-- enc.Uint32 of four bytes.
abbrev pub word32 : ByteOrder → ℕ → ℕ → ℕ → ℕ → ℕ
word32 little a b c d = a + b * 256 + c * 65536 + d * 16777216
word32 big a b c d = a * 16777216 + b * 65536 + c * 256 + d

-- enc.Uint32(h[off : off+4])
unfoldable pub get32 : ByteOrder → Bytes → ℕ → ℕ
get32 enc h off = word32 enc (h off) (h (off + 1)) (h (off + 2)) (h (off + 3))

-- enc.PutUint32(h[off : off+4], v)
unfoldable pub put32 : ByteOrder → Bytes → ℕ → ℕ → Bytes
put32 enc h off v j = if leb off j && ltb j (off + 4) then byte32 enc v (j - off) else h j

-- binary.LittleEndian.Uint16(h[off : off+2])
unfoldable pub get16 : Bytes → ℕ → ℕ
get16 h off = h off + h (off + 1) * 256

-- binary.LittleEndian.PutUint16(h[off : off+2], v)
unfoldable pub put16 : Bytes → ℕ → ℕ → Bytes
put16 h off v j =
    if leb off j && ltb j (off + 2) then (if ltb off j then v / 256 % 256 else v % 256) else h j

-- h[i] = b
unfoldable pub put8 : Bytes → ℕ → ℕ → Bytes
put8 h i b j = if leb i j && ltb j (i + 1) then b else h j

-- copy(dst[at : at+n], src[:n])
unfoldable pub copy_into : Bytes → ℕ → ℕ → Bytes → Bytes
copy_into dst at n src j = if leb at j && ltb j (at + n) then src (j - at) else dst j

-- slices.Clone(src[at : at+n])
unfoldable pub clone : Bytes → ℕ → ℕ → Bytes
clone src at n j = if ltb j n then src (at + j) else 0

-- The bytes h[off : off+n] in order.
unfoldable pub bytes_of : Bytes → ℕ → ℕ → List ℕ
bytes_of h off zero = []
bytes_of h off (suc n) = h off ∷ bytes_of h (off + 1) n

-- A field reads back what was written to it.
pub get32-put32 :
    (enc : ByteOrder) (h : Bytes) (off v : ℕ) → v < u32_mod → get32 enc (put32 enc h off v) off ≡ v
unfolding get32 put32
get32-put32 little h off v lt = ground arith
get32-put32 big h off v lt = ground arith

-- A write outside the field is not seen.
pub get32-put32_ne :
    (enc enc' : ByteOrder) (h : Bytes) (off off' v : ℕ)
    → (off + 4 ≤ off') ⊎ (off' + 4 ≤ off)
    → get32 enc (put32 enc' h off v) off' ≡ get32 enc h off'
unfolding get32 put32
get32-put32_ne little enc' h off off' v apart = ground arith
get32-put32_ne big enc' h off off' v apart = ground arith

pub get16-put16 : (h : Bytes) (off v : ℕ) → get16 (put16 h off v) off ≡ v % 65536
unfolding get16 put16
get16-put16 h off v = ground arith

pub get16-put16_ne :
    (h : Bytes) (off off' v : ℕ)
    → (off + 2 ≤ off') ⊎ (off' + 2 ≤ off)
    → get16 (put16 h off v) off' ≡ get16 h off'
unfolding get16 put16
get16-put16_ne h off off' v apart = ground arith

pub get32-zeros : (enc : ByteOrder) (off : ℕ) → get32 enc zeros off ≡ 0
unfolding get32
get32-zeros little off = omega arith
get32-zeros big off = omega arith
