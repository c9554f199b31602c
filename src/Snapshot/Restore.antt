-- ===== src/Snapshot/Restore.antt =====
-- internal/fsm/snapshotter: what Restore makes of the pages that Snapshot has written.
use literaft.Base.{
  length-append, true, ℕ, zero, suc, ◌+◌, ◌*◌, ◌%◌, ◌<◌, ◌≤◌, ◌≡◌, refl, ap, ◌∙◌, none, some, List,
  [], ◌∷◌, ◌++◌, length, arith, ◌==◌,
}
use literaft.Base.Bytes.{Bytes, bytes_of, u32_mod, get32, put32}
use literaft.Wal.Frame.{Frame}
use literaft.Proto.RoundTrip.{All}
use literaft.Snapshot.{
  magic, set_magic, version, set_version, last_applied_index, set_last_applied_index,
  new_snapshot_header, validate, whole, read_rest, read_full, restored_frame, restore_pages,
  named_page_size, array_of, restore, restore_valid, restore_first, finish_restore, sent,
}

-- A new header is valid, and carries the index that it was made of.
pub new_snapshot_header-valid :
    (index : ℕ)
    → index < u32_mod * u32_mod
    → (validate (new_snapshot_header index) ≡ none)
      × (last_applied_index (new_snapshot_header index) ≡ index)
unfolding new_snapshot_header validate magic version last_applied_index set_magic set_version
    set_last_applied_index get32 put32
new_snapshot_header-valid index lt = (ground arith, ground arith)

read_rest-append : (p rest : List ℕ) → read_rest (length p) (p ++ rest) ≡ some (p, rest)
unfolding read_rest
read_rest-append [] rest = refl
read_rest-append (b ∷ p) rest = rw (read_rest-append p rest)

-- The snapshot's stream behind the first page.
abbrev pub stream : List (List ℕ) → List ℕ
stream [] = []
stream (p ∷ ps) = p ++ stream ps

-- One frame for each page in order, numbered from `n`; the last has the number of pages as its
-- commit size.
abbrev pub numbered : ℕ → List ℕ → List (List ℕ) → List Frame
numbered n cur [] = restored_frame n n cur ∷ []
numbered n cur (p ∷ ps) = restored_frame n 0 cur ∷ numbered (n + 1) p ps

read_full-append :
    (page : ℕ) (p rest : List ℕ)
    → 0 < page
    → length p ≡ page
    → read_full page (p ++ rest) ≡ whole p rest
unfolding read_full
read_full-append page [] rest pos e = absurd (omega (arith, e))
read_full-append page (b ∷ p) rest pos e = rw (← e) (rw (read_rest-append (b ∷ p) rest, read_full))

-- A restore of a snapshot of whole pages, fewer than 2 ^ 32, ends without a read error, and sends
-- exactly one frame for each page, in order, of which the last alone commits, with the number of
-- pages.
pub restore_pages_lem :
    (page n : ℕ) (cur : List ℕ) (ps : List (List ℕ)) (fuel : ℕ)
    → 0 < page
    → length ps < fuel
    → n + length ps < u32_mod
    → All (λ p. length p ≡ page) ps
    → restore_pages fuel page n cur (stream ps) ≡ some (numbered n cur ps, none)
unfolding restore_pages
restore_pages_lem page n cur [] zero pos few fits sizes = absurd (omega arith)
restore_pages_lem page n cur [] (suc fuel) pos few fits sizes = refl
restore_pages_lem page n cur (p ∷ ps) zero pos few fits sizes = absurd (omega arith)
restore_pages_lem page n cur (p ∷ ps) (suc fuel) pos few fits (size, sizes) =
    let same : (n + 1) % u32_mod ≡ n + 1 = omega arith in
    let rest = restore_pages_lem page (n + 1) p ps fuel pos (omega arith) (omega arith) sizes in
    rw (read_full-append page p (stream ps) pos size, restore_pages) (rw (same, rest))

stream-length :
    (page : ℕ) (ps : List (List ℕ))
    → 0 < page
    → All (λ p. length p ≡ page) ps
    → length ps ≤ length (stream ps)
stream-length page [] pos sizes = omega arith
stream-length page (p ∷ ps) pos (size, sizes) =
    omega (arith, size, stream-length page ps pos sizes, length-append p (stream ps))

-- The header's bytes are read back.
header_read :
    (h : Bytes) (rest : List ℕ)
    → read_rest 16 (bytes_of h 0 16 ++ rest) ≡ some (bytes_of h 0 16, rest)
unfolding bytes_of
header_read h rest = read_rest-append (bytes_of h 0 16) rest

array_of-header :
    (h : Bytes)
    → (validate (array_of (bytes_of h 0 16)) ≡ validate h)
      × (last_applied_index (array_of (bytes_of h 0 16)) ≡ last_applied_index h)
unfolding validate magic version last_applied_index bytes_of get32
array_of-header h = (refl, refl)

-- Restoring what Snapshot writes, a new header and whole pages of the node's size of which the first
-- names it, fewer than 2 ^ 32: Restore takes the stream, sends one frame for each page, numbered from
-- 1 in order, the last alone with a commit size, which is the number of pages, and ends with the
-- snapshot's index and no error.
pub restore-snapshot :
    (page index : ℕ) (p : List ℕ) (ps : List (List ℕ))
    → 0 < page
    → index < u32_mod * u32_mod
    → named_page_size (array_of p) ≡ page
    → 1 + length ps < u32_mod
    → All (λ q. length q ≡ page) (p ∷ ps)
    → restore page (bytes_of (new_snapshot_header index) 0 16 ++ stream (p ∷ ps))
      ≡ sent index (numbered 1 p ps) none
unfolding restore restore_valid restore_first finish_restore
restore-snapshot page index p ps pos lt named fits (size, sizes) =
    let h = new_snapshot_header index in
    let (valid, same) = array_of-header h in
    let (good, carried) = new_snapshot_header-valid index lt in
    let few = stream-length page ps pos sizes in
    let loop =
      restore_pages_lem page 1 p ps (suc (length (stream ps))) pos (omega arith) fits sizes in
    let a = array_of (bytes_of h 0 16) in
    let rest = stream ps in
    let named_test : (named_page_size (array_of p) == page) ≡ true = ground (arith, named) in
    let first : restore page (bytes_of h 0 16 ++ (p ++ rest))
        ≡ restore_valid page a (validate a) (p ++ rest) =
      rw (header_read h (p ++ rest), restore) in
    let sized : restore_first page a (whole p rest)
        ≡ finish_restore a (restore_pages (suc (length rest)) page 1 p rest) =
      rw (named_test, restore_first) in
    first
    ∙ ap (λ v. restore_valid page a v (p ++ rest)) (valid ∙ good)
    ∙ ap (restore_first page a) (read_full-append page p rest pos size)
    ∙ sized
    ∙ ap (finish_restore a) loop
    ∙ ap (λ i. sent i (numbered 1 p ps) none) (same ∙ carried)
