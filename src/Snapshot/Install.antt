-- ===== src/Snapshot/Install.antt =====
-- internal/fsm/snapshotter to internal/fsm/walappender: a snapshot that one node captures is the log
-- that another node has restored.
use literaft.Base.{
  ℕ, suc, ◌+◌, ◌*◌, ◌<◌, ◌≡◌, refl, sym, ap, ◌∙◌, Bool, Option, none, Option-cases, List, [], ◌∷◌,
  inl, inr, length, arith,
}
use literaft.Base.Bytes.{Bytes, big, zeros, u32_mod, put32, get32-put32, get32-put32_ne}
use literaft.Errors.{Error}
use literaft.Proto.RoundTrip.{All, IsCaptured, FitsFrame, Redo}
use literaft.Wal.Frame.{Frame, pg_no, n_truncate, set_pg_no, set_n_truncate}
use literaft.Snapshot.{restored_frame, named_page_size, array_of, restore, sent}
use literaft.Snapshot.Restore.{stream, numbered, restore-snapshot}
use literaft.Snapshot.Capture.{Calls, snapshot, snapshot_stream}
use literaft.WalAppender.Append.{Store}
use literaft.WalAppender.Rewind.{append_frames_locked, appended}
use literaft.WalAppender.Ready.{Extends}
use literaft.WalAppender.Refinement.{Base, append_refines}
use literaft.WalAppender.Represents.{Represents, size_after}

restored_frame-fields :
    (n t : ℕ) (p : List ℕ)
    → n < u32_mod
    → t < u32_mod
    → (pg_no (restored_frame n t p).header ≡ n) × (n_truncate (restored_frame n t p).header ≡ t)
unfolding restored_frame pg_no n_truncate set_pg_no set_n_truncate
restored_frame-fields n t p ln lt = (
  get32-put32_ne big big (put32 big zeros 0 n) 4 0 t (inr (omega arith))
      ∙ get32-put32 big zeros 0 n ln,
  get32-put32 big (put32 big zeros 0 n) 4 t lt,
)

numbered-IsCaptured :
    (n : ℕ) (cur : List ℕ) (ps : List (List ℕ))
    → 0 < n
    → n + length ps < u32_mod
    → IsCaptured (numbered n cur ps)
numbered-IsCaptured n cur [] pos lt =
    omega (arith, (restored_frame-fields n n cur (omega arith) (omega arith)).1)
numbered-IsCaptured n cur (p ∷ []) pos lt = (
  (restored_frame-fields n 0 cur (omega arith) (omega arith)).1,
  numbered-IsCaptured (n + 1) p [] (omega arith) (omega arith),
)
numbered-IsCaptured n cur (p ∷ q ∷ ps) pos lt = (
  (restored_frame-fields n 0 cur (omega arith) (omega arith)).1,
  numbered-IsCaptured (n + 1) p (q ∷ ps) (omega arith) (omega arith),
)

numbered-FitsFrame :
    (n : ℕ) (cur : List ℕ) (ps : List (List ℕ))
    → n + length ps < u32_mod
    → All FitsFrame (numbered n cur ps)
numbered-FitsFrame n cur [] lt =
    let (a, b) = restored_frame-fields n n cur (omega arith) (omega arith) in
    ((omega (arith, a), omega (arith, b)), tt)
numbered-FitsFrame n cur (p ∷ ps) lt =
    let (a, b) = restored_frame-fields n 0 cur (omega arith) (omega arith) in
    ((omega (arith, a), omega (arith, b)), numbered-FitsFrame (n + 1) p ps (omega arith))

length-numbered :
    (n : ℕ) (cur : List ℕ) (ps : List (List ℕ)) → length (numbered n cur ps) ≡ suc (length ps)
length-numbered n cur [] = refl
length-numbered n cur (p ∷ ps) = ap suc (length-numbered (n + 1) p ps)

-- The last of the frames names the number of pages.
Extends-numbered :
    (n : ℕ) (cur : List ℕ) (ps : List (List ℕ)) (log log' : List Frame)
    → n + length ps < u32_mod
    → Extends (numbered n cur ps) log log'
    → size_after log' ≡ n + length ps
Extends-numbered n cur [] log log' lt (g, same, e) =
    let (a, b) = restored_frame-fields n n cur (omega arith) (omega arith) in
    rw e (omega (arith, b, ap (λ (r : Redo). r.truncate) same))
Extends-numbered n cur (p ∷ ps) log log' lt (g, same, ext) =
    omega (arith, Extends-numbered (n + 1) p ps (g ∷ log) log' (omega arith) ext)

-- A snapshot that is captured is the header and the backup.
pub snapshot_lem :
    (calls : Calls) (index : ℕ) (db bytes : List ℕ)
    → calls.backup ≡ inr db
    → (snapshot calls index).0 ≡ inr bytes
    → bytes ≡ snapshot_stream index db
unfolding snapshot
snapshot_lem calls index db bytes b c = elim (Option-cases calls.open_db) [
  | inr (e, k) ↦ absurd (cc (rw (k, snapshot) at c))
  | inl k ↦ elim (Option-cases calls.create_temp) [
    | inr (e, t) ↦ absurd (cc (rw (k, t, snapshot) at c))
    | inl t ↦ elim (Option-cases calls.seek) [
      | inr (e, w) ↦ absurd (cc (rw (k, t, b, w, snapshot) at c))
      | inl w ↦
          let got : inr (snapshot_stream index db) ≡ inr bytes = rw (k, t, b, w, snapshot) at c in
          sym (cc (got))
    ]
  ]
]

module _ (write_fault : List (ℕ × List ℕ) → ℕ → Option Error) (map_fault : ℕ → Option Error)
    (page : ℕ) where
  -- What Snapshot captures of a database of whole pages, of the size that the first of them names,
  -- Restore takes on a node whose store represents a log: it sends one frame for each page, and
  -- appending them returns. If that returns no error, the store represents a log that ends with
  -- those frames, and its size is the number of pages of the snapshot. The log before it and the
  -- pages are fewer than 2 ^ 32.
  pub restore_installs :
      (calls : Calls) (bytes : List ℕ) (index : ℕ) (p : List ℕ) (ps : List (List ℕ)) (busy : Bool)
      (salts : Option Bytes) (s : Store) (log : List Frame)
      → calls.backup ≡ inr (stream (p ∷ ps))
      → (snapshot calls index).0 ≡ inr bytes
      → 0 < page
      → index < u32_mod * u32_mod
      → named_page_size (array_of p) ≡ page
      → All (λ q. length q ≡ page) (p ∷ ps)
      → length log + suc (length ps) < u32_mod
      → Represents map_fault page s log
      → (restore page bytes ≡ sent index (numbered 1 p ps) none)
        × ((err : Option Error) × (u : Store) × (append_frames_locked write_fault map_fault page
                busy salts
                (numbered 1 p ps)
                s
              ≡ appended err u)
            × (err ≡ none
                → (base : List Frame) × (log' : List Frame) × Base write_fault map_fault page busy s
                    log base
                  × Extends (numbered 1 p ps) base log'
                  × Represents map_fault page u log'
                  × (size_after log' ≡ suc (length ps))))
  restore_installs calls bytes index p ps busy salts s log db captured pos lt named sized few v =
      let frames = numbered 1 p ps in
      let same = snapshot_lem calls index (stream (p ∷ ps)) bytes db captured in
      let (base, kind, (err, u, made, ok)) =
        append_refines write_fault map_fault page busy salts frames s log
          (numbered-IsCaptured 1 p ps (omega arith) (omega arith))
          (numbered-FitsFrame 1 p ps (omega arith)) (omega (arith, length-numbered 1 p ps)) v in
      (
        rw same (restore-snapshot page index p ps pos lt named (omega arith) sized),
        (
          err,
          u,
          made,
          λ fine.
              let (log', ext, represents) = ok fine in
              (
                base,
                log',
                kind,
                ext,
                represents,
                omega (arith, Extends-numbered 1 p ps base log' (omega arith) ext),
              ),
        ),
      )
