-- ===== src/WalAppender/Atomic.antt =====
-- internal/fsm/walappender/walappender.go: a transaction is published whole or not at all.
use literaft.Base.{
  ℕ, suc, ◌+◌, ◌%◌, ◌<◌, ◌≤◌, ◌≡◌, refl, sym, ap, subst, ◌∙◌, Bool, true, false, not, Option, none,
  some, List, [], ◌∷◌, length, ◌==◌, inl, inr, arith, Bool-cases, Option-cases,
}
use literaft.Base.Bytes.{u32_mod, bytes_of}
use literaft.Errors.{Error}
use literaft.Wal.Frame as WalFrame
use literaft.Wal.Frame.{Frame, frame_header_size, pg_no, n_truncate, is_commit}
use literaft.Proto.RoundTrip.{IsCaptured}
use literaft.Shm.Memory.{SharedMemory, add_frame}
use literaft.WalAppender.Append.{
  Store, Loop, is_failed, seal_frame, write_wal, after_index, index_frame, after_data, after_header,
  after_publish, publish, write_frame, append_frame, append_all,
}
use literaft.WalAppender.Published.{HeaderKept, Quiet, add_frame-Kept, publish-Quiet}
use literaft.WalAppender.Sealed.{seal_frame-n_truncate}

abbrev shm_of : SharedMemory → Option Loop → SharedMemory
shm_of s none = s
shm_of s (some u) = u.store.shm

abbrev failure_of : Bool → Option Loop → Bool
failure_of b none = b
failure_of b (some u) = is_failed u.ret_err

abbrev count_of : ℕ → Option Loop → ℕ
count_of n none = n
count_of n (some u) = u.current_frame_idx

pub uncommitted : (f : Frame) → n_truncate f.header ≡ 0 → is_commit f.header ≡ false
unfolding is_commit
uncommitted f h = ground (arith, h)

pub seal_frame-is_commit :
    (f : Frame) (l : Loop) → is_commit (seal_frame f l).header ≡ is_commit f.header
unfolding is_commit
seal_frame-is_commit f l = ap (λ n. not (n == 0)) (seal_frame-n_truncate f l)

module _ (write_fault : List (ℕ × List ℕ) → ℕ → Option Error) (map_fault : ℕ → Option Error)
    (page : ℕ) where
  abbrev Calm : Frame → Loop → Loop → Type 0
  Calm = Quiet write_fault map_fault page

  after_index-Quiet :
      (f : Frame) (l : Loop) (err : Option Error) (shm : SharedMemory)
      → is_failed l.ret_err ≡ false
      → HeaderKept l.store.shm shm
      → Calm f l (after_index write_fault map_fault page f l err shm)
  unfolding after_index
  after_index-Quiet f l (some e) shm ok kept q = kept
  after_index-Quiet f l none shm ok kept q =
      let l1 = record l {
        store = record l.store { shm = shm; dirty_page_count = suc l.store.dirty_page_count };
      } in
      λ j lt. publish-Quiet write_fault map_fault page f l1 ok q j lt ∙ kept j lt

  index_frame-Quiet :
      (f : Frame) (l u : Loop)
      → is_failed l.ret_err ≡ false
      → 0 < l.current_frame_idx
      → l.current_frame_idx < u32_mod
      → index_frame write_fault map_fault page f l ≡ some u
      → Calm f l u
  unfolding index_frame
  index_frame-Quiet f l u ok pos few h q =
      elim (Option-cases (add_frame map_fault l.current_frame_idx (pg_no f.header) l.store.shm)) [
        | inl k ↦
            let stuck : index_frame write_fault map_fault page f l ≡ none = rw (k, index_frame) in
            absurd (cc (stuck, h))
        | inr ((err, shm), k) ↦
            let made : index_frame write_fault map_fault page f l
                ≡ some (after_index write_fault map_fault page f l err shm) =
              rw (k, index_frame) in
            let same : after_index write_fault map_fault page f l err shm ≡ u = cc (made, h) in
            subst (Calm f l) same
              (after_index-Quiet f l err shm ok (
                add_frame-Kept write_fault map_fault page l.current_frame_idx (pg_no f.header) err
                  l.store.shm shm pos few k))
              q
      ]

  after_data-Quiet :
      (f : Frame) (l u : Loop) (err : Option Error) (s : Store)
      → is_failed l.ret_err ≡ false
      → s.shm ≡ l.store.shm
      → 0 < l.current_frame_idx
      → l.current_frame_idx < u32_mod
      → after_data write_fault map_fault page f l (err, s) ≡ some u
      → Calm f l u
  unfolding after_data
  after_data-Quiet f l u (some e) s ok same pos few h q =
      λ j lt. ap (λ (m : SharedMemory). m.content 0 j) (sym (ap (shm_of s.shm) h) ∙ same)
  after_data-Quiet f l u none s ok same pos few h q =
      let l1 = record l {
        store = s;
        current_offset = l.current_offset + (frame_header_size + page);
      } in
      λ j lt.
        index_frame-Quiet f l1 u ok pos few h q j lt ∙ ap (λ (m : SharedMemory). m.content 0 j) same

  after_header-Quiet :
      (f : Frame) (l u : Loop) (err : Option Error) (s : Store)
      → is_failed l.ret_err ≡ false
      → s.shm ≡ l.store.shm
      → 0 < l.current_frame_idx
      → l.current_frame_idx < u32_mod
      → after_header write_fault map_fault page f l (err, s) ≡ some u
      → Calm f l u
  unfolding after_header write_wal
  after_header-Quiet f l u (some e) s ok same pos few h q =
      λ j lt. ap (λ (m : SharedMemory). m.content 0 j) (sym (ap (shm_of s.shm) h) ∙ same)
  after_header-Quiet f l u none s ok same pos few h q =
      let off = l.current_offset + frame_header_size in
      let rest : HeaderKept s.shm u.store.shm =
        after_data-Quiet f (record l { store = s }) u (write_fault s.wal off)
          (record s { wal = (off, f.image) ∷ s.wal }) ok refl pos few h q in
      λ j lt. rest j lt ∙ ap (λ (m : SharedMemory). m.content 0 j) same

  write_frame-Quiet :
      (f : Frame) (l u : Loop)
      → is_failed l.ret_err ≡ false
      → suc l.current_frame_idx < u32_mod
      → write_frame write_fault map_fault page f l ≡ some u
      → Calm f l u
  unfolding write_frame write_wal
  write_frame-Quiet f l u ok few h q =
      let f1 = seal_frame f l in
      let l1 = record l {
        checksum1 = WalFrame.checksum1 f1.header;
        checksum2 = WalFrame.checksum2 f1.header;
        current_frame_idx = (l.current_frame_idx + 1) % u32_mod;
      } in
      let bytes = bytes_of f1.header 0 frame_header_size in
      after_header-Quiet f1 l1 u (write_fault l.store.wal l.current_offset)
        (record l.store { wal = (l.current_offset, bytes) ∷ l.store.wal }) ok refl (omega arith)
        (omega arith) h
        (elim q [ inl plain ↦ inl (seal_frame-is_commit f l ∙ plain) | inr bad ↦ inr bad ])

  append_frame-Quiet :
      (f : Frame) (l u : Loop)
      → suc l.current_frame_idx < u32_mod
      → append_frame write_fault map_fault page f l ≡ some u
      → Calm f l u
  unfolding append_frame
  append_frame-Quiet f l u few h q = elim (Bool-cases (is_failed l.ret_err)) [
    | inl bad ↦
        let made : append_frame write_fault map_fault page f l ≡ some l = rw (bad, append_frame) in
        λ j lt. ap (λ (m : SharedMemory). m.content 0 j) (ap (shm_of l.store.shm) (sym h ∙ made))
    | inr ok ↦ elim (Bool-cases (length f.image == page)) [
      | inl sized ↦
          let made : append_frame write_fault map_fault page f l
              ≡ write_frame write_fault map_fault page f l =
            rw (ok, sized, append_frame) in
          write_frame-Quiet f l u ok few (sym made ∙ h) q
      | inr odd ↦
          let made : shm_of l.store.shm (append_frame write_fault map_fault page f l)
              ≡ l.store.shm =
            rw (ok, odd, append_frame) in
          λ j lt. ap (λ (m : SharedMemory). m.content 0 j) (sym (ap (shm_of l.store.shm) h) ∙ made)
    ]
  ]

  -- A frame that is appended counts once, if at all.
  publish-counts :
      (f : Frame) (l : Loop)
      → (publish write_fault map_fault page f l).current_frame_idx ≡ l.current_frame_idx
  unfolding publish after_publish
  publish-counts f l = ground arith

  index_frame-counts :
      (f : Frame) (l : Loop)
      → count_of l.current_frame_idx (index_frame write_fault map_fault page f l)
        ≡ l.current_frame_idx
  unfolding index_frame after_index
  index_frame-counts f l =
      elim (Option-cases (add_frame map_fault l.current_frame_idx (pg_no f.header) l.store.shm)) [
        | inl k ↦ rw (k, index_frame)
        | inr ((some e, shm), k) ↦ rw (k, index_frame)
        | inr ((none, shm), k) ↦ rw (k, index_frame) (publish-counts f _)
      ]

  after_data-counts :
      (f : Frame) (l : Loop) (err : Option Error) (s : Store)
      → count_of l.current_frame_idx (after_data write_fault map_fault page f l (err, s))
        ≡ l.current_frame_idx
  unfolding after_data
  after_data-counts f l (some e) s = refl
  after_data-counts f l none s = index_frame-counts f _

  after_header-counts :
      (f : Frame) (l : Loop) (err : Option Error) (s : Store)
      → count_of l.current_frame_idx (after_header write_fault map_fault page f l (err, s))
        ≡ l.current_frame_idx
  unfolding after_header write_wal
  after_header-counts f l (some e) s = refl
  after_header-counts f l none s = after_data-counts f (record l { store = s }) _ _

  write_frame-counts :
      (f : Frame) (l : Loop)
      → let n = (l.current_frame_idx + 1) % u32_mod in
        count_of n (write_frame write_fault map_fault page f l) ≡ n
  unfolding write_frame write_wal
  write_frame-counts f l =
      let f1 = seal_frame f l in
      let l1 = record l {
        checksum1 = WalFrame.checksum1 f1.header;
        checksum2 = WalFrame.checksum2 f1.header;
        current_frame_idx = (l.current_frame_idx + 1) % u32_mod;
      } in
      let bytes = bytes_of f1.header 0 frame_header_size in
      after_header-counts f1 l1 (write_fault l.store.wal l.current_offset)
        (record l.store { wal = (l.current_offset, bytes) ∷ l.store.wal })

  counted :
      (f : Frame) (l v : Loop)
      → append_frame write_fault map_fault page f l ≡ some v
      → v.current_frame_idx ≤ suc l.current_frame_idx
  unfolding append_frame
  counted f l v h = elim (Bool-cases (is_failed l.ret_err)) [
    | inl bad ↦
        let same : l ≡ v = cc (rw (bad, append_frame) at h) in
        omega (arith, ap (λ (m : Loop). m.current_frame_idx) same)
    | inr ok ↦ elim (Bool-cases (length f.image == page)) [
      | inl sized ↦
          let n = (l.current_frame_idx + 1) % u32_mod in
          let made : write_frame write_fault map_fault page f l ≡ some v =
            rw (ok, sized, append_frame) at h in
          let at : v.current_frame_idx ≡ n = sym (ap (count_of n) made) ∙ write_frame-counts f l in
          omega (arith, at)
      | inr odd ↦
          let e = rw (ok, odd, append_frame) at h in
          omega (arith, ap (count_of l.current_frame_idx) e)
    ]
  ]

  append_all-next :
      (f : Frame) (fs : List Frame) (l u : Loop)
      → append_all write_fault map_fault page (f ∷ fs) l ≡ some u
      → (v : Loop) × (append_frame write_fault map_fault page f l ≡ some v)
        × (append_all write_fault map_fault page fs v ≡ some u)
  unfolding append_all
  append_all-next f fs l u h = elim (Option-cases (append_frame write_fault map_fault page f l)) [
    | inl k ↦
        let stuck : append_all write_fault map_fault page (f ∷ fs) l ≡ none = rw (k, append_all) in
        absurd (cc (stuck, h))
    | inr (v, k) ↦
        let made : append_all write_fault map_fault page (f ∷ fs) l
            ≡ append_all write_fault map_fault page fs v =
          rw (k, append_all) in
        (v, k, sym made ∙ h)
  ]

  append_all-end :
      (l u : Loop) → append_all write_fault map_fault page [] l ≡ some u → l.store.shm ≡ u.store.shm
  unfolding append_all
  append_all-end l u h = ap (shm_of l.store.shm) h

  last-failed :
      (l u : Loop)
      → append_all write_fault map_fault page [] l ≡ some u
      → is_failed u.ret_err ≡ true
      → is_failed l.ret_err ≡ true
  unfolding append_all
  last-failed l u h bad = ap (failure_of (is_failed l.ret_err)) h ∙ bad

  -- If a whole transaction fails to be appended, at any frame and for any reason, and its frame numbers
  -- stay below 2 ^ 32, neither copy of the wal-index header nor the checkpoint information has
  -- changed: SQLite sees none of it.
  pub failed_unpublished :
      (fs : List Frame) (l u : Loop)
      → IsCaptured fs
      → l.current_frame_idx + length fs < u32_mod
      → append_all write_fault map_fault page fs l ≡ some u
      → is_failed u.ret_err ≡ true
      → HeaderKept l.store.shm u.store.shm
  failed_unpublished [] l u whole few h bad = absurd whole
  failed_unpublished (f ∷ []) l u whole few h bad =
      let (v, first, others) = append_all-next f [] l u h in
      let same = append_all-end v u others in
      let a = append_frame-Quiet f l v (omega arith) first (inr (last-failed v u others bad)) in
      λ j lt. ap (λ (m : SharedMemory). m.content 0 j) (sym same) ∙ a j lt
  failed_unpublished (f ∷ g ∷ fs) l u (plain, whole) few h bad =
      let (v, first, others) = append_all-next f (g ∷ fs) l u h in
      let next = counted f l v first in
      let a = append_frame-Quiet f l v (omega arith) first (inl (uncommitted f plain)) in
      let b = failed_unpublished (g ∷ fs) v u whole (omega (arith, next)) others bad in
      λ j lt. b j lt ∙ a j lt
