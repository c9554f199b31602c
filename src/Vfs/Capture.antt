-- ===== src/Vfs/Capture.antt =====
-- internal/vfs/gatedwalfile.go: what becomes of one transaction whose frames SQLite writes in order.
use literaft.Base.{
  ℕ, ◌+◌, ◌-◌, ◌<◌, ◌≡◌, refl, sym, ◌||◌, ◌&&◌, leb, ap, ◌∙◌, true, false, Option, none, some, List,
  ◌∷◌, length, ◌==◌, if◌then◌else◌, arith,
}
use literaft.Base.Bytes.{Bytes}
use literaft.Errors.{Error}
use literaft.Wal.Frame.{Frame, frame_header_size, is_commit}
use literaft.Wal.Offsets.{is_frame_header_offset, is_frame_data_offset}
use literaft.Vfs
use literaft.Vfs.Written.{
  header_offset-nonzero, data_offset-nonzero, Written, frame_of, Fits, Ready, forgotten, with_frame,
  with_header, resolve_rewrite-unstaged, data_after_header, not_header,
}

module _ (fault : List Vfs.Event → ℕ → List ℕ → Option Error)
    (verdict : List Vfs.Event → List Frame → Option Error) where
  abbrev pub write_frame : Vfs.GatedFile → ℕ → Written → List Vfs.Event → Vfs.Result
  write_frame f off w t =
      let r = Vfs.write_at fault verdict f w.head off t in
      Vfs.write_at fault verdict r.file w.body (off + frame_header_size) r.trace

  pub at_header_offset :
      (f : Vfs.GatedFile) (p : List ℕ) (off : ℕ) (t : List Vfs.Event)
      → 0 < f.page
      → is_frame_header_offset f.page off ≡ true
      → Vfs.write_at fault verdict f p off t ≡ Vfs.write_frame_header fault verdict f p off t
  unfolding Vfs.write_at
  at_header_offset f p off t pos h =
      let e : (f.page == 0) ≡ false = ground arith in rw (header_offset-nonzero f.page off h, e, h)

  pub at_data_offset :
      (f : Vfs.GatedFile) (p : List ℕ) (off : ℕ) (t : List Vfs.Event)
      → 0 < f.page
      → is_frame_data_offset f.page off ≡ true
      → is_frame_header_offset f.page off ≡ false
      → Vfs.write_at fault verdict f p off t ≡ Vfs.write_frame_data fault verdict f p off t
  unfolding Vfs.write_at
  at_data_offset f p off t pos d h =
      let e : (f.page == 0) ≡ false = ground arith in rw (data_offset-nonzero f.page off d, e, h, d)

  header_written :
      (f : Vfs.GatedFile) (off : ℕ) (w : Written) (t : List Vfs.Event) {page : ℕ}
      → Ready page off f
      → Fits page w
      → (Vfs.write_frame_header fault verdict f w.head off t).file ≡ with_header f off w
  unfolding Vfs.write_frame_header Vfs.begin_frame Vfs.begin_tx
  header_written f off w t r s = ground arith

  header_trace :
      (f : Vfs.GatedFile) (off : ℕ) (w : Written) (t : List Vfs.Event) {page : ℕ}
      → Ready page off f
      → Fits page w
      → (Vfs.write_frame_header fault verdict f w.head off t).trace
        ≡ (if is_commit (Vfs.array_of w.head) then t else Vfs.wrote off w.head ∷ t)
  unfolding Vfs.write_frame_header Vfs.begin_frame Vfs.begin_tx
  header_trace f off w t r s = ground arith

  pub resolved_completes :
      (f : Vfs.GatedFile) (p : List ℕ) (off : ℕ) (h : Bytes) (t : List Vfs.Event)
      → f.tracked (off - frame_header_size) ≡ none
      → f.pending_header ≡ some h
      → Vfs.write_resolved fault verdict f p off t ≡ Vfs.complete_frame fault verdict f h p off t
  unfolding Vfs.write_resolved
  resolved_completes f p off h t new pend = ground arith

  data_completes :
      (f : Vfs.GatedFile) (p : List ℕ) (off : ℕ) (h : Bytes) (t : List Vfs.Event)
      → length p ≡ f.page
      → Vfs.resolve_rewrite f (off - frame_header_size) ≡ f
      → f.tracked (off - frame_header_size) ≡ none
      → f.pending_header ≡ some h
      → Vfs.write_frame_data fault verdict f p off t ≡ Vfs.complete_frame fault verdict f h p off t
  unfolding Vfs.write_frame_data
  data_completes f p off h t size same new pend =
      let e : (length p == f.page) ≡ true = ground arith in
      rw e (
        ap (λ g. Vfs.write_resolved fault verdict g p off t) same
        ∙ resolved_completes f p off h t new pend)

  -- The image that follows a header.
  data_written :
      (f : Vfs.GatedFile) (off : ℕ) (w : Written) (t : List Vfs.Event) {page : ℕ}
      → Ready page off f
      → Fits page w
      → Vfs.write_frame_data fault verdict (with_header f off w) w.body (off + frame_header_size) t
        ≡ Vfs.complete_frame fault verdict
            (with_header f off w)
            (Vfs.array_of w.head)
            w.body
            (off + frame_header_size)
            t
  data_written f off w t r s =
      data_completes (with_header f off w) w.body (off + frame_header_size) (Vfs.array_of w.head) t
        (omega arith) (resolve_rewrite-unstaged (with_header f off w) _ refl)
        (r.unseen _ (omega arith)) refl

  -- The two writes of a frame come down to the completion of that frame.
  pub write_frame_lem :
      (f : Vfs.GatedFile) (off : ℕ) (w : Written) (t : List Vfs.Event) (page : ℕ)
      → 0 < page
      → is_frame_header_offset page off ≡ true
      → Ready page off f
      → Fits page w
      → write_frame f off w t
        ≡ Vfs.complete_frame fault verdict
            (with_header f off w)
            (Vfs.array_of w.head)
            w.body
            (off + frame_header_size)
            (if is_commit (Vfs.array_of w.head) then t else Vfs.wrote off w.head ∷ t)
  write_frame_lem f off w t page pos h r s =
      let d = data_after_header page off h in
      let t1 = if is_commit (Vfs.array_of w.head) then t else Vfs.wrote off w.head ∷ t in
      let same = at_header_offset f w.head off t (omega arith) (rw r.sized h) in
      let file : (Vfs.write_at fault verdict f w.head off t).file ≡ with_header f off w =
        ap (λ (q : Vfs.Result). q.file) same ∙ header_written f off w t r s in
      let trace : (Vfs.write_at fault verdict f w.head off t).trace ≡ t1 =
        ap (λ (q : Vfs.Result). q.trace) same ∙ header_trace f off w t r s in
      (λ i. Vfs.write_at fault verdict (file i) w.body (off + frame_header_size) (trace i))
      ∙ at_data_offset (with_header f off w) w.body (off + frame_header_size) t1 (omega arith)
          (rw r.sized d) (rw r.sized (not_header page _ pos d))
      ∙ data_written f off w t1 r s

  header_forgets :
      (page : ℕ) (f : Vfs.GatedFile) (off : ℕ) (w : Written) (t : List Vfs.Event)
      → is_frame_header_offset page off ≡ true
      → Fits page w
      → (f.committed || leb off f.max_offset) ≡ true
      → (f.committed && Vfs.is_rewrite (f.tracked off) (Vfs.array_of w.head)) ≡ false
      → Vfs.write_frame_header fault verdict f w.head off t
        ≡ Vfs.write_frame_header fault verdict (forgotten off f) w.head off t
  unfolding Vfs.write_frame_header Vfs.begin_frame Vfs.begin_tx Vfs.reset_current_tx
      is_frame_header_offset
  header_forgets page f off w t at s new other =
      let size : (length w.head == frame_header_size) ≡ true = ground arith in
      let high : leb off 0 ≡ false = ground arith in rw (size, new, other, high)

  -- A header that starts a new transaction finds a file that has forgotten all before it.
  pub first_write :
      (page : ℕ) (f : Vfs.GatedFile) (off : ℕ) (w : Written) (t : List Vfs.Event)
      → 0 < page
      → is_frame_header_offset page off ≡ true
      → Fits page w
      → f.page ≡ page
      → (f.committed || leb off f.max_offset) ≡ true
      → (f.committed && Vfs.is_rewrite (f.tracked off) (Vfs.array_of w.head)) ≡ false
      → write_frame f off w t ≡ write_frame (forgotten off f) off w t
  first_write page f off w t pos at s sized new other =
      let same =
        at_header_offset f w.head off t (omega arith) (rw sized at)
        ∙ header_forgets page f off w t at s new other
        ∙ sym (at_header_offset (forgotten off f) w.head off t (omega arith) (rw sized at)) in
      λ i. Vfs.write_at fault verdict (same i).file w.body (off + frame_header_size) (same i).trace

  -- A frame that does not commit passes through, and is added to the transaction.
  pub plain_frame :
      (f : Vfs.GatedFile) (off : ℕ) (w : Written) (t : List Vfs.Event) (page : ℕ)
      → 0 < page
      → is_frame_header_offset page off ≡ true
      → Ready page off f
      → Fits page w
      → is_commit (Vfs.array_of w.head) ≡ false
      → ((write_frame f off w t).file ≡ with_frame f off w)
        × ((write_frame f off w t).trace
            ≡ Vfs.wrote (off + frame_header_size) w.body ∷ Vfs.wrote off w.head ∷ t)
  unfolding Vfs.complete_frame Vfs.pass_through
  plain_frame f off w t page pos h r s c =
      let e : off + frame_header_size - frame_header_size ≡ off = omega arith in
      let same = write_frame_lem f off w t page pos h r s in
      (
        ap (λ (q : Vfs.Result). q.file) same ∙ rw (c, e),
        ap (λ (q : Vfs.Result). q.trace) same ∙ rw c,
      )

  -- A frame that commits is not written: it goes to the gate with its transaction.
  pub commit_frame :
      (f : Vfs.GatedFile) (off : ℕ) (w : Written) (t : List Vfs.Event) (page : ℕ)
      → 0 < page
      → is_frame_header_offset page off ≡ true
      → Ready page off f
      → Fits page w
      → is_commit (Vfs.array_of w.head) ≡ true
      → write_frame f off w t
        ≡ Vfs.propose_commit fault verdict
            (with_frame f off w)
            (frame_of w)
            (off + frame_header_size)
            t
  unfolding Vfs.complete_frame
  commit_frame f off w t page pos h r s c =
      let e : off + frame_header_size - frame_header_size ≡ off = omega arith in
      write_frame_lem f off w t page pos h r s ∙ rw (c, e)
