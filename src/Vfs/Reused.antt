-- ===== src/Vfs/Reused.antt =====
-- internal/vfs/gatedwalfile.go: the first frame of a transaction whose header is taken for a checksum
-- rewrite, until its image disproves that.
use literaft.Base.{
  ℕ, ◌+◌, ◌-◌, ◌<◌, ◌≡◌, refl, ap, ◌∙◌, ◌&&◌, ◌==◌, true, false, Option, some, none, List, ◌∷◌,
  length, sym, arith,
}
use literaft.Errors.{Error}
use literaft.Wal.Frame.{Frame, frame_header_size, is_commit}
use literaft.Wal.Offsets.{is_frame_header_offset}
use literaft.Vfs
use literaft.Vfs.Capture.{
  write_frame, at_header_offset, at_data_offset, resolved_completes, write_frame_lem,
}
use literaft.Vfs.Written.{
  Written, Fits, forgotten, forgotten-Ready, with_header, data_after_header, not_header,
}

-- The file behind the staged header.
abbrev staged : Vfs.GatedFile → ℕ → Written → Vfs.GatedFile
staged f off w = record f {
  tracked = Vfs.track f.tracked off (elim (f.tracked off) [
    | none ↦ none
    | some fr ↦ some (record fr { header = Vfs.array_of w.head })
  ]);
  rewrite_header = some (Vfs.array_of w.head);
  rewrite_offset = off;
}

-- The file that has forgotten all, but for the offset that was staged last.
abbrev pub restarted : ℕ → Vfs.GatedFile → Vfs.GatedFile
restarted off f = forgotten off (record f { rewrite_offset = off })

resolve_rewrite-staged :
    (f : Vfs.GatedFile) (off : ℕ) (w : Written)
    → Vfs.resolve_rewrite (staged f off w) off ≡ with_header (restarted off f) off w
unfolding Vfs.resolve_rewrite Vfs.reset_current_tx
resolve_rewrite-staged f off w =
    let e : (off == off) ≡ true = ground arith in rw (e, Vfs.resolve_rewrite)

module _ (fault : List Vfs.Event → ℕ → List ℕ → Option Error)
    (verdict : List Vfs.Event → List Frame → Option Error) where
  header_staged :
      (page : ℕ) (f : Vfs.GatedFile) (off : ℕ) (w : Written) (t : List Vfs.Event)
      → Fits page w
      → (f.committed && Vfs.is_rewrite (f.tracked off) (Vfs.array_of w.head)) ≡ true
      → let r = Vfs.write_frame_header fault verdict f w.head off t in
        (r.file ≡ staged f off w) × (r.trace ≡ Vfs.wrote off w.head ∷ t)
  unfolding Vfs.write_frame_header Vfs.stage_rewrite Vfs.pass_through
  header_staged page f off w t s again =
      let size : (length w.head == frame_header_size) ≡ true = ground arith in
      (rw (size, again), rw (size, again))

  data_resolves :
      (page : ℕ) (f : Vfs.GatedFile) (off : ℕ) (w : Written) (t : List Vfs.Event)
      → f.page ≡ page
      → Fits page w
      → Vfs.write_frame_data fault verdict (staged f off w) w.body (off + frame_header_size) t
        ≡ Vfs.complete_frame fault verdict
            (with_header (restarted off f) off w)
            (Vfs.array_of w.head)
            w.body
            (off + frame_header_size)
            t
  unfolding Vfs.write_frame_data
  data_resolves page f off w t sized s =
      let e : (length w.body == f.page) ≡ true = ground arith in
      let o : off + frame_header_size - frame_header_size ≡ off = omega arith in
      rw e (
        ap (λ g. Vfs.write_resolved fault verdict g w.body (off + frame_header_size) t)
          (ap (Vfs.resolve_rewrite (staged f off w)) o ∙ resolve_rewrite-staged f off w)
        ∙ resolved_completes fault verdict (with_header (restarted off f) off w) w.body
            (off + frame_header_size) (Vfs.array_of w.head) t refl refl)

  -- Once its image is written, such a frame that does not commit is the first of its transaction.
  pub reused_write :
      (page : ℕ) (f : Vfs.GatedFile) (off : ℕ) (w : Written) (t : List Vfs.Event)
      → 0 < page
      → is_frame_header_offset page off ≡ true
      → Fits page w
      → f.page ≡ page
      → (f.committed && Vfs.is_rewrite (f.tracked off) (Vfs.array_of w.head)) ≡ true
      → is_commit (Vfs.array_of w.head) ≡ false
      → write_frame fault verdict f off w t ≡ write_frame fault verdict (restarted off f) off w t
  reused_write page f off w t pos at s sized again plain =
      let d = data_after_header page off at in
      let t1 = Vfs.wrote off w.head ∷ t in
      let g = restarted off f in
      let same =
        at_header_offset fault verdict f w.head off t (omega (arith, pos, sized)) (rw sized at) in
      let (f1, tr) = header_staged page f off w t s again in
      let file = ap (λ (q : Vfs.Result). q.file) same ∙ f1 in
      let trace = ap (λ (q : Vfs.Result). q.trace) same ∙ tr in
      let fresh : write_frame fault verdict g off w t
          ≡ Vfs.complete_frame fault verdict (with_header g off w) (Vfs.array_of w.head) w.body
              (off + frame_header_size) t1 =
        write_frame_lem fault verdict g off w t page pos at
          (forgotten-Ready page off (record f { rewrite_offset = off }) at sized) s
        ∙ rw plain in
      (λ i. Vfs.write_at fault verdict (file i) w.body (off + frame_header_size) (trace i))
      ∙ at_data_offset fault verdict (staged f off w) w.body (off + frame_header_size) t1
          (omega (arith, pos, sized)) (rw sized d) (rw sized (not_header page _ pos d))
      ∙ data_resolves page f off w t1 sized s
      ∙ sym fresh
