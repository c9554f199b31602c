-- ===== src/Vfs/Flush.antt =====
-- internal/vfs/gatedwalfile.go: the commit frame, once the gate has accepted its transaction.
use literaft.Base.{
  ℕ, ◌+◌, ◌≡◌, true, Option, none, some, List, [], ◌∷◌, length, refl, inl, inr, Option-cases,
}
use literaft.Base.Bytes.{bytes_of}
use literaft.Errors.{Error}
use literaft.Wal.Frame.{Frame, frame_header_size}
use literaft.Vfs

module _ (fault : List Vfs.Event → ℕ → List ℕ → Option Error)
    (verdict : List Vfs.Event → List Frame → Option Error) where
  -- The two flushes behind an accepted proposal: a failure of the one or of the other, which stops
  -- the process, or neither.
  pub data Flushed (ho : ℕ) (frame : Frame) (t : List Vfs.Event) (r : Vfs.Result) : Type 0 where
    header_lost :
        (e : Error)
        → fault t ho (bytes_of frame.header 0 frame_header_size) ≡ some e
        → r.reply ≡ Vfs.panicked
        → r.trace ≡ Vfs.wrote ho (bytes_of frame.header 0 frame_header_size) ∷ t
        → Flushed ho frame t r
    image_lost :
        (e : Error) (t1 : List Vfs.Event)
        → t1 ≡ Vfs.wrote ho (bytes_of frame.header 0 frame_header_size) ∷ t
        → fault t ho (bytes_of frame.header 0 frame_header_size) ≡ none
        → fault t1 (ho + frame_header_size) frame.image ≡ some e
        → r.reply ≡ Vfs.panicked
        → r.trace ≡ Vfs.wrote (ho + frame_header_size) frame.image ∷ t1
        → Flushed ho frame t r
    flushed :
        (t1 : List Vfs.Event)
        → t1 ≡ Vfs.wrote ho (bytes_of frame.header 0 frame_header_size) ∷ t
        → fault t ho (bytes_of frame.header 0 frame_header_size) ≡ none
        → fault t1 (ho + frame_header_size) frame.image ≡ none
        → r.reply ≡ Vfs.done (length frame.image)
        → r.trace ≡ Vfs.wrote (ho + frame_header_size) frame.image ∷ t1
        → r.file.committed ≡ true
        → r.file.tx_frames ≡ []
        → Flushed ho frame t r

  pub flush_at_lem :
      (g : Vfs.GatedFile) (frame : Frame) (ho : ℕ) (t : List Vfs.Event)
      → Flushed ho frame t (
          Vfs.flush_at fault verdict
            (record g { tx_frames = []; committed = true })
            frame
            ho
            (ho + frame_header_size)
            t)
  unfolding Vfs.flush_at
  flush_at_lem g frame ho t =
      let head = bytes_of frame.header 0 frame_header_size in
      let t1 = Vfs.wrote ho head ∷ t in
      elim (Option-cases (fault t ho head)) [
        | inr (x, k) ↦ header_lost x k (rw (k, Vfs.flush_at)) (rw (k, Vfs.flush_at))
        | inl k ↦ elim (Option-cases (fault t1 (ho + frame_header_size) frame.image)) [
          | inr (x, k') ↦
              image_lost x t1 refl k k' (rw (k, k', Vfs.flush_at)) (rw (k, k', Vfs.flush_at))
          | inl k' ↦
              flushed t1 refl k k' (rw (k, k', Vfs.flush_at)) (rw (k, k', Vfs.flush_at))
                (rw (k, k', Vfs.flush_at)) (rw (k, k', Vfs.flush_at))
        ]
      ]
