-- ===== src/Vfs/Transaction.antt =====
-- internal/vfs/gatedwalfile.go: a whole transaction, written frame by frame, and the gate's verdict.
use mathlib.Core.List.{append_assoc}
use literaft.Base.{
  ℕ, ◌+◌, ◌-◌, ◌<◌, ◌≡◌, sym, ap, subst, ◌∙◌, true, false, Option, none, some, List, [], ◌∷◌, ◌++◌,
  map, refl, arith,
}
use literaft.Errors.{Error, ResultCode, ioerr_write, err_code}
use literaft.Wal.Frame.{Frame, frame_header_size, is_commit}
use literaft.Wal.Offsets.{is_frame_header_offset}
use literaft.Vfs
use literaft.Vfs.Capture.{write_frame, first_write, plain_frame, commit_frame}
use literaft.Vfs.Reused.{restarted, reused_write}
use literaft.Vfs.Written.{
  Written, frame_of, Fits, Ready, Starts, at_end, anew, reused, forgotten, forgotten-Ready,
  with_frame, with_frame-Ready, next_header, frames_at-track,
}
use literaft.Vfs.Flush.{Flushed, flush_at_lem}

-- The offset of the frame behind `ws`, the first of which stands at `off`.
abbrev pub behind : ℕ → ℕ → List Written → ℕ
behind page off [] = off
behind page off (w ∷ ws) = behind page (off + frame_header_size + page) ws

-- The trace of frames that passed through.
abbrev pub passed : ℕ → ℕ → List Written → List Vfs.Event → List Vfs.Event
passed page off [] t = t
passed page off (w ∷ ws) t =
    passed page (off + frame_header_size + page) ws
      (Vfs.wrote (off + frame_header_size) w.body ∷ Vfs.wrote off w.head ∷ t)

-- None of the frames commits, and all have their sizes.
abbrev pub Plain : ℕ → List Written → Type 0
Plain page [] = Unit
Plain page (w ∷ ws) = (is_commit (Vfs.array_of w.head) ≡ false) × Fits page w × Plain page ws

-- The frame that a transaction starts with.
abbrev pub first_of : List Written → Written → Written
first_of [] w = w
first_of (v ∷ vs) w = v

first-Fits :
    (page : ℕ) (vs : List Written) (w : Written)
    → Plain page vs
    → Fits page w
    → Fits page (first_of vs w)
first-Fits page [] w p s = s
first-Fits page (v ∷ vs) w (c, q, p) s = q

module _ (fault : List Vfs.Event → ℕ → List ℕ → Option Error)
    (verdict : List Vfs.Event → List Frame → Option Error) where
  -- SQLite writes `ws` and then `w`, one behind another.
  abbrev pub write_tx : ℕ → Vfs.GatedFile → ℕ → List Written → Written → List Vfs.Event → Vfs.Result
  write_tx page f off [] w t = write_frame fault verdict f off w t
  write_tx page f off (v ∷ vs) w t =
      let r = write_frame fault verdict f off v t in
      write_tx page r.file (off + frame_header_size + page) vs w r.trace

  -- Such a transaction comes down to one proposal, of its frames in order.
  tx_proposed :
      (page : ℕ) (f : Vfs.GatedFile) (off : ℕ) (vs : List Written) (w : Written)
      (t : List Vfs.Event)
      → 0 < page
      → is_frame_header_offset page off ≡ true
      → Ready page off f
      → Plain page vs
      → Fits page w
      → is_commit (Vfs.array_of w.head) ≡ true
      → (g : Vfs.GatedFile) × (write_tx page f off vs w t
          ≡ Vfs.propose_commit fault verdict g
              (frame_of w)
              (behind page off vs + frame_header_size)
              (passed page off vs t))
        × (Vfs.frames_at g.tracked g.tx_frames
            ≡ Vfs.frames_at f.tracked f.tx_frames ++ map frame_of (vs ++ w ∷ []))
  tx_proposed page f off [] w t pos h r p s c = (
    with_frame f off w,
    commit_frame fault verdict f off w t page pos h r s c,
    frames_at-track f.tracked off (frame_of w) f.tx_frames r.below,
  )
  tx_proposed page f off (v ∷ vs) w t pos h r (n, q, p) s c =
      let (file, trace) = plain_frame fault verdict f off v t page pos h r q n in
      let next = off + frame_header_size + page in
      let (g, run, frames) =
        tx_proposed page (with_frame f off v) next vs w
          (Vfs.wrote (off + frame_header_size) v.body ∷ Vfs.wrote off v.head ∷ t) pos
          (next_header page off h) (with_frame-Ready page off f v r) p s c in
      (
        g,
        (λ i. write_tx page (file i) next vs w (trace i)) ∙ run,
        frames
            ∙ ap (λ (os : List Frame). os ++ map frame_of (vs ++ w ∷ []))
                (frames_at-track f.tracked off (frame_of v) f.tx_frames r.below)
            ∙ append_assoc (Vfs.frames_at f.tracked f.tx_frames) (frame_of v ∷ []) _,
      )

  propose_rejected :
      (g : Vfs.GatedFile) (frame : Frame) (off : ℕ) (t : List Vfs.Event) (fs : List Frame)
      (e : Error)
      → Vfs.frames_at g.tracked g.tx_frames ≡ fs
      → verdict t fs ≡ some e
      → Vfs.propose_commit fault verdict g frame off t ≡ record {
        reply = Vfs.system_error (Vfs.error_code e);
        file = Vfs.reset_current_tx (record g { tx_frames = [] });
        trace = Vfs.proposed fs (some e) ∷ t;
      }
  unfolding Vfs.propose_commit Vfs.after_verdict
  propose_rejected g frame off t fs e same v =
      let q = ap (verdict t) same ∙ v in
      λ i. Vfs.after_verdict fault verdict (q i) (same i) (record g { tx_frames = [] }) frame off t

  propose_accepted :
      (g : Vfs.GatedFile) (frame : Frame) (off : ℕ) (t : List Vfs.Event) (fs : List Frame)
      → Vfs.frames_at g.tracked g.tx_frames ≡ fs
      → verdict t fs ≡ none
      → Vfs.propose_commit fault verdict g frame off t
        ≡ Vfs.flush_at fault verdict
            (record g { tx_frames = []; committed = true })
            frame
            (off - frame_header_size)
            off
            (Vfs.proposed fs none ∷ t)
  unfolding Vfs.propose_commit Vfs.after_verdict
  propose_accepted g frame off t fs same v =
      let q = ap (verdict t) same ∙ v in
      λ i. Vfs.after_verdict fault verdict (q i) (same i) (record g { tx_frames = [] }) frame off t

  -- Two files that the first frame takes to one are taken to one by the transaction.
  behind_first :
      (page : ℕ) (f g : Vfs.GatedFile) (off : ℕ) (vs : List Written) (w : Written)
      (t : List Vfs.Event)
      → write_frame fault verdict f off (first_of vs w) t
        ≡ write_frame fault verdict g off (first_of vs w) t
      → write_tx page f off vs w t ≡ write_tx page g off vs w t
  behind_first page f g off [] w t e = e
  behind_first page f g off (v ∷ vs) w t e =
      λ i. write_tx page (e i).file (off + frame_header_size + page) vs w (e i).trace

  -- Where the first header of a transaction finds the file, the file that has forgotten all before
  -- it does the same.
  started :
      (page : ℕ) (f : Vfs.GatedFile) (off : ℕ) (vs : List Written) (w : Written)
      (t : List Vfs.Event)
      → 0 < page
      → is_frame_header_offset page off ≡ true
      → Fits page (first_of vs w)
      → Starts page off f (first_of vs w)
      → (g : Vfs.GatedFile) × Ready page off g
        × (g.tx_frames ≡ [])
        × (write_tx page f off vs w t ≡ write_tx page g off vs w t)
  started page f off vs w t pos at fits (at_end r none_yet) = (f, r, none_yet, refl)
  started page f off vs w t pos at fits (anew sized new other) =
      let first = first_of vs w in
      let same = first_write fault verdict page f off first t pos at fits sized new other in
      (
        forgotten off f,
        forgotten-Ready page off f at sized,
        refl,
        behind_first page f _ off vs w t same,
      )
  started page f off vs w t pos at fits (reused sized again plain) =
      let first = first_of vs w in
      let same = reused_write fault verdict page f off first t pos at fits sized again plain in
      let ready = forgotten-Ready page off (record f { rewrite_offset = off }) at sized in
      (restarted off f, ready, refl, behind_first page f _ off vs w t same)

  module _ (page : ℕ) (f : Vfs.GatedFile) (off : ℕ) (vs : List Written) (w : Written)
      (t : List Vfs.Event) (pos : 0 < page) (at : is_frame_header_offset page off ≡ true)
      (starts : Starts page off f (first_of vs w)) (plain : Plain page vs) (fits : Fits page w)
      (commits : is_commit (Vfs.array_of w.head) ≡ true) where
    abbrev sent : List Frame
    sent = map frame_of (vs ++ w ∷ [])

    sent_frames :
        (g : Vfs.GatedFile) × (write_tx page f off vs w t
          ≡ Vfs.propose_commit fault verdict g
              (frame_of w)
              (behind page off vs + frame_header_size)
              (passed page off vs t))
        × (Vfs.frames_at g.tracked g.tx_frames ≡ sent)
    unfolding Vfs.frames_at
    sent_frames =
        let (g0, ready, fresh, same) =
          started page f off vs w t pos at (first-Fits page vs w plain fits) starts in
        let (g, run, frames) = tx_proposed page g0 off vs w t pos at ready plain fits commits in
        (g, same ∙ run, frames ∙ rw fresh)

    -- A transaction that the gate rejects, the first header of which finds nothing tracked, or
    -- stands behind a commit or at or below an offset seen before, and which is not a single frame
    -- whose header is taken for a checksum rewrite: its frames but the last passed through, the
    -- gate was asked for all of them in order, the commit frame was not written, SQLite is told
    -- the result code of the gate's error, or a write error if that has none, and the file has
    -- forgotten the transaction.
    pub rejected_tx :
        (e : Error)
        → verdict (passed page off vs t) sent ≡ some e
        → let r = write_tx page f off vs w t in
          ((c : ResultCode) → err_code e ≡ some c → r.reply ≡ Vfs.system_error c)
          × (err_code e ≡ none → r.reply ≡ Vfs.system_error ioerr_write)
          × (r.trace ≡ Vfs.proposed sent (some e) ∷ passed page off vs t)
          × (r.file.tx_frames ≡ [])
          × (r.file.committed ≡ false)
          × ((o : ℕ) → r.file.tracked o ≡ none)
    unfolding Vfs.reset_current_tx
    rejected_tx e v =
        let (g, run, frames) = sent_frames in
        let same = run ∙ propose_rejected g (frame_of w) _ (passed page off vs t) sent e frames v in
        (
          λ c k. ap (λ (q : Vfs.Result). q.reply) same ∙ rw (k, Vfs.error_code),
          λ k. ap (λ (q : Vfs.Result). q.reply) same ∙ rw (k, Vfs.error_code),
          ap (λ (q : Vfs.Result). q.trace) same,
          ap (λ (q : Vfs.Result). q.file.tx_frames) same,
          ap (λ (q : Vfs.Result). q.file.committed) same,
          λ o. ap (λ (q : Vfs.Result). q.file.tracked o) same,
        )

    -- A transaction that the gate accepts, under the same condition: after the same proposal the
    -- commit frame's header and then its image are written, at the offset behind the other frames.
    -- If both writes succeed, SQLite is told that the image was written; if one of them fails, and
    -- only then, the process stops.
    pub accepted_tx :
        verdict (passed page off vs t) sent ≡ none
        → Flushed fault verdict
            (behind page off vs)
            (frame_of w)
            (Vfs.proposed sent none ∷ passed page off vs t)
            (write_tx page f off vs w t)
    accepted_tx v =
        let (g, run, frames) = sent_frames in
        let ho = behind page off vs in
        let t1 = Vfs.proposed sent none ∷ passed page off vs t in
        let e : ho + frame_header_size - frame_header_size ≡ ho = omega arith in
        let same =
          run
          ∙ propose_accepted g (frame_of w) _ (passed page off vs t) sent frames v
          ∙ ap
              (λ o.
                Vfs.flush_at fault verdict (record g { tx_frames = []; committed = true })
                  (frame_of w) o (ho + frame_header_size) t1)
              e in
        subst (Flushed fault verdict ho (frame_of w) t1) (sym same)
          (flush_at_lem fault verdict g (frame_of w) ho _)
