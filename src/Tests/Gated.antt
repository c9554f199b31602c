-- ===== src/Tests/Gated.antt =====
-- internal/vfs/gatedwalfile.go on concrete writes, with a page of eight bytes.
use literaft.Base.{ℕ, ◌≡◌, refl, true, false, List, [], ◌∷◌, arith, Option, none, some, map}
use literaft.Base.Bytes.{get32}
use literaft.Errors.{Error, ResultCode, ioerr_write, err_code, catching_up}
use literaft.Wal.Frame.{Frame, n_truncate, is_commit}
use literaft.Wal.Header.{page_size}
use literaft.Wal.Offsets.{is_frame_header_offset}
use literaft.Vfs
use literaft.Vfs.Written.{Written, frame_of, Ready, at_end, anew}
use literaft.Vfs.Withhold.{Kept, serve, commit_withheld}
use literaft.Vfs.Transaction.{write_tx, passed, behind, rejected_tx, accepted_tx}
use literaft.Vfs.Flush.{Flushed}

abbrev no_fault : List Vfs.Event → ℕ → List ℕ → Option Error
no_fault t off p = none

abbrev accepting : List Vfs.Event → List Frame → Option Error
accepting t fs = none

abbrev rejecting : List Vfs.Event → List Frame → Option Error
rejecting t fs = some catching_up

abbrev eight_zeros : List ℕ
eight_zeros = 0 ∷ 0 ∷ 0 ∷ 0 ∷ 0 ∷ 0 ∷ 0 ∷ 0 ∷ []

abbrev sixteen_zeros : List ℕ
sixteen_zeros = 0 ∷ 0 ∷ 0 ∷ 0 ∷ 0 ∷ 0 ∷ 0 ∷ 0 ∷ 0 ∷ 0 ∷ 0 ∷ 0 ∷ 0 ∷ 0 ∷ 0 ∷ 0 ∷ []

abbrev wal_start : List ℕ
wal_start = 0 ∷ 0 ∷ 0 ∷ 0 ∷ 0 ∷ 0 ∷ 0 ∷ 0 ∷ 0 ∷ 0 ∷ 0 ∷ 8 ∷ 0 ∷ 0 ∷ 0 ∷ 0 ∷ sixteen_zeros

abbrev plain_write : Written
plain_write = record { head = 0 ∷ 0 ∷ 0 ∷ 3 ∷ 0 ∷ 0 ∷ 0 ∷ 0 ∷ sixteen_zeros; body = eight_zeros }

abbrev commit_write : Written
commit_write = record { head = 0 ∷ 0 ∷ 0 ∷ 4 ∷ 0 ∷ 0 ∷ 0 ∷ 4 ∷ sixteen_zeros; body = eight_zeros }

commit_withheld_example : Kept 8 (
    serve no_fault accepting
      (Vfs.new_gated_file wal_start)
      ((commit_write.head, 32) ∷ (commit_write.body, 56) ∷ [])
      [])
unfolding Vfs.new_gated_file page_size get32
commit_withheld_example =
    commit_withheld no_fault accepting wal_start
      ((commit_write.head, 32) ∷ (commit_write.body, 56) ∷ []) (omega arith)

abbrev fresh : Vfs.GatedFile
fresh = record {
  page = 8;
  pending_header = none;
  tx_frames = [];
  tracked = λ _. none;
  committed = false;
  max_offset = 0;
  rewrite_header = none;
  rewrite_offset = 0;
}

fresh-Ready : Ready 8 32 fresh
fresh-Ready = record {
  sized = refl;
  open_tx = refl;
  unstaged = refl;
  ahead = omega arith;
  below = tt;
  unseen = λ q h. refl;
}

-- Behind a transaction that was accepted, of one frame.
abbrev committed_before : Vfs.GatedFile
committed_before = record fresh {
  tracked = Vfs.track (λ _. none) 64 (some (frame_of commit_write));
  committed = true;
  max_offset = 64;
}

abbrev both : List Frame
both = map frame_of (plain_write ∷ commit_write ∷ [])

rejected_tx_example :
    let r = write_tx no_fault rejecting 8 fresh 32 (plain_write ∷ []) commit_write [] in
    ((c : ResultCode) → err_code catching_up ≡ some c → r.reply ≡ Vfs.system_error c)
    × (err_code catching_up ≡ none → r.reply ≡ Vfs.system_error ioerr_write)
    × (r.trace ≡ Vfs.proposed both (some catching_up) ∷ passed 8 32 (plain_write ∷ []) [])
    × (r.file.tx_frames ≡ [])
    × (r.file.committed ≡ false)
    × ((o : ℕ) → r.file.tracked o ≡ none)
unfolding is_commit n_truncate get32 is_frame_header_offset
rejected_tx_example =
    rejected_tx no_fault rejecting 8 fresh 32 (plain_write ∷ []) commit_write [] (omega arith) refl
      (at_end fresh-Ready refl) (refl, record { head_fits = refl; body_fits = refl }, tt)
      (record { head_fits = refl; body_fits = refl }) refl catching_up refl

accepted_tx_example :
    Flushed no_fault accepting
      (behind 8 32 (plain_write ∷ []))
      (frame_of commit_write)
      (Vfs.proposed both none ∷ passed 8 32 (plain_write ∷ []) [])
      (write_tx no_fault accepting 8 committed_before 32 (plain_write ∷ []) commit_write [])
unfolding is_commit n_truncate get32 is_frame_header_offset
accepted_tx_example =
    accepted_tx no_fault accepting 8 committed_before 32 (plain_write ∷ []) commit_write []
      (omega arith) refl (anew refl refl refl)
      (refl, record { head_fits = refl; body_fits = refl }, tt)
      (record { head_fits = refl; body_fits = refl }) refl refl
