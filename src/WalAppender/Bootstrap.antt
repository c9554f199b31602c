-- ===== src/WalAppender/Bootstrap.antt =====
-- maybeBootstrap of internal/fsm/walappender/walappender.go: the store stands for an empty log.
use literaft.Base.{
  ℕ, ◌≡◌, refl, ap, ◌∙◌, Option, none, List, [], inl, inr, ltb, arith, Bool-cases, Option-cases,
  Sum-cases,
}
use literaft.Base.Bytes.{Bytes}
use literaft.Errors.{Error}
use literaft.Wal.Header as WalHeader
use literaft.Shm.Header as IndexHeader
use literaft.Shm.Copies.{word-Agree}
use literaft.Shm.Memory.{write_header}
use literaft.Shm.RoundTrip.{read_header-write_header}
use literaft.WalAppender.Append.{Store}
use literaft.WalAppender.Rewind.{
  Append, appended, append_panicked, endless, bootstrap, write_wal_file_header,
}
use literaft.WalAppender.Restart.{update_checksums-word, fresh-max_frame, fresh-page_count}
use literaft.WalAppender.Represents.{Represents}

module _ (write_fault : List (ℕ × List ℕ) → ℕ → Option Error) (map_fault : ℕ → Option Error)
    (page : ℕ) where
  -- The header of an empty log, once it is written.
  abbrev IsFresh : Bytes → Type 0
  IsFresh h = (IndexHeader.max_frame h ≡ 0) × (IndexHeader.page_count h ≡ 0)

  fresh-Represents :
      (h : Bytes) (s u : Store)
      → IsFresh h
      → write_header map_fault h s.shm ≡ (none, u.shm)
      → Represents map_fault page u []
  unfolding IndexHeader.max_frame IndexHeader.page_count
  fresh-Represents h s u (frames, size) e =
      let (c, back, agree, rest, others) = read_header-write_header map_fault h s.shm u.shm e in
      record {
        hdr = c;
        published = back;
        counted =
            word-Agree c (IndexHeader.update_checksums h) 16 (omega arith) agree
            ∙ (update_checksums-word h 16 (omega arith) ∙ frames);
        sized =
            word-Agree c (IndexHeader.update_checksums h) 20 (omega arith) agree
            ∙ (update_checksums-word h 20 (omega arith) ∙ size);
        stored = tt;
        indexed = record { entries = tt; tail = inl refl };
      }

  abbrev error_of : Append → Option Error
  error_of (appended err s) = err
  error_of append_panicked = none
  error_of endless = none

  abbrev store_of : Store → Append → Store
  store_of d (appended err s) = s
  store_of d append_panicked = d
  store_of d endless = d

  -- A bootstrap that succeeds leaves an empty log.
  pub bootstrap-Represents :
      (size : ℕ) (salts : Option Bytes) (s u : Store)
      → bootstrap write_fault map_fault page (inr size) salts s ≡ appended none u
      → Represents map_fault page u []
  unfolding bootstrap
  bootstrap-Represents size salts s u e = elim (Bool-cases (ltb 32 size)) [
    | inl big ↦ absurd (cc (rw (big, bootstrap) at (ap error_of e)))
    | inr small ↦
        let got = write_wal_file_header write_fault map_fault page salts s in
        elim (Sum-cases got.0) [
          | inl (x, k) ↦ absurd (cc (rw (small, k, bootstrap) at (ap error_of e)))
          | inr (w, k) ↦
              let hdr =
                IndexHeader.init_header page (WalHeader.checksum1 w) (WalHeader.checksum2 w)
                  (WalHeader.salt1 w) (WalHeader.salt2 w) in
              elim (Option-cases (write_header map_fault hdr got.1.shm).0) [
                | inr (x, n) ↦ absurd (cc (rw (small, k, n, bootstrap) at (ap error_of e)))
                | inl n ↦
                    let same : (write_header map_fault hdr got.1.shm).1 ≡ u.shm =
                      (rw (small, k, n, bootstrap) at
                        (ap (λ (r : Append). (store_of s r).shm) e)) in
                    fresh-Represents hdr got.1 u
                      (
                        fresh-max_frame page (WalHeader.checksum1 w) (WalHeader.checksum2 w)
                            (WalHeader.salt1 w) (WalHeader.salt2 w),
                        fresh-page_count page (WalHeader.checksum1 w) (WalHeader.checksum2 w)
                            (WalHeader.salt1 w) (WalHeader.salt2 w),
                      )
                      (λ i. (n i, same i))
              ]
        ]
  ]
