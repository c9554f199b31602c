-- ===== src/WalAppender/Restart.antt =====
-- internal/fsm/walappender/walappender.go: the fields of the headers that an append publishes, and what
-- rewindLogIfBackfilled can come to.
use literaft.Base.{
  ℕ, ◌+◌, ◌≤◌, ◌<◌, ◌≡◌, refl, ap, ◌∙◌, Bool, true, false, ◌||◌, Option, none, some, List, inl, inr,
  ◌⊎◌, ◌==◌, ltb, arith, Bool-cases, Option-cases, Sum-cases,
}
use literaft.Base.Bytes.{
  Bytes, little, get32, put32, get32-put32, get32-put32_ne, u32_mod, bytes_of,
}
use literaft.Errors.{Error}
use literaft.Wal.Checksum.{compute_checksums}
use literaft.Wal.Frame.{Frame, n_truncate}
use literaft.Shm.Header as IndexHeader
use literaft.Shm.Checkpoint.{n_backfill}
use literaft.Shm.Memory.{
  SharedMemory, get_region, read_checkpoint_info, write_header, write_checkpoint_info,
}
use literaft.Shm.Rewind.{reset_for_rewind-Rewound}
use literaft.WalAppender.Append.{Store, Loop, published_header}
use literaft.WalAppender.Published.{get_region-content}
use literaft.WalAppender.Rewind.{
  Rewind, returned, rewound_header, reset_checkpoint, rewind_index, rewind_log_if_backfilled,
}

-- The header's checksums stand behind the other fields.
pub update_checksums-word :
    (h : Bytes) (off : ℕ)
    → off + 4 ≤ 40
    → get32 little (IndexHeader.update_checksums h) off ≡ get32 little h off
unfolding IndexHeader.update_checksums IndexHeader.set_checksum1 IndexHeader.set_checksum2
update_checksums-word h off le =
    elim (Option-cases (compute_checksums little (bytes_of h 0 40) 0 0)) [
      | inl k ↦ rw (k, IndexHeader.update_checksums)
      | inr ((c1, c2), k) ↦
          rw (k, IndexHeader.update_checksums)
            (get32-put32_ne little little (put32 little h 40 c1) 44 off c2 (inr (omega arith))
              ∙ get32-put32_ne little little h 40 off c1 (inr (omega arith)))
    ]

module _ (f : Frame) (l : Loop) where
  pub published-max_frame :
      l.current_frame_idx < u32_mod
      → IndexHeader.max_frame (published_header f l) ≡ l.current_frame_idx
  unfolding published_header IndexHeader.max_frame IndexHeader.set_max_frame
      IndexHeader.set_page_count IndexHeader.set_last_frame_checksum1
      IndexHeader.set_last_frame_checksum2 IndexHeader.set_change_counter
  published-max_frame lt =
      get32-put32_ne little little _ 8 16 _ (inl (omega arith))
      ∙ (get32-put32_ne little little _ 28 16 _ (inr (omega arith))
          ∙ (get32-put32_ne little little _ 24 16 _ (inr (omega arith))
              ∙ (get32-put32_ne little little _ 20 16 _ (inr (omega arith))
                  ∙ get32-put32 little l.hdr 16 l.current_frame_idx lt)))

  pub published-page_count :
      n_truncate f.header < u32_mod
      → IndexHeader.page_count (published_header f l) ≡ n_truncate f.header
  unfolding published_header IndexHeader.page_count IndexHeader.set_max_frame
      IndexHeader.set_page_count IndexHeader.set_last_frame_checksum1
      IndexHeader.set_last_frame_checksum2 IndexHeader.set_change_counter
  published-page_count lt =
      get32-put32_ne little little _ 8 20 _ (inl (omega arith))
      ∙ (get32-put32_ne little little _ 28 20 _ (inr (omega arith))
          ∙ (get32-put32_ne little little _ 24 20 _ (inr (omega arith))
              ∙ get32-put32 little _ 20 (n_truncate f.header) lt))

rewound-max_frame :
    (w h : Bytes) → IndexHeader.max_frame (IndexHeader.update_checksums (rewound_header w h)) ≡ 0
unfolding rewound_header IndexHeader.max_frame IndexHeader.set_max_frame IndexHeader.set_page_count
    IndexHeader.set_last_frame_checksum1 IndexHeader.set_last_frame_checksum2 IndexHeader.set_salt1
    IndexHeader.set_salt2 IndexHeader.set_change_counter
rewound-max_frame w h =
    update_checksums-word (rewound_header w h) 16 (omega arith)
    ∙ (get32-put32_ne little little _ 8 16 _ (inl (omega arith))
        ∙ (get32-put32_ne little little _ 36 16 _ (inr (omega arith))
            ∙ (get32-put32_ne little little _ 32 16 _ (inr (omega arith))
                ∙ (get32-put32_ne little little _ 28 16 _ (inr (omega arith))
                    ∙ (get32-put32_ne little little _ 24 16 _ (inr (omega arith))
                        ∙ (get32-put32_ne little little _ 20 16 _ (inr (omega arith))
                            ∙ get32-put32 little h 16 0 (omega arith)))))))

module _ (size c1 c2 s1 s2 : ℕ) where
  pub fresh-max_frame : IndexHeader.max_frame (IndexHeader.init_header size c1 c2 s1 s2) ≡ 0
  unfolding IndexHeader.init_header IndexHeader.max_frame IndexHeader.set_max_frame
      IndexHeader.set_page_count IndexHeader.set_last_frame_checksum1
      IndexHeader.set_last_frame_checksum2 IndexHeader.set_salt1 IndexHeader.set_salt2
  fresh-max_frame =
      get32-put32_ne little little _ 36 16 _ (inr (omega arith))
      ∙ (get32-put32_ne little little _ 32 16 _ (inr (omega arith))
          ∙ (get32-put32_ne little little _ 28 16 _ (inr (omega arith))
              ∙ (get32-put32_ne little little _ 24 16 _ (inr (omega arith))
                  ∙ (get32-put32_ne little little _ 20 16 _ (inr (omega arith))
                      ∙ get32-put32 little _ 16 0 (omega arith)))))

  pub fresh-page_count : IndexHeader.page_count (IndexHeader.init_header size c1 c2 s1 s2) ≡ 0
  unfolding IndexHeader.init_header IndexHeader.page_count IndexHeader.set_page_count
      IndexHeader.set_last_frame_checksum1 IndexHeader.set_last_frame_checksum2
      IndexHeader.set_salt1 IndexHeader.set_salt2
  fresh-page_count =
      get32-put32_ne little little _ 36 20 _ (inr (omega arith))
      ∙ (get32-put32_ne little little _ 32 20 _ (inr (omega arith))
          ∙ (get32-put32_ne little little _ 28 20 _ (inr (omega arith))
              ∙ (get32-put32_ne little little _ 24 20 _ (inr (omega arith))
                  ∙ get32-put32 little _ 20 0 (omega arith))))

module _ (write_fault : List (ℕ × List ℕ) → ℕ → Option Error) (map_fault : ℕ → Option Error)
    (page : ℕ) where
  -- A failure; or a header of an empty log.
  pub data Restarts : Rewind → Type 0 where
    restart_fails : (e : Error) (h : Bytes) (u : Store) → Restarts (returned (some e) h u)
    restarted : (h : Bytes) (u : Store) → IndexHeader.max_frame h ≡ 0 → Restarts (returned none h u)

  reset_checkpoint-Restarts :
      (info h : Bytes) (s : Store)
      → IndexHeader.max_frame h ≡ 0
      → Restarts (reset_checkpoint write_fault map_fault page info h s)
  unfolding reset_checkpoint
  reset_checkpoint-Restarts info h s z =
      let (d, k, v) = reset_for_rewind-Rewound info in
      rw (k, reset_checkpoint)
        (elim (Option-cases (write_checkpoint_info map_fault d s.shm).0) [
          | inl n ↦ rw n (restarted h _ z)
          | inr (e, n) ↦ rw n (restart_fails _ h _)
        ])

  rewind_index-Restarts :
      (info h : Bytes) (got : (Error ⊎ Bytes) × Store)
      → Restarts (rewind_index write_fault map_fault page info got h)
  unfolding rewind_index
  rewind_index-Restarts info h (inl e, s) = restart_fails _ h s
  rewind_index-Restarts info h (inr w, s) =
      elim (Option-cases (write_header map_fault (rewound_header w h) s.shm).0) [
        | inr (e, n) ↦ rw (n, rewind_index) (restart_fails _ _ _)
        | inl n ↦ rw (n, rewind_index) (reset_checkpoint-Restarts info _ _ (rewound-max_frame w h))
      ]

  read_checkpoint_info-content :
      (s : SharedMemory) → (read_checkpoint_info map_fault s).1.content ≡ s.content
  unfolding read_checkpoint_info
  read_checkpoint_info-content s = elim (Option-cases (get_region map_fault 0 s).0) [
    | inl k ↦ rw (k, read_checkpoint_info) (get_region-content map_fault 0 s)
    | inr (e, k) ↦ rw (k, read_checkpoint_info) (get_region-content map_fault 0 s)
  ]

  -- What rewindLogIfBackfilled comes to, of a log with `h` for its header: it fails; or it leaves log
  -- and wal-index as they are; or, if no reader holds a lock and every frame has been backfilled,
  -- it begins an empty log.
  pub data Rewinds (busy : Bool) (h : Bytes) (s : Store) : Rewind → Type 0 where
    fails : (e : Error) (h' : Bytes) (u : Store) → Rewinds busy h s (returned (some e) h' u)
    stays :
        (u : Store)
        → u.wal ≡ s.wal
        → u.shm.content ≡ s.shm.content
        → Rewinds busy h s (returned none h u)
    restarts :
        (info h' : Bytes) (v : SharedMemory) (u : Store)
        → busy ≡ false
        → read_checkpoint_info map_fault s.shm ≡ (inr info, v)
        → IndexHeader.max_frame h ≤ n_backfill info
        → IndexHeader.max_frame h' ≡ 0
        → Rewinds busy h s (returned none h' u)

  Restarts-Rewinds :
      (h info : Bytes) (v : SharedMemory) (s : Store) (r : Rewind)
      → read_checkpoint_info map_fault s.shm ≡ (inr info, v)
      → IndexHeader.max_frame h ≤ n_backfill info
      → Restarts r
      → Rewinds false h s r
  Restarts-Rewinds h info v s r read full (restart_fails e h' u) = fails e h' u
  Restarts-Rewinds h info v s r read full (restarted h' u z) = restarts info h' v u refl read full z

  -- Every way out of rewindLogIfBackfilled.
  pub rewind_log_if_backfilled-Rewinds :
      (busy : Bool) (salts : Option Bytes) (h : Bytes) (s : Store)
      → Rewinds busy h s (rewind_log_if_backfilled write_fault map_fault page busy salts h s)
  unfolding rewind_log_if_backfilled
  rewind_log_if_backfilled-Rewinds true salts h s = stays s refl refl
  rewind_log_if_backfilled-Rewinds false salts h s =
      let got = read_checkpoint_info map_fault s.shm in
      let s' : Store = record s { shm = got.1 } in
      elim (Sum-cases got.0) [
        | inl (e, k) ↦ rw (k, rewind_log_if_backfilled) (fails _ h s')
        | inr (info, k) ↦
            rw (k, rewind_log_if_backfilled)
              (elim (Bool-cases
                (IndexHeader.max_frame h == 0 || ltb (n_backfill info) (IndexHeader.max_frame h))) [
                  | inl t ↦ rw t (stays s' refl (read_checkpoint_info-content s.shm))
                  | inr t ↦ rw t (
                      Restarts-Rewinds h info got.1 s _ (ap (λ x. (x, got.1)) k) (ground (arith, t))
                        (rewind_index-Restarts info h _))
                ])
      ]
