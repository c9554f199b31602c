-- ===== src/Shm/Rewind.antt =====
-- internal/fsm/walappender/shm/walindex.go: what a rewind of the log leaves in the checkpoint
-- information.
use literaft.Base.{ℕ, ◌≤◌, ◌<◌, ◌≡◌, refl, ◌⊎◌, some, arith}
use literaft.Base.Bytes.{little, Bytes, get32, put32}
use literaft.Shm.Checkpoint.{
  read_mark_not_used, n_backfill, set_n_backfill, read_mark, set_read_mark, n_backfill_attempted,
  set_n_backfill_attempted, drop_marks, reset_for_rewind,
}

-- The bytes that no field of a rewind covers: the first reader's mark, and the lock bytes.
abbrev pub IsOther : ℕ → Type 0
IsOther j = ((4 ≤ j) × (j < 8)) ⊎ ((24 ≤ j) × (j < 32)) ⊎ (36 ≤ j)

pub record Rewound (c d : Bytes) : Type 0 where
  pub backfilled : n_backfill d ≡ 0
  pub attempted : n_backfill_attempted d ≡ 0
  pub first : read_mark d 0 ≡ read_mark c 0
  pub second : read_mark d 1 ≡ some 0
  pub unused2 : read_mark d 2 ≡ some read_mark_not_used
  pub unused3 : read_mark d 3 ≡ some read_mark_not_used
  pub unused4 : read_mark d 4 ≡ some read_mark_not_used
  pub others : (j : ℕ) → IsOther j → d j ≡ c j

-- The bytes that ResetForRewind writes, field by field.
abbrev written : Bytes → Bytes
written c =
    let c0 = put32 little c 0 0 in
    let c1 = put32 little c0 8 0 in
    let c2 = put32 little c1 12 read_mark_not_used in
    let c3 = put32 little c2 16 read_mark_not_used in
    put32 little (put32 little c3 20 read_mark_not_used) 32 0

reset_for_rewind_lem : (c : Bytes) → reset_for_rewind c ≡ some (written c)
unfolding reset_for_rewind drop_marks set_read_mark set_n_backfill set_n_backfill_attempted
reset_for_rewind_lem c = refl

written-Rewound : (c : Bytes) → Rewound c (written c)
unfolding n_backfill n_backfill_attempted read_mark get32 put32
written-Rewound c = record {
  backfilled = ground arith;
  attempted = ground arith;
  first = ground arith;
  second = ground arith;
  unused2 = ground arith;
  unused3 = ground arith;
  unused4 = ground arith;
  others = λ j o. ground (arith, o);
}

-- ResetForRewind never panics; nothing counts as backfilled, only the first two readers have marks,
-- the first reader's is kept, and so are the lock bytes.
pub reset_for_rewind-Rewound :
    (c : Bytes) → (d : Bytes) × (reset_for_rewind c ≡ some d) × Rewound c d
reset_for_rewind-Rewound c = (written c, reset_for_rewind_lem c, written-Rewound c)
