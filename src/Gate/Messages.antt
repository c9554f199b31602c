-- ===== src/Gate/Messages.antt =====
-- proto/leaderrequest.proto: the request that a follower forwards and the leader's response; and the
-- texts that internal/gate/gate.go makes of a response.
use Prim.Native.String.{String, ◌++◌ as str_append}
use text.Mathlib.Text.{◌==◌ as str_eq}
use literaft.Base.{ℕ, zero, suc, ◌/◌, ◌%◌, ltb, ◌==◌, Option, none, some, if◌then◌else◌}
use literaft.Errors.{Error, plain}
use literaft.Proto.{LogEntry}

-- LeaderResponse_Status; an open enum, so any other number may arrive.
pub data Status : Type 0 where
  status_unspecified status_ok status_not_leader status_stale_base : Status
  status_catching_up status_busy status_ambiguous status_invalid : Status
  status_other : ℕ → Status

pub record LeaderResponse : Type 0 where
  pub status : Status
  pub leader_addr : String
  pub last_applied_index : ℕ
  pub detail : String

pub record LeaderRequest : Type 0 where
  pub last_applied_index : ℕ
  pub entry : Option LogEntry

abbrev pub response : Status → String → LeaderResponse
response s d = record { status = s; leader_addr = ""; last_applied_index = 0; detail = d }

-- The getters read a missing entry as one with zero values.
abbrev pub entry_of : Option LogEntry → LogEntry
entry_of none = record { id = ""; transaction = none }
entry_of (some e) = e

abbrev digit : ℕ → String
digit n =
    if n == 0
    then "0"
    else if n == 1
    then "1"
    else if n == 2
    then "2"
    else if n == 3
    then "3"
    else if n == 4
    then "4"
    else if n == 5
    then "5"
    else if n == 6
    then "6"
    else if n == 7
    then "7"
    else if n == 8
    then "8"
    else "9"

-- The verb %d; `suc n` digits are enough for `n`.
abbrev pub decimal_from : ℕ → ℕ → String
decimal_from zero n = ""
decimal_from (suc k) n =
    let rest = decimal_from k (n / 10) in
    if ltb n 10 then digit n else str_append rest (digit (n % 10))

abbrev pub decimal : ℕ → String
decimal n = decimal_from (suc n) n

abbrev pub stale_reason : ℕ → String
stale_reason index =
    str_append "forwarded write lost to a concurrent write (leader applied index "
      (str_append (decimal index) ")")

abbrev pub busy_reason : String → String
busy_reason detail = if str_eq detail "" then "leader busy" else str_append "leader busy: " detail

-- fmt's text of a status outside the switch, by its name.
abbrev pub unknown_status : String → Error
unknown_status name =
    plain (
      str_append "unknown forward status "
        (str_append name (str_append " (" (str_append name ")"))))
