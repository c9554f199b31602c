-- ===== src/Errors.antt =====
-- proto/errors/errors.go: the four ways in which a write proposal is rejected, and the SQLite
-- result code that each one surfaces as. Messages are modelled where the code reads them.
use Prim.Native.String.{String, ◌++◌ as str_append}
use text.Mathlib.Text.{◌==◌ as str_eq}
use literaft.Base.{Bool, true, false, Option, none, some, if◌then◌else◌}

pub data Category : Type 0 where
  redirect retryable ambiguous : Category

-- SQLite's result codes: SQLITE_READONLY, SQLITE_BUSY, SQLITE_IOERR_WRITE.
pub data ResultCode : Type 0 where
  readonly busy ioerr_write : ResultCode

unfoldable pub result_code : Category → ResultCode
result_code redirect = readonly
result_code retryable = busy
result_code ambiguous = ioerr_write

-- `plain` is every other error value, such as one of a library, by its message. A wrapped cause
-- stands inside its wrapper.
pub data Error : Type 0 where
  not_leader : String → Error
  catching_up : Error
  not_applied : String → Error
  not_applied_by : String → Error → Error
  ambiguous_error : Error → Error
  plain : String → Error
  wrapped : String → Error → Error

-- errors.As(err, &c): the first error of the chain that has a category.
unfoldable pub classify : Error → Option Category
classify (not_leader leader) = some redirect
classify catching_up = some retryable
classify (not_applied reason) = some retryable
classify (not_applied_by reason cause) = some retryable
classify (ambiguous_error cause) = some ambiguous
classify (plain message) = none
classify (wrapped message cause) = classify cause

unfoldable pub safe_to_retry : Error → Bool
unfolding classify
safe_to_retry err = elim (classify err) [
  | none ↦ false
  | some redirect ↦ true
  | some retryable ↦ true
  | some ambiguous ↦ false
]

-- vfs.ErrCode: the code of the first coded error of the chain.
unfoldable pub err_code : Error → Option ResultCode
unfolding classify result_code
err_code err = elim (classify err) [ none ↦ none | some c ↦ some (result_code c) ]

-- errors.As for the concrete types that internal/gate looks for.
unfoldable pub as_not_leader : Error → Option String
as_not_leader (not_leader leader) = some leader
as_not_leader catching_up = none
as_not_leader (not_applied reason) = none
as_not_leader (not_applied_by reason cause) = as_not_leader cause
as_not_leader (ambiguous_error cause) = as_not_leader cause
as_not_leader (plain message) = none
as_not_leader (wrapped message cause) = as_not_leader cause

unfoldable pub as_catching_up : Error → Bool
as_catching_up (not_leader leader) = false
as_catching_up catching_up = true
as_catching_up (not_applied reason) = false
as_catching_up (not_applied_by reason cause) = as_catching_up cause
as_catching_up (ambiguous_error cause) = as_catching_up cause
as_catching_up (plain message) = false
as_catching_up (wrapped message cause) = as_catching_up cause

unfoldable pub as_not_applied : Error → Bool
as_not_applied (not_leader leader) = false
as_not_applied catching_up = false
as_not_applied (not_applied reason) = true
as_not_applied (not_applied_by reason cause) = true
as_not_applied (ambiguous_error cause) = as_not_applied cause
as_not_applied (plain message) = false
as_not_applied (wrapped message cause) = as_not_applied cause

-- The Error methods.
unfoldable pub message : Error → String
message (not_leader leader) =
    if str_eq leader ""
    then "not the leader (leader unknown)"
    else str_append "not the leader (leader hint: " (str_append leader ")")
message catching_up = "elected leader but still draining the apply backlog"
message (not_applied reason) = str_append "write not applied: " reason
message (not_applied_by reason cause) =
    str_append "write not applied: " (str_append reason (str_append ": " (message cause)))
message (ambiguous_error cause) =
    str_append "write outcome ambiguous (possibly committed): " (message cause)
message (plain text) = text
message (wrapped text cause) = str_append text (str_append ": " (message cause))
