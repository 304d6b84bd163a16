-- ===== src/Worker/ExecutionError.antt =====
-- internal/worker/execution_error.go: the error that an executor reports.
use taskpulse.Prelude.{
  String, Bool, true, false, not, ◌&&◌, Option, none, some, ℤ, pos, negsuc, zero, suc, is_neg,
  is_blank, if◌then◌else◌,
}
use taskpulse.Result.{
  Result, ok, err, nil_execution_error, invalid_error_kind, empty_error_code, invalid_retry_after,
  permanent_retry_after,
}

-- `unknown` is any other text.
pub data ErrorKind : Type 0 where
  transient permanent unknown : ErrorKind

-- The wrapped cause is only shown, by its text.
pub record ExecutionError : Type 0 where
  pub kind : ErrorKind
  pub code : String
  pub retry_after : ℤ
  pub cause : Option String

abbrev is_unknown : ErrorKind → Bool
is_unknown unknown = true
is_unknown _ = false

abbrev is_permanent : ErrorKind → Bool
is_permanent permanent = true
is_permanent _ = false

abbrev is_transient : ErrorKind → Bool
is_transient transient = true
is_transient _ = false

abbrev is_zero : ℤ → Bool
is_zero (pos zero) = true
is_zero (pos (suc n)) = false
is_zero (negsuc n) = false

unfoldable pub validate : Option ExecutionError → Result (Unit {0})
validate none = err nil_execution_error
validate (some e) =
    if is_unknown e.kind
    then err invalid_error_kind
    else if is_blank e.code
    then err empty_error_code
    else if is_neg e.retry_after
    then err invalid_retry_after
    else if is_permanent e.kind && not (is_zero e.retry_after)
    then err permanent_retry_after
    else ok tt

unfoldable pub retryable : Option ExecutionError → Bool
retryable none = false
retryable (some e) = is_transient e.kind

unfoldable pub new_execution_error : ErrorKind → String → ℤ → Option String → Result ExecutionError
unfolding validate
new_execution_error kind code retry_after cause =
    let e : ExecutionError = record {
      kind = kind;
      code = code;
      retry_after = retry_after;
      cause = cause;
    } in
    elim (validate (some e)) [ err x ↦ err x | ok _ ↦ ok e ]
