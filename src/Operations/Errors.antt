-- ===== src/Operations/Errors.antt =====
-- spoolctl/errors.py and the exit codes of spoolctl/models.py: the error codes, the exit code that the
-- registry gives each, and the exception CliError as a value. Messages and remediations are not kept.
use spoolctl.Base.{ℕ, ◌≡◌}

pub data ErrorCode : Type 0 where
  invalid_input missing_required unknown_flag unknown_command not_found conflict : ErrorCode
  idempotency_conflict safety_block locked timeout internal : ErrorCode

abbrev pub exit_input : ℕ
exit_input = 1

abbrev pub exit_safety : ℕ
exit_safety = 2

abbrev pub exit_environment : ℕ
exit_environment = 3

abbrev pub exit_transient : ℕ
exit_transient = 4

abbrev pub exit_conflict : ℕ
exit_conflict = 5

-- CODE_REGISTRY[code]["exit_code"]
unfoldable pub registered_exit : ErrorCode → ℕ
registered_exit ErrorCode.invalid_input = exit_input
registered_exit ErrorCode.missing_required = exit_input
registered_exit ErrorCode.unknown_flag = exit_input
registered_exit ErrorCode.unknown_command = exit_input
registered_exit ErrorCode.not_found = exit_input
registered_exit ErrorCode.conflict = exit_conflict
registered_exit ErrorCode.idempotency_conflict = exit_conflict
registered_exit ErrorCode.safety_block = exit_safety
registered_exit ErrorCode.locked = exit_transient
registered_exit ErrorCode.timeout = exit_transient
registered_exit ErrorCode.internal = exit_environment

pub record CliError : Type 0 where
  pub code : ErrorCode
  pub exit_code : ℕ

-- CliError(code, message, remediation): the exit code defaults to EXIT_INPUT.
abbrev pub cli_error : ErrorCode → CliError
cli_error code = record { code = code; exit_code = exit_input }

pub data Result {ℓ} (A : Type ℓ) : Type ℓ where
  ok : A → Result A
  err : CliError → Result A

-- The error carries the exit code that the registry gives its code.
abbrev pub IsRegistered : CliError → Type 0
IsRegistered e = e.exit_code ≡ registered_exit e.code

abbrev pub ErrorsRegistered {ℓ} : {A : Type ℓ} → Result A → Type 0
ErrorsRegistered (ok a) = Unit {0}
ErrorsRegistered (err e) = IsRegistered e
