-- ===== src/Reporting.antt =====
-- domain/reporting.py, with `MutationResult` and `RunResult` of schemas/results.py and
-- schemas/status.py: the authoritative status of a run.
pub mod Confirmed
pub mod Tests
use google_workspace_gmail_a.Common.{
  ℕ, String, Bool, true, false, not, ◌&&◌, ◌||◌, Option, none, some, List, [], ◌∷◌, if◌then◌else◌,
  Result, ok, value_error, raise_if, ◌>>◌, is_blank,
}
use google_workspace_gmail_a.Schemas.Resources.{is_within}
use google_workspace_gmail_a.Verification.{VerificationResult, VerificationStatus, matched}

pub data MutationStatus : Type 0 where
  completed unchanged uncertain partial : MutationStatus

pub record MutationResult : Type 0 where
  pub status : MutationStatus
  pub operation : String
  pub resource_ownership_ids : List String
  pub error_code : Option String

-- `bool(error_code)`
abbrev pub has_code : Option String → Bool
has_code none = false
has_code (some code) = not (is_blank code)

-- the statuses `uncertain` and `partial`
abbrev pub is_doubtful : MutationStatus → Bool
is_doubtful uncertain = true
is_doubtful partial = true
is_doubtful _ = false

-- `validate_error_evidence`, after the bounds on the operation
unfoldable pub validate_mutation : MutationResult → Result MutationResult
validate_mutation m = do
  raise_if (not (is_within 1 200 m.operation)) value_error
  raise_if (is_doubtful m.status && not (has_code m.error_code)) value_error
  raise_if (not (is_doubtful m.status) && has_code m.error_code) value_error
  ok m

pub data RunStatus : Type 0 where
  no_change_required dry_run_preview_ready confirmation_rejected applied_ui_verified : RunStatus
  applied_pending_propagation partially_applied failed_unchanged indeterminate : RunStatus
  unsupported : RunStatus

pub record RunResult : Type 0 where
  pub status : RunStatus
  pub requested_changes : List String
  pub verified_changes : List String
  pub warnings : List String
  pub error_code : Option String
  pub propagation_pending : Bool

abbrev pub is_pending : RunStatus → Bool
is_pending applied_pending_propagation = true
is_pending _ = false

abbrev unequal : Bool → Bool → Bool
unequal true b = not b
unequal false b = b

-- `validate_propagation_status`
unfoldable pub validate_run : RunResult → Result RunResult
validate_run r = raise_if (unequal r.propagation_pending (is_pending r.status)) value_error >> ok r

-- `RunResult(status=..., error_code=...)`
abbrev pub ended : RunStatus → Option String → Result RunResult
ended status error_code = validate_run (record {
  status = status;
  requested_changes = [];
  verified_changes = [];
  warnings = [];
  error_code = error_code;
  propagation_pending = false;
})

-- `_PROPAGATION_WARNING`
abbrev pub propagation_warning : String
propagation_warning =
    "The configuration was saved and confirmed through a fresh Admin console read-back. Gmail enforcement may still be propagating."

-- the result of a mutation with a verification
abbrev pub verified_result : MutationStatus → VerificationStatus → Result RunResult
verified_result mutation matched = validate_run (record {
  status = applied_pending_propagation;
  requested_changes = [];
  verified_changes = [];
  warnings = propagation_warning ∷ [];
  error_code = none;
  propagation_pending = true;
})
verified_result unchanged verification = ended failed_unchanged (some "verification_mismatch")
verified_result mutation verification = ended indeterminate (some "verification_mismatch")

-- the result of a mutation that was attempted and is not partial
abbrev pub attempted_result : MutationResult → Option VerificationResult → Result RunResult
attempted_result m none = elim m.status [
  | uncertain ↦ ended indeterminate m.error_code
  | _ ↦ ended indeterminate (some "verification_missing")
]
attempted_result m (some v) = verified_result m.status v.status

-- the result of an attempt, or of none
abbrev pub mutation_result : Option MutationResult → Option VerificationResult → Result RunResult
mutation_result none v = ended failed_unchanged (some "mutation_not_attempted")
mutation_result (some m) v = elim m.status [
  | partial ↦ ended partially_applied m.error_code
  | _ ↦ attempted_result m v
]

-- `determine_run_result`; the flags are `confirmation_rejected`, `unsupported` and
-- `no_change_required`.
unfoldable pub determine_run_result :
    Option MutationResult → Option VerificationResult → Bool → Bool → Bool → Result RunResult
unfolding validate_run
determine_run_result mutation verification rejected is_unsupported no_change =
    if is_unsupported
    then ended unsupported none
    else if rejected
    then ended confirmation_rejected none
    else if no_change
    then ended no_change_required none
    else mutation_result mutation verification
