-- ===== src/Reporting/Tests.antt =====
-- domain/reporting.py at concrete evidence.
use google_workspace_gmail_a.Common.{false, none, some, [], ◌∷◌, ◌≡◌, ◌↔◌, refl}
use google_workspace_gmail_a.Verification.{VerificationResult, matched}
use google_workspace_gmail_a.Reporting.{
  completed, MutationResult, applied_pending_propagation, indeterminate, determine_run_result,
  validate_run,
}
use google_workspace_gmail_a.Reporting.Confirmed.{
  run_status, IsApplied, determine_run_result-IsApplied_iff,
}
use google_workspace_gmail_a.DesiredState.Tests.{observed}

abbrev pub done : MutationResult
done = record {
  status = completed;
  operation = "update_rule";
  resource_ownership_ids = "1" ∷ [];
  error_code = none;
}

abbrev seen : VerificationResult
seen = record {
  status = matched;
  desired_state = observed;
  observed_state = some observed;
  differences = [];
}

unverified :
    run_status (determine_run_result (some done) none false false false) ≡ some indeterminate
unfolding determine_run_result validate_run
unverified = refl

IsApplied-iff_example :
    (run_status (determine_run_result (some done) (some seen) false false false)
      ≡ some applied_pending_propagation)
    ↔ IsApplied (some done) (some seen) false false false
IsApplied-iff_example = determine_run_result-IsApplied_iff (some done) (some seen) false false false
