-- ===== src/Reporting/Confirmed.antt =====
-- domain/reporting.py: what a run that is reported as applied rests on.
use google_workspace_gmail_a.Common.{
  Bool, true, false, Option, none, some, ◌≡◌, ◌≢◌, refl, sym, ap, ◌∙◌, ◌↔◌, Result, ok, err,
}
use google_workspace_gmail_a.Verification.{
  VerificationResult, VerificationStatus, matched, mismatched, target_missing, duplicate_target,
  unreadable,
}
use google_workspace_gmail_a.Reporting.{
  MutationStatus, completed, unchanged, uncertain, partial, MutationResult, RunStatus,
  applied_pending_propagation, RunResult, determine_run_result, validate_run, mutation_result,
  attempted_result, verified_result,
}

abbrev pub run_status : Result RunResult → Option RunStatus
run_status (ok r) = some r.status
run_status (err e) = none

-- The mutation was attempted and is not known to be partial, and a fresh read matched.
pub data IsConfirmed : Option MutationResult → Option VerificationResult → Type 0 where
  confirmed :
      (m : MutationResult) (v : VerificationResult)
      → m.status ≢ partial
      → v.status ≡ matched
      → IsConfirmed (some m) (some v)

-- None of the three flags is set, and the mutation is confirmed.
pub record IsApplied (mutation : Option MutationResult) (verification : Option VerificationResult)
    (rejected is_unsupported no_change : Bool) : Type 0 where
  pub supported : is_unsupported ≡ false
  pub accepted : rejected ≡ false
  pub changes : no_change ≡ false
  pub confirmed : IsConfirmed mutation verification

IsConfirmed-of :
    (m : MutationResult) (v : VerificationResult) (p : MutationStatus) (q : VerificationStatus)
    → m.status ≡ p
    → v.status ≡ q
    → run_status (verified_result p q) ≡ some applied_pending_propagation
    → p ≢ partial
    → IsConfirmed (some m) (some v)
unfolding validate_run
IsConfirmed-of m v p matched e f h ne = confirmed m v (λ same. ne (sym e ∙ same)) f
IsConfirmed-of m v completed mismatched e f h ne = cc
IsConfirmed-of m v completed target_missing e f h ne = cc
IsConfirmed-of m v completed duplicate_target e f h ne = cc
IsConfirmed-of m v completed unreadable e f h ne = cc
IsConfirmed-of m v unchanged mismatched e f h ne = cc
IsConfirmed-of m v unchanged target_missing e f h ne = cc
IsConfirmed-of m v unchanged duplicate_target e f h ne = cc
IsConfirmed-of m v unchanged unreadable e f h ne = cc
IsConfirmed-of m v uncertain mismatched e f h ne = cc
IsConfirmed-of m v uncertain target_missing e f h ne = cc
IsConfirmed-of m v uncertain duplicate_target e f h ne = cc
IsConfirmed-of m v uncertain unreadable e f h ne = cc
IsConfirmed-of m v partial q e f h ne = absurd (ne refl)

as_verified :
    (m : MutationResult) (v : VerificationResult) (s : MutationStatus)
    → m.status ≡ s
    → run_status (verified_result s v.status) ≡ run_status (attempted_result m (some v))
as_verified m v s e = ap (λ p. run_status (verified_result p v.status)) (sym e)

IsConfirmed-of_attempt :
    (m : MutationResult) (w : Option VerificationResult) (s : MutationStatus)
    → m.status ≡ s
    → run_status (mutation_result (some m) w) ≡ some applied_pending_propagation
    → IsConfirmed (some m) w
unfolding validate_run
IsConfirmed-of_attempt m w partial e h = let shown = rw e at h in cc
IsConfirmed-of_attempt m none completed e h = let shown = rw e at h in cc
IsConfirmed-of_attempt m none unchanged e h = let shown = rw e at h in cc
IsConfirmed-of_attempt m none uncertain e h = let shown = rw e at h in cc
IsConfirmed-of_attempt m (some v) completed e h =
    IsConfirmed-of m v completed v.status e refl (as_verified m v completed e ∙ (rw e at h))
      (λ p. cc)
IsConfirmed-of_attempt m (some v) unchanged e h =
    IsConfirmed-of m v unchanged v.status e refl (as_verified m v unchanged e ∙ (rw e at h))
      (λ p. cc)
IsConfirmed-of_attempt m (some v) uncertain e h =
    IsConfirmed-of m v uncertain v.status e refl (as_verified m v uncertain e ∙ (rw e at h))
      (λ p. cc)

attempt_of_confirmed :
    (m : MutationResult) (v : VerificationResult) (s : MutationStatus)
    → m.status ≡ s
    → m.status ≢ partial
    → v.status ≡ matched
    → run_status (mutation_result (some m) (some v)) ≡ some applied_pending_propagation
unfolding validate_run
attempt_of_confirmed m v partial e ne f = absurd (ne e)
attempt_of_confirmed m v completed e ne f = rw (e, f)
attempt_of_confirmed m v unchanged e ne f = rw (e, f)
attempt_of_confirmed m v uncertain e ne f = rw (e, f)

-- A run is reported as applied, pending propagation, exactly when none of the flags for an
-- unsupported request, a rejected confirmation and an empty change is set, a mutation that is
-- not known to be partial was attempted, and its independent verification matched.
pub determine_run_result-IsApplied_iff :
    (mutation : Option MutationResult) (verification : Option VerificationResult)
    (rejected is_unsupported no_change : Bool)
    → (run_status (determine_run_result mutation verification rejected is_unsupported no_change)
        ≡ some applied_pending_propagation)
      ↔ IsApplied mutation verification rejected is_unsupported no_change
unfolding determine_run_result validate_run
determine_run_result-IsApplied_iff mutation verification rejected is_unsupported no_change =
    (confirm mutation verification rejected is_unsupported no_change, report)
  where
    confirm :
        (mutation : Option MutationResult) (verification : Option VerificationResult)
        (rejected is_unsupported no_change : Bool)
        → run_status (determine_run_result mutation verification rejected is_unsupported no_change)
          ≡ some applied_pending_propagation
        → IsApplied mutation verification rejected is_unsupported no_change
    confirm m v rejected true no_change h = cc
    confirm m v true false no_change h = cc
    confirm m v false false true h = cc
    confirm none v false false false h = cc
    confirm (some m) v false false false h = record {
      supported = refl;
      accepted = refl;
      changes = refl;
      confirmed = IsConfirmed-of_attempt m v m.status refl h;
    }

    reported :
        (m : Option MutationResult) (v : Option VerificationResult)
        → IsConfirmed m v
        → run_status (mutation_result m v) ≡ some applied_pending_propagation
    reported m v (IsConfirmed.confirmed a b ne e) = attempt_of_confirmed a b a.status refl ne e

    report :
        IsApplied mutation verification rejected is_unsupported no_change
        → run_status (determine_run_result mutation verification rejected is_unsupported no_change)
          ≡ some applied_pending_propagation
    report a = rw (a.supported, a.accepted, a.changes) (reported mutation verification a.confirmed)
