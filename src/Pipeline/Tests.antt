-- ===== src/Pipeline/Tests.antt =====
-- A run at concrete states: rule one is switched off, and a read afterwards shows it.
use google_workspace_gmail_a.Common.{false, [], ◌∷◌, ◌≡◌, ◌≢◌, refl, ok, some}
use google_workspace_gmail_a.Schemas.State.{BlockedSenderState, validate_state}
use google_workspace_gmail_a.Schemas.Equality.{
  ManagedBlockedSenderRule-discrete, String-discrete, ManagedAddressList-discrete,
}
use native.Mathlib.Decide.{ℕ_discrete}
use google_workspace_gmail_a.Diff.{calculate_change_set}
use google_workspace_gmail_a.Verification.{verify_state}
use google_workspace_gmail_a.Reporting.{partial}
use google_workspace_gmail_a.Reporting.Tests.{done}
use google_workspace_gmail_a.DesiredState.Tests.{
  rule_of, rule2, observed, switched_off, switch_off, registry, prefix, switch_off-runs,
}
use google_workspace_gmail_a.Pipeline.{IsWritten, IsConfirmedRun, written_change-IsConfirmedRun}

-- the order of the page, not that of the ids
abbrev reread : BlockedSenderState
reread = record observed { rules = rule2 ∷ rule_of 1 "[M] rule one" "[M] list one" [] false ∷ [] }

reread-valid : validate_state reread ≡ ok reread
unfolding validate_state
reread-valid = refl

reread-IsWritten : IsWritten (calculate_change_set observed switched_off.desired_state) reread
unfolding calculate_change_set ManagedBlockedSenderRule-discrete ℕ_discrete String-discrete
    ManagedAddressList-discrete
reread-IsWritten = record { rules = λ k. refl; lists = λ k. refl; unmanaged = refl }

not_partial : done.status ≢ partial
not_partial e = cc

written_change-IsConfirmedRun_example :
    IsConfirmedRun
      (verify_state
        (λ id. "id")
        (λ r. r.display_name)
        (λ l. l.display_name)
        (λ names. "names")
        switched_off.desired_state
        (some reread))
      done
      switched_off.desired_state
      reread
written_change-IsConfirmedRun_example =
    written_change-IsConfirmedRun (λ id. "id") (λ r. r.display_name) (λ l. l.display_name)
      (λ names. "names") observed switch_off registry [] prefix switched_off reread done
      switch_off-runs reread-valid reread-IsWritten not_partial
