-- ===== src/Verification/Tests.antt =====
-- domain/verification.py at concrete states, with fixed texts for ids and resources.
use google_workspace_gmail_a.Common.{some, none, [], ◌∷◌, ◌≡◌, ◌↔◌, refl, ok}
use google_workspace_gmail_a.Schemas.State.{BlockedSenderState}
use google_workspace_gmail_a.Verification.{
  VerificationResult, matched, verify_state, duplicate_names,
}
use google_workspace_gmail_a.Verification.Matches.{
  IsVerified, status_of, verify_state-matched_iff, verify_state_total,
}
use google_workspace_gmail_a.DesiredState.Tests.{rule1, rule2, observed}

repeated : duplicate_names ("b" ∷ "a" ∷ "b" ∷ "a" ∷ "b" ∷ "c" ∷ []) ≡ "a" ∷ "b" ∷ []
repeated = refl

abbrev reread : BlockedSenderState
reread = record observed { rules = rule1 ∷ rule2 ∷ [] }

verify_state-matched_iff_example :
    (status_of (
        verify_state
          (λ id. "id")
          (λ r. r.display_name)
          (λ l. l.display_name)
          (λ names. "names")
          observed
          (some reread))
      ≡ some matched)
    ↔ IsVerified observed reread
verify_state-matched_iff_example =
    verify_state-matched_iff (λ id. "id") (λ r. r.display_name) (λ l. l.display_name)
      (λ names. "names") observed reread

verify_state_total_example :
    (r : VerificationResult) × (verify_state
        (λ id. "id")
        (λ r. r.display_name)
        (λ l. l.display_name)
        (λ names. "names")
        observed
        none
      ≡ ok r)
    × (r.desired_state ≡ observed)
    × (r.observed_state ≡ none)
verify_state_total_example =
    verify_state_total (λ id. "id") (λ r. r.display_name) (λ l. l.display_name) (λ names. "names")
      observed none
