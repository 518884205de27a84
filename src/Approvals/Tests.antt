-- ===== src/Approvals/Tests.antt =====
-- application/approval_service.py at a concrete preview: issued, then approved.
use google_workspace_gmail_a.Common.{
  ◌+◌, ◌≤◌, String, true, none, some, [], ◌∷◌, ◌≡◌, refl, ok, err, value_error, type_error, strip,
  drop, arith,
}
use google_workspace_gmail_a.Schemas.Operations.{DryRunResult, preview_ready}
use google_workspace_gmail_a.Diff.{calculate_change_set}
use google_workspace_gmail_a.Approvals.{
  Pending, PendingApproval, approve, issue, envelope, response_of,
}
use google_workspace_gmail_a.Approvals.Single.{IsGiven, approve-IsGiven}
use google_workspace_gmail_a.Approvals.Trace.{
  issued, approved, Reached, approvals_of, issues_of, held,
}
use google_workspace_gmail_a.Approvals.Once.{approvals_of_le}
use google_workspace_gmail_a.Approvals.Fresh.{approve-issue}
use google_workspace_gmail_a.Approvals.Backing.{IsBacked, approve-IsBacked}
use google_workspace_gmail_a.DesiredState.Tests.{observed, switch_off}

abbrev same : String → String
same s = s

abbrev preview : DryRunResult
preview = record {
  status = preview_ready;
  plan = switch_off;
  current_state = some observed;
  desired_state = some observed;
  change_set = some (calculate_change_set observed observed);
  impact = none;
  plan_hash = "p";
  before_state_hash = some "b";
  change_set_hash = some "c";
  reason_code = none;
}

abbrev pending_one : PendingApproval
pending_one = envelope same 10 "abcdef" preview 5 "b" "c"

abbrev waiting : Pending
waiting = ("abcdef", pending_one) ∷ []

issued_ok : issue same 10 [] "abcdef" preview 5 ≡ (waiting, ok pending_one)
unfolding issue
issued_ok = refl

approved_ok :
    approve waiting "abcdef" " APPLY abcd " true "approval-1" 14
    ≡ ([], ok (response_of pending_one "approval-1"))
unfolding approve strip
approved_ok = refl

expired : approve waiting "abcdef" "APPLY abcd" true "approval-1" 15 ≡ ([], err value_error)
unfolding approve strip
expired = refl

-- A phrase with a letter outside ASCII raises `TypeError`, and the envelope stays.
not_ascii : approve waiting "abcdef" "APPLY äbcd" true "approval-1" 14 ≡ (waiting, err type_error)
unfolding approve strip
not_ascii = refl

abbrev after_issue : Reached same 10 waiting (issued "abcdef" preview pending_one ∷ [])
after_issue = Reached.issue_returns "abcdef" preview 5 pending_one Reached.start issued_ok

abbrev after_approval : Reached same 10 [] (
    approved "abcdef" (response_of pending_one "approval-1")
    ∷ issued "abcdef" preview pending_one
    ∷ [])
after_approval =
    Reached.approve_returns "abcdef" " APPLY abcd " true "approval-1" 14
      (response_of pending_one "approval-1") after_issue approved_ok

approve-IsGiven_example :
    IsGiven waiting "abcdef" " APPLY abcd " true "approval-1" 14 []
      (response_of pending_one "approval-1")
approve-IsGiven_example =
    approve-IsGiven waiting "abcdef" " APPLY abcd " true "approval-1" 14 []
      (response_of pending_one "approval-1") approved_ok

approvals_of_le_example :
    approvals_of "abcdef" (
        approved "abcdef" (response_of pending_one "approval-1")
        ∷ issued "abcdef" preview pending_one
        ∷ [])
      + held "abcdef" []
    ≤ issues_of "abcdef" (
        approved "abcdef" (response_of pending_one "approval-1")
        ∷ issued "abcdef" preview pending_one
        ∷ [])
approvals_of_le_example =
    approvals_of_le same 10 "abcdef" []
      (approved "abcdef" (response_of pending_one "approval-1")
        ∷ issued "abcdef" preview pending_one
        ∷ [])
      after_approval

approve-IsBacked_example :
    IsBacked "abcdef"
      (response_of pending_one "approval-1")
      (issued "abcdef" preview pending_one ∷ [])
approve-IsBacked_example =
    approve-IsBacked same 10 waiting [] (issued "abcdef" preview pending_one ∷ []) "abcdef"
      " APPLY abcd " true "approval-1" 14 (response_of pending_one "approval-1") after_issue
      approved_ok

approve-issue_example :
    approve (issue same 10 [] "abcdef" preview 5).0 "abcdef" " APPLY abcd " true "approval-1" 14 ≡ (
      drop "abcdef" (issue same 10 [] "abcdef" preview 5).0,
      ok (record {
        approved = true;
        approval_id = "approval-1";
        plan_hash = "p";
        before_state_hash = "b";
        change_set_hash = "c";
      }),
    )
unfolding strip
approve-issue_example =
    approve-issue same 10 [] "abcdef" preview 5 "b" "c" (calculate_change_set observed observed)
      " APPLY abcd " "approval-1" 14
      (record { status = refl; state_hash = refl; change_hash = refl; change_set = refl })
      (omega arith) refl refl refl
