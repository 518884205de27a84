-- ===== src/Preconditions/Tests.antt =====
-- domain/preconditions.py at a concrete confirmation, with a digest that is the text itself.
use google_workspace_gmail_a.Common.{String, true, ◌≡◌, ◌↔◌, refl, ok, err, stale_confirmation}
use google_workspace_gmail_a.Schemas.Plan.{TaskPlan}
use google_workspace_gmail_a.Schemas.State.{BlockedSenderState, ChangeSet}
use google_workspace_gmail_a.Diff.{calculate_change_set}
use google_workspace_gmail_a.Approvals.{ConfirmationResponse}
use google_workspace_gmail_a.Hashing.{
  Json, text, canonical_hash, canonical_json, canonicalize, dumps,
}
use google_workspace_gmail_a.Preconditions.{validate_confirmation, require_root_ou}
use google_workspace_gmail_a.Preconditions.Bound.{IsBound, validate_confirmation_iff}
use google_workspace_gmail_a.DesiredState.Tests.{observed, switch_off}

abbrev same : String → String
same s = s

abbrev dump_plan : TaskPlan → Json
dump_plan p = text "plan"

abbrev dump_state : BlockedSenderState → Json
dump_state s = text s.target_ou

abbrev dump_change_set : ChangeSet → Json
dump_change_set c = text "change"

abbrev approval : ConfirmationResponse
approval = record {
  approved = true;
  approval_id = "approval-1";
  plan_hash = "\"plan\"";
  before_state_hash = "\"/\"";
  change_set_hash = "\"change\"";
}

accepted :
    validate_confirmation same same dump_plan dump_state dump_change_set approval switch_off
      observed
      (calculate_change_set observed observed)
    ≡ ok tt
unfolding validate_confirmation require_root_ou canonical_hash canonical_json canonicalize dumps
accepted = refl

-- A state that has drifted is refused.
drifted :
    validate_confirmation same same dump_plan dump_state dump_change_set
      (record approval { before_state_hash = "b" })
      switch_off
      observed
      (calculate_change_set observed observed)
    ≡ err stale_confirmation
unfolding validate_confirmation require_root_ou canonical_hash canonical_json canonicalize dumps
drifted = refl

validate_confirmation_iff_example :
    (validate_confirmation same same dump_plan dump_state dump_change_set approval switch_off
        observed
        (calculate_change_set observed observed)
      ≡ ok tt)
    ↔ IsBound same same dump_plan dump_state dump_change_set approval switch_off observed
        (calculate_change_set observed observed)
validate_confirmation_iff_example =
    validate_confirmation_iff same same dump_plan dump_state dump_change_set approval switch_off
      observed (calculate_change_set observed observed)
