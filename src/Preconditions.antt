-- ===== src/Preconditions.antt =====
-- domain/preconditions.py: the root organizational unit, the hashes of a confirmation, and drift.
-- What pydantic dumps of a model is an argument, and so are NFC and SHA-256.
pub mod Bound
pub mod Tests
use google_workspace_gmail_a.Common.{
  String, Bool, not, ◌&&◌, ◌=s=◌, Result, ok, root_ou_not_confirmed, stale_confirmation, raise_if,
  ◌>>◌,
}
use google_workspace_gmail_a.Schemas.Plan.{TaskPlan}
use google_workspace_gmail_a.Schemas.State.{BlockedSenderState, ChangeSet}
use google_workspace_gmail_a.Approvals.{ConfirmationResponse}
use google_workspace_gmail_a.Hashing.{Json, canonical_hash}

-- `require_root_ou`
unfoldable pub require_root_ou : String → Result (Unit {0})
require_root_ou target_ou = raise_if (not (target_ou =s= "/")) root_ou_not_confirmed

module _ (nfc sha256 : String → String) (dump_plan : TaskPlan → Json)
    (dump_state : BlockedSenderState → Json) (dump_change_set : ChangeSet → Json) where
  -- `supplied == expected`
  abbrev pub is_expected : ConfirmationResponse → TaskPlan → BlockedSenderState → ChangeSet → Bool
  is_expected approval plan current_state change_set =
      (approval.plan_hash =s= canonical_hash nfc sha256 (dump_plan plan))
      && (approval.before_state_hash =s= canonical_hash nfc sha256 (dump_state current_state))
      && (approval.change_set_hash =s= canonical_hash nfc sha256 (dump_change_set change_set))

  -- `validate_confirmation`
  unfoldable pub validate_confirmation :
      ConfirmationResponse → TaskPlan → BlockedSenderState → ChangeSet → Result (Unit {0})
  unfolding require_root_ou
  validate_confirmation approval plan current_state change_set = do
    require_root_ou current_state.target_ou
    raise_if (not approval.approved) stale_confirmation
    raise_if (not (is_expected approval plan current_state change_set)) stale_confirmation

-- `state_has_drifted`
unfoldable pub state_has_drifted :
    (nfc sha256 : String → String)
    → (BlockedSenderState → Json)
    → String
    → BlockedSenderState
    → Bool
state_has_drifted nfc sha256 dump_state confirmed_state_hash observed_state =
    not (confirmed_state_hash =s= canonical_hash nfc sha256 (dump_state observed_state))
