-- ===== src/Reconciliation.antt =====
-- domain/reconciliation.py, with `ReconciliationDecision` of schemas/results.py: what is known after
-- a mutation whose response was lost, and whether it may be tried again.
pub mod Retry
pub mod Tests
use Prim.Native.String.{◌++◌ as concat}
use google_workspace_gmail_a.Common.{
  ℕ, String, Bool, true, false, not, ◌&&◌, ◌==◌, Option, none, some, List, [], ◌∷◌, ◌++◌, map, any,
  ◌=s=◌, same_notice, TextDict, find, put, Result, ok, value_error, raise_if, ◌>>=◌, ◌>>◌,
  if◌then◌else◌,
}
use google_workspace_gmail_a.Schemas.Resources.{ManagedAddressList, ManagedBlockedSenderRule}
use google_workspace_gmail_a.Schemas.State.{BlockedSenderState}
use google_workspace_gmail_a.Schemas.Operations.{is_none}
use google_workspace_gmail_a.Hashing.{Json, canonical_hash}
use google_workspace_gmail_a.Verification.{
  VerificationResult, VerificationStatus, matched, verify_state,
}

-- `undecided` is the outcome "indeterminate".
pub data ReconciliationOutcome : Type 0 where
  desired_state_present mutation_not_applied partially_present undecided : ReconciliationOutcome

pub record ReconciliationDecision : Type 0 where
  pub outcome : ReconciliationOutcome
  pub retry_is_safe : Bool
  pub observed_state : Option BlockedSenderState
  pub explanation_code : String

abbrev pub is_not_applied : ReconciliationOutcome → Bool
is_not_applied mutation_not_applied = true
is_not_applied outcome = false

abbrev pub is_undecided : ReconciliationOutcome → Bool
is_undecided undecided = true
is_undecided outcome = false

-- `validate_retry_evidence`
unfoldable pub validate_decision : ReconciliationDecision → Result ReconciliationDecision
validate_decision d = do
  raise_if (d.retry_is_safe && not (is_not_applied d.outcome)) value_error
  raise_if (is_none d.observed_state && not (is_undecided d.outcome)) value_error
  ok d

pub record ReconciliationContext : Type 0 where
  pub retry_count : ℕ
  pub operation_is_idempotent : Bool
  pub ownership_confirmed : Bool
  pub root_ou_confirmed : Bool
  pub confirmation_valid : Bool

-- `_retry_preconditions_hold`
abbrev pub retry_preconditions_hold : ReconciliationContext → Bool
retry_preconditions_hold c =
    c.retry_count == 0
    && c.operation_is_idempotent
    && c.ownership_confirmed
    && c.root_ou_confirmed
    && c.confirmation_valid

-- `ReconciliationDecision(...)`
abbrev pub decide :
    ReconciliationOutcome
    → Bool
    → Option BlockedSenderState
    → String
    → Result ReconciliationDecision
decide outcome retry_is_safe observed_state explanation_code = validate_decision (record {
  outcome = outcome;
  retry_is_safe = retry_is_safe;
  observed_state = observed_state;
  explanation_code = explanation_code;
})

abbrev pub is_matched : VerificationStatus → Bool
is_matched matched = true
is_matched status = false

module _ (str_id : ℕ → String) (dump_rule : ManagedBlockedSenderRule → String)
    (dump_list : ManagedAddressList → String) where
  -- the items of the rules, then those of the lists
  abbrev put_rules : List ManagedBlockedSenderRule → TextDict String → TextDict String
  put_rules [] resources = resources
  put_rules (r ∷ rules) resources =
      put_rules rules (put (concat "rule:" (str_id r.ownership_id)) (dump_rule r) resources)

  abbrev put_lists : List ManagedAddressList → TextDict String → TextDict String
  put_lists [] resources = resources
  put_lists (l ∷ lists) resources =
      put_lists lists (put (concat "list:" (str_id l.ownership_id)) (dump_list l) resources)

  -- `_resource_json`
  unfoldable pub resource_json : BlockedSenderState → TextDict String
  resource_json state = put_lists state.address_lists (put_rules state.rules [])

  -- `_has_any_desired_change`: some key whose values differ before has its desired value
  unfoldable pub has_any_desired_change :
      BlockedSenderState → BlockedSenderState → BlockedSenderState → Bool
  unfolding resource_json
  has_any_desired_change before desired observed =
      let before_resources = resource_json before in
      let desired_resources = resource_json desired in
      let observed_resources = resource_json observed in
      any
        (λ key.
          not (same_notice (find key before_resources) (find key desired_resources))
          && same_notice (find key observed_resources) (find key desired_resources))
        (map (λ e. e.0) (before_resources ++ desired_resources))

  module _ (repr : List String → String) (nfc sha256 : String → String)
      (dump_state : BlockedSenderState → Json) where
    -- the decision on a state that does not match
    unfoldable pub classify :
        BlockedSenderState
        → BlockedSenderState
        → BlockedSenderState
        → ReconciliationContext
        → Result ReconciliationDecision
    unfolding validate_decision has_any_desired_change
    classify before desired observed context =
        if canonical_hash nfc sha256 (dump_state before)
          =s= canonical_hash nfc sha256 (dump_state observed)
        then decide mutation_not_applied (retry_preconditions_hold context) (some observed)
            "before_state_unchanged"
        else if has_any_desired_change before desired observed
        then decide partially_present false (some observed)
            "some_but_not_all_desired_resources_present"
        else decide undecided false (some observed) "state_changed_outside_expected_mutation"

    -- the decision on a state that was read, by the status of its verification
    unfoldable pub settle :
        BlockedSenderState
        → BlockedSenderState
        → BlockedSenderState
        → ReconciliationContext
        → VerificationStatus
        → Result ReconciliationDecision
    unfolding validate_decision classify
    settle before desired observed context status =
        if is_matched status
        then decide desired_state_present false (some observed) "mutation_present_after_read_back"
        else classify before desired observed context

    -- `reconcile_mutation`
    unfoldable pub reconcile_mutation :
        BlockedSenderState
        → BlockedSenderState
        → Option BlockedSenderState
        → ReconciliationContext
        → Result ReconciliationDecision
    unfolding validate_decision settle
    reconcile_mutation before desired none context =
        decide undecided false none "read_back_unavailable"
    reconcile_mutation before desired (some observed) context =
        verify_state str_id dump_rule dump_list repr desired (some observed) >>= λ verification.
        settle before desired observed context verification.status
