-- ===== src/Console/Journal/Snapshot.antt =====
-- console/journal.py, where it loads: `ConsoleRunSnapshot.model_validate` of a dumped run, with the
-- validators of schemas/operations.py, plan.py, compliance.py, state.py, resources.py and results.py
-- for the models within it. Every part of a dumped run was built before, so its texts are stripped
-- already and the run is read as it was dumped. Two tests are left out: that the normalized value of
-- an entry is the normalization of its value, and that a notice does not show its policy ID.
use google_workspace_gmail_a.Common.{
  Bool, true, false, ◌&&◌, Option, none, some, List, all, Result, ok, err,
}
use google_workspace_gmail_a.Schemas.Plan.{
  Action, add_entries, remove_entries, set_notice, create_rule, update_rule, remove_rule,
  set_enabled, list_rules, create_compliance, update_compliance, remove_compliance,
  set_compliance_enabled, list_compliance, TaskPlan, validate_plan, validate_add,
  validate_set_notice, validate_create, validate_update, validate_compliance_update,
}
use google_workspace_gmail_a.Schemas.Compliance.{
  ContentComplianceRuleDraft, GeneratedRejectionNotice, validate_ou, validate_draft,
  validate_managed,
}
use google_workspace_gmail_a.Schemas.Compliance.Build.{
  validate_all, validate_conditions, are_filters, is_persona, is_policy_id,
}
use google_workspace_gmail_a.Schemas.Resources.{
  AddressEntry, is_within, ManagedAddressList, ManagedBlockedSenderRule, validate_rule,
  validate_address_list,
}
use google_workspace_gmail_a.Schemas.State.{BlockedSenderState, ChangeSet, validate_state}
use google_workspace_gmail_a.Schemas.Operations.{DryRunResult, validate_dry_run, is_digest}
use google_workspace_gmail_a.Reporting.{validate_run}
use google_workspace_gmail_a.Console.Runs.{ConsoleRun, build_run}

-- no `ValidationError`
abbrev passes : {A : Type 0} → Result A → Bool
passes (ok a) = true
passes (err e) = false

abbrev holds : {A : Type 0} → (A → Bool) → Option A → Bool
holds test none = true
holds test (some a) = test a

-- the bounds on `AddressEntry.value`
abbrev pub are_valid_entries : List AddressEntry → Bool
are_valid_entries = all (λ e. is_within 1 254 e.value)

-- the bounds of `GeneratedRejectionNotice`
abbrev is_bounded_notice : GeneratedRejectionNotice → Bool
is_bounded_notice n =
    is_within 1 1000 n.text
    && is_within 1 120 n.policy_category
    && is_policy_id n.policy_id
    && is_persona n.persona

-- `ContentComplianceRuleDraft`, with its models
unfoldable pub is_valid_draft : ContentComplianceRuleDraft → Bool
unfolding validate_ou validate_all validate_conditions validate_draft
is_valid_draft d =
    passes (validate_ou d.target_ou)
    && passes (validate_all d.expressions)
    && is_bounded_notice d.rejection_notice
    && passes (validate_conditions d.address_list_condition)
    && are_filters d.envelope_filters
    && passes (validate_draft d)

-- one member of the union `Action`
unfoldable pub is_valid_action : Action → Bool
unfolding validate_add validate_set_notice validate_create validate_update is_valid_draft
    validate_compliance_update validate_managed
is_valid_action (add_entries a) = are_valid_entries a.entries && passes (validate_add a)
is_valid_action (remove_entries a) = are_valid_entries a.entries
is_valid_action (set_notice a) = passes (validate_set_notice a)
is_valid_action (create_rule a) =
    are_valid_entries a.entries && are_valid_entries a.bypass_entries && passes (validate_create a)
is_valid_action (update_rule a) =
    are_valid_entries a.entries && are_valid_entries a.bypass_entries && passes (validate_update a)
is_valid_action (remove_rule a) = true
is_valid_action (set_enabled a) = true
is_valid_action list_rules = true
is_valid_action (create_compliance a) = is_valid_draft a.rule
is_valid_action (update_compliance a) =
    is_valid_draft a.rule.draft
    && passes (validate_managed a.rule)
    && passes (validate_compliance_update a)
is_valid_action (remove_compliance a) = true
is_valid_action (set_compliance_enabled a) = true
is_valid_action list_compliance = true

-- `TaskPlan`, with its actions
unfoldable pub is_valid_plan : TaskPlan → Bool
unfolding is_valid_action validate_plan
is_valid_plan p = all is_valid_action p.actions && passes (validate_plan p)

-- the tuples of rules and of address lists of a state or a change set
unfoldable pub are_valid_rules : List ManagedBlockedSenderRule → Bool
unfolding validate_rule
are_valid_rules = all (λ r. passes (validate_rule r))

unfoldable pub are_valid_lists : List ManagedAddressList → Bool
unfolding validate_address_list
are_valid_lists = all (λ l. are_valid_entries l.entries && passes (validate_address_list l))

-- `BlockedSenderState`, with its resources
unfoldable pub is_valid_state : BlockedSenderState → Bool
unfolding validate_state are_valid_rules are_valid_lists
is_valid_state s =
    are_valid_rules s.rules && are_valid_lists s.address_lists && passes (validate_state s)

-- `ChangeSet`, with its states and resources
unfoldable pub is_valid_change_set : ChangeSet → Bool
unfolding is_valid_state are_valid_rules are_valid_lists
is_valid_change_set c =
    is_valid_state c.before_state
    && is_valid_state c.expected_after
    && are_valid_rules c.rules_to_create
    && are_valid_rules c.rules_to_update
    && are_valid_rules c.rules_to_remove
    && are_valid_lists c.address_lists_to_create
    && are_valid_lists c.address_lists_to_update
    && are_valid_lists c.address_lists_to_remove

-- `DryRunResult`, with its models and the pattern of its digests
unfoldable pub is_valid_preview : DryRunResult → Bool
unfolding is_valid_plan is_valid_state is_valid_change_set validate_dry_run
is_valid_preview r =
    is_valid_plan r.plan
    && holds is_valid_state r.current_state
    && holds is_valid_state r.desired_state
    && holds is_valid_change_set r.change_set
    && is_digest r.plan_hash
    && holds is_digest r.before_state_hash
    && holds is_digest r.change_set_hash
    && passes (validate_dry_run r)

-- `ConsoleRun`, with its models
unfoldable pub is_valid_snapshot : ConsoleRun → Bool
unfolding is_valid_plan is_valid_preview validate_run build_run
is_valid_snapshot run =
    holds is_valid_plan run.plan
    && holds is_valid_preview run.preview
    && holds (λ r. passes (validate_run r)) run.result
    && passes (build_run run)
