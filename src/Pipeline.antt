-- ===== src/Pipeline.antt =====
-- From a plan to the report of a run: domain/desired_state.py, domain/diff.py,
-- domain/verification.py and domain/reporting.py, as a run composes them.
mod Names
pub mod Tests
use mathlib.Core.List.{Memᴰ}
use google_workspace_gmail_a.Common.{
  ℕ, String, false, some, List, map, ◌≡◌, ◌≢◌, refl, sym, ap, ◌∙◌, lookup, index_by, Result, ok,
  >>-eq-ok, raise_if, raise_if-eq-ok, value_error, DistinctBy, Distinct, ◌==◌, repeats_by_iff,
  sort_by, sort_by-IsSorted, sort_by-eq_self, leb_text, leb_text_total, leb_text_trans,
  lookup-index_by, index_by-Memᴰ,
}
use google_workspace_gmail_a.Schemas.Resources.{ManagedAddressList, ManagedBlockedSenderRule}
use google_workspace_gmail_a.Schemas.State.{
  BlockedSenderState, ChangeSet, DesiredStateResult, validate_state, has_duplicate_ids,
  has_mutations,
}
use google_workspace_gmail_a.Schemas.Plan.{TaskPlan}
use google_workspace_gmail_a.Schemas.Equality.{
  ManagedAddressList-discrete, ManagedBlockedSenderRule-discrete,
}
use google_workspace_gmail_a.Ownership.{OwnershipRegistry}
use google_workspace_gmail_a.DesiredState.Calculate.{calculate_desired_state}
use google_workspace_gmail_a.DesiredState.Moves.{rule_id, list_id}
use google_workspace_gmail_a.DesiredState.WellFormed.{
  IsWellFormed, rule_name, calculate_desired_state-IsWellFormed,
}
use google_workspace_gmail_a.Diff.{Partition, calculate_change_set}
use google_workspace_gmail_a.Diff.Patch.{patch}
use google_workspace_gmail_a.Diff.Exact.{patch-partition}
use google_workspace_gmail_a.Diff.Changes.{IsSameContent, has_mutations-calculate_change_set}
use google_workspace_gmail_a.Verification.{
  VerificationResult, VerificationStatus, matched, verify_state, sorted_names,
}
use google_workspace_gmail_a.Verification.Matches.{
  IsVerified, status_of, verify_state-matched_iff, verify_state_total,
}
use google_workspace_gmail_a.Reporting.{
  MutationResult, partial, applied_pending_propagation, determine_run_result,
}
use google_workspace_gmail_a.Reporting.Confirmed.{
  run_status, IsApplied, confirmed, determine_run_result-IsApplied_iff,
}
use google_workspace_gmail_a.Pipeline.Names.{item_of_name, Distinct-of_ids}

abbrev rules_of : ChangeSet → Partition ManagedBlockedSenderRule
rules_of c = record {
  created = c.rules_to_create;
  updated = c.rules_to_update;
  removed = c.rules_to_remove;
}

abbrev lists_of : ChangeSet → Partition ManagedAddressList
lists_of c = record {
  created = c.address_lists_to_create;
  updated = c.address_lists_to_update;
  removed = c.address_lists_to_remove;
}

-- A fresh read after exactly the writes of a change set: under every id the rule and the list that
-- the writes leave, and the unmanaged rules as they were.
pub record IsWritten (c : ChangeSet) (observed : BlockedSenderState) : Type 0 where
  pub rules :
      (k : ℕ)
      → lookup k (index_by rule_id observed.rules)
        ≡ lookup k (patch rule_id (rules_of c) (index_by rule_id c.before_state.rules))
  pub lists :
      (k : ℕ)
      → lookup k (index_by list_id observed.address_lists)
        ≡ lookup k (patch list_id (lists_of c) (index_by list_id c.before_state.address_lists))
  pub unmanaged :
      sorted_names observed.unmanaged_rule_names ≡ sorted_names c.before_state.unmanaged_rule_names

-- What was written is what was desired.
IsWritten-IsSameContent :
    (current desired observed : BlockedSenderState)
    → IsWritten (calculate_change_set current desired) observed
    → IsSameContent observed desired
unfolding calculate_change_set
IsWritten-IsSameContent current desired observed w = record {
  rules = λ k.
      w.rules k
      ∙ patch-partition ManagedBlockedSenderRule-discrete rule_id current.rules desired.rules k;
  lists = λ k.
      w.lists k
      ∙ patch-partition ManagedAddressList-discrete list_id current.address_lists
          desired.address_lists k;
}

rule_ids :
    (s : BlockedSenderState) → validate_state s ≡ ok s → DistinctBy ◌==◌ (map rule_id s.rules)
unfolding validate_state
rule_ids s h = (repeats_by_iff ◌==◌ (map rule_id s.rules)).0 (
    raise_if-eq-ok (has_duplicate_ids (map rule_id s.rules)) value_error
      (>>-eq-ok (raise_if (has_duplicate_ids (map rule_id s.rules)) value_error) _ h).1)

-- The rules of a valid state that agree with those of a well-formed one have distinct names.
names_of_desired :
    (current desired observed : BlockedSenderState)
    → IsWellFormed current desired
    → validate_state observed ≡ ok observed
    → IsSameContent observed desired
    → Distinct (map rule_name observed.rules)
names_of_desired current desired observed f valid same =
    Distinct-of_ids rule_id rule_name observed.rules (rule_ids observed valid) (λ x y m n e.
      ap rule_id (
        item_of_name rule_name current.unmanaged_rule_names x y desired.rules f.rule_names
          (shared x m) (shared y n) e))
  where
    shared : (x : ManagedBlockedSenderRule) → Memᴰ x observed.rules → Memᴰ x desired.rules
    shared x m = index_by-Memᴰ rule_id (rule_id x) x desired.rules (
        sym (same.rules (rule_id x))
        ∙ lookup-index_by rule_id x observed.rules (rule_ids observed valid) m)

IsWritten-IsVerified :
    (current desired observed : BlockedSenderState)
    → IsWellFormed current desired
    → validate_state observed ≡ ok observed
    → IsWritten (calculate_change_set current desired) observed
    → IsVerified desired observed
unfolding calculate_change_set
IsWritten-IsVerified current desired observed f valid w =
    let same = IsWritten-IsSameContent current desired observed w in
    record {
      names = names_of_desired current desired observed f valid same;
      content = record { rules = λ k. sym (same.rules k); lists = λ k. sym (same.lists k) };
      unmanaged =
          ap sorted_names f.unmanaged
          ∙ sort_by-eq_self leb_text (sorted_names current.unmanaged_rule_names)
              (sort_by-IsSorted leb_text leb_text_total leb_text_trans current.unmanaged_rule_names)
          ∙ sym w.unmanaged;
    }

-- What a run that wrote its change set ends with.
pub record IsConfirmedRun (result : Result VerificationResult) (m : MutationResult)
    (desired observed : BlockedSenderState) : Type 0 where
  pub verification : VerificationResult
  pub verified : result ≡ ok verification
  pub applied :
      run_status (determine_run_result (some m) (some verification) false false false)
      ≡ some applied_pending_propagation
  pub settled : has_mutations (calculate_change_set observed desired) ≡ false

module _ (str_id : ℕ → String) (dump_rule : ManagedBlockedSenderRule → String)
    (dump_list : ManagedAddressList → String) (repr : List String → String) where
  -- If the desired state of a plan was calculated, and a valid fresh read shows exactly what the
  -- writes of the change set leave, with the unmanaged rule names as they were, then the
  -- verification yields a result, the run is reported as applied unless its mutation is known to
  -- be partial, and the change set from the read state to the desired one has no mutation.
  pub written_change-IsConfirmedRun :
      (current : BlockedSenderState) (plan : TaskPlan) (registry : OwnershipRegistry)
      (identifiers : List ℕ) (prefix : String) (d : DesiredStateResult)
      (observed : BlockedSenderState) (m : MutationResult)
      → calculate_desired_state current plan registry identifiers prefix ≡ ok d
      → validate_state observed ≡ ok observed
      → IsWritten (calculate_change_set current d.desired_state) observed
      → m.status ≢ partial
      → IsConfirmedRun
          (verify_state str_id dump_rule dump_list repr d.desired_state (some observed))
          m
          d.desired_state
          observed
  written_change-IsConfirmedRun current plan registry identifiers prefix d observed m h valid w
        whole =
      let desired = d.desired_state in
      let f = calculate_desired_state-IsWellFormed current plan registry identifiers prefix d h in
      let (v, returned, about_desired, about_observed) =
        verify_state_total str_id dump_rule dump_list repr desired (some observed) in
      let reported : some v.status ≡ some matched =
        sym (ap status_of returned)
        ∙ (verify_state-matched_iff str_id dump_rule dump_list repr desired observed).1
            (IsWritten-IsVerified current desired observed f valid w) in
      record {
        verification = v;
        verified = returned;
        applied =
            (determine_run_result-IsApplied_iff (some m) (some v) false false false).1 (record {
              supported = refl;
              accepted = refl;
              changes = refl;
              confirmed = confirmed m v whole (some_status reported);
            });
        settled =
            (has_mutations-calculate_change_set observed desired).1
              (IsWritten-IsSameContent current desired observed w);
      }
    where
      some_status : {a b : VerificationStatus} → some a ≡ some b → a ≡ b
      some_status e = cc
