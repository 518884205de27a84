-- ===== src/Verification/Matches.antt =====
-- domain/verification.py: what a `matched` verification means.
use google_workspace_gmail_a.Common.{
  ℕ, String, Bool, true, false, Option, none, some, List, [], ◌∷◌, ◌++◌, ◌≡◌, subst, refl, ◌↔◌,
  Distinct, Result, ok, err, if◌then◌else◌, Bool-cases, inl, inr,
}
use google_workspace_gmail_a.Schemas.Resources.{ManagedAddressList, ManagedBlockedSenderRule}
use google_workspace_gmail_a.Schemas.State.{BlockedSenderState}
use google_workspace_gmail_a.Schemas.Equality.{
  ManagedAddressList-discrete, ManagedBlockedSenderRule-discrete,
}
use google_workspace_gmail_a.Diff.Changes.{IsSameContent}
use google_workspace_gmail_a.Verification.{
  VerificationResult, VerificationStatus, matched, target_missing, mismatched, StateDifference,
  verify_state, validate_status_evidence, compare_states, compare_named, resource_differences,
  rule_names, duplicate_names, state_differences, name_differences, same_texts, sorted_names,
  lacks_rule,
}
use google_workspace_gmail_a.Verification.Differences.{
  append_nil, duplicate_names_iff, same_texts_iff, resource_differences_nil,
  resource_differences_none,
}

-- What a verification is to establish: rule names that are not repeated, the desired rule and
-- list, or none, under every id, and the same unmanaged rule names in any order.
pub record IsVerified (desired observed : BlockedSenderState) : Type 0 where
  pub names : Distinct (rule_names observed)
  pub content : IsSameContent desired observed
  pub unmanaged :
      sorted_names desired.unmanaged_rule_names ≡ sorted_names observed.unmanaged_rule_names

abbrev pub status_of : Result VerificationResult → Option VerificationStatus
status_of (ok r) = some r.status
status_of (err e) = none

module _ (str_id : ℕ → String) (dump_rule : ManagedBlockedSenderRule → String)
    (dump_list : ManagedAddressList → String) (repr : List String → String) where
  name_differences_iff :
      (ss ts : List String)
      → (name_differences str_id dump_rule dump_list repr ss ts ≡ [])
        ↔ (sorted_names ss ≡ sorted_names ts)
  name_differences_iff ss ts = (to_equal, of_equal)
    where
      to_equal :
          name_differences str_id dump_rule dump_list repr ss ts ≡ []
          → sorted_names ss ≡ sorted_names ts
      to_equal h = elim (Bool-cases (same_texts (sorted_names ss) (sorted_names ts))) [
        | inl e ↦ (same_texts_iff (sorted_names ss) (sorted_names ts)).0 e
        | inr e ↦ let listed = rw e at h in cc
      ]

      of_equal :
          sorted_names ss ≡ sorted_names ts
          → name_differences str_id dump_rule dump_list repr ss ts ≡ []
      of_equal e = let same = (same_texts_iff (sorted_names ss) (sorted_names ts)).1 e in rw same

  state_differences_iff :
      (desired observed : BlockedSenderState)
      → (state_differences str_id dump_rule dump_list repr desired observed ≡ []) ↔ (
          IsSameContent desired observed
          × (sorted_names desired.unmanaged_rule_names
              ≡ sorted_names observed.unmanaged_rule_names))
  unfolding state_differences
  state_differences_iff desired observed = (to_same, of_same)
    where
      rule_part : List StateDifference
      rule_part =
          resource_differences str_id ManagedBlockedSenderRule-discrete (λ r. r.ownership_id)
            dump_rule "rules" desired.rules observed.rules

      list_part : List StateDifference
      list_part =
          resource_differences str_id ManagedAddressList-discrete (λ l. l.ownership_id) dump_list
            "address_lists" desired.address_lists observed.address_lists

      name_part : List StateDifference
      name_part =
          name_differences str_id dump_rule dump_list repr desired.unmanaged_rule_names
            observed.unmanaged_rule_names

      to_same :
          state_differences str_id dump_rule dump_list repr desired observed ≡ []
          → IsSameContent desired observed
            × (sorted_names desired.unmanaged_rule_names
                ≡ sorted_names observed.unmanaged_rule_names)
      to_same h =
          let (both, names) = append_nil (rule_part ++ list_part) name_part h in
          let (rules, lists) = append_nil rule_part list_part both in
          (
            record {
              rules =
                  resource_differences_nil str_id ManagedBlockedSenderRule-discrete
                    (λ r. r.ownership_id) dump_rule "rules" desired.rules observed.rules rules;
              lists =
                  resource_differences_nil str_id ManagedAddressList-discrete (λ l. l.ownership_id)
                    dump_list "address_lists" desired.address_lists observed.address_lists lists;
            },
            (name_differences_iff desired.unmanaged_rule_names observed.unmanaged_rule_names).0
                names,
          )

      of_same :
          IsSameContent desired observed
            × (sorted_names desired.unmanaged_rule_names
                ≡ sorted_names observed.unmanaged_rule_names)
          → state_differences str_id dump_rule dump_list repr desired observed ≡ []
      of_same (content, names) =
          let rules =
            resource_differences_none str_id ManagedBlockedSenderRule-discrete (λ r. r.ownership_id)
              dump_rule "rules" desired.rules observed.rules content.rules in
          let lists =
            resource_differences_none str_id ManagedAddressList-discrete (λ l. l.ownership_id)
              dump_list "address_lists" desired.address_lists observed.address_lists
              content.lists in
          let same =
            (name_differences_iff desired.unmanaged_rule_names observed.unmanaged_rule_names).1
              names in
          rw (rules, lists, same)

  -- A fresh read is reported as `matched` exactly when no rule name in it is repeated, it holds
  -- the desired rule and address list, or none, under every id, and its unmanaged rule names are
  -- the desired ones in some order.
  pub verify_state-matched_iff :
      (desired observed : BlockedSenderState)
      → (status_of (verify_state str_id dump_rule dump_list repr desired (some observed))
          ≡ some matched)
        ↔ IsVerified desired observed
  unfolding verify_state validate_status_evidence
  verify_state-matched_iff desired observed = (to_verified, of_verified)
    where
      no_names :
          (names : List String)
          → status_of (compare_named str_id dump_rule dump_list repr desired observed names)
            ≡ some matched
          → names ≡ []
      no_names [] h = refl
      no_names (name ∷ names) h = cc

      no_differences :
          (ds : List StateDifference)
          → status_of (compare_states desired observed ds) ≡ some matched
          → ds ≡ []
      no_differences [] h = refl
      no_differences (d ∷ ds) h = elim (Bool-cases (lacks_rule desired observed)) [
        | inl e ↦ let listed = rw e at h in cc
        | inr e ↦ let listed = rw e at h in cc
      ]

      to_verified :
          status_of (verify_state str_id dump_rule dump_list repr desired (some observed))
            ≡ some matched
          → IsVerified desired observed
      to_verified h =
          let none_named = no_names (duplicate_names (rule_names observed)) h in
          let same = (state_differences_iff desired observed).0 (
            no_differences (state_differences str_id dump_rule dump_list repr desired observed) (
              subst
                (λ names.
                  status_of (compare_named str_id dump_rule dump_list repr desired observed names)
                  ≡ some matched)
                none_named h)) in
          record {
            names = (duplicate_names_iff (rule_names observed)).0 none_named;
            content = same.0;
            unmanaged = same.1;
          }

      of_verified :
          IsVerified desired observed
          → status_of (verify_state str_id dump_rule dump_list repr desired (some observed))
            ≡ some matched
      of_verified v =
          let unnamed = (duplicate_names_iff (rule_names observed)).1 v.names in
          let same = (state_differences_iff desired observed).1 (v.content, v.unmanaged) in
          rw (unnamed, same)

  -- A verification always yields a result, about the two states it was given: the evidence that
  -- `VerificationResult` demands of each status is there.
  pub verify_state_total :
      (desired : BlockedSenderState) (observed : Option BlockedSenderState)
      → (r : VerificationResult) × (verify_state str_id dump_rule dump_list repr desired observed
          ≡ ok r)
        × (r.desired_state ≡ desired)
        × (r.observed_state ≡ observed)
  unfolding verify_state validate_status_evidence
  verify_state_total desired none = (_, refl, refl, refl)
  verify_state_total desired (some observed) = named (duplicate_names (rule_names observed))
    where
      settled_as :
          (lacking : Bool) (d : StateDifference) (ds : List StateDifference)
          → (r : VerificationResult) × (validate_status_evidence (record {
            status = if lacking then target_missing else mismatched;
            desired_state = desired;
            observed_state = some observed;
            differences = d ∷ ds;
          })
              ≡ ok r)
            × (r.desired_state ≡ desired)
            × (r.observed_state ≡ some observed)
      settled_as true d ds = (_, refl, refl, refl)
      settled_as false d ds = (_, refl, refl, refl)

      compared :
          (ds : List StateDifference)
          → (r : VerificationResult) × (compare_states desired observed ds ≡ ok r)
            × (r.desired_state ≡ desired)
            × (r.observed_state ≡ some observed)
      compared [] = (_, refl, refl, refl)
      compared (d ∷ ds) = settled_as (lacks_rule desired observed) d ds

      named :
          (names : List String)
          → (r : VerificationResult) × (compare_named str_id dump_rule dump_list repr desired
                observed names
              ≡ ok r)
            × (r.desired_state ≡ desired)
            × (r.observed_state ≡ some observed)
      named [] = compared (state_differences str_id dump_rule dump_list repr desired observed)
      named (name ∷ names) = (_, refl, refl, refl)
