-- ===== src/Verification.antt =====
-- domain/verification.py, with `StateDifference` of schemas/changes.py and `VerificationResult` of
-- schemas/results.py: a desired state against one that was read afresh. How an id, a resource
-- and a list of names are written as text is an argument: it is `str`, pydantic and `repr`.
pub mod Names
pub mod Differences
pub mod Matches
pub mod Tests
use Prim.Native.String.{◌++◌ as concat}
use mathlib.Core.Option.{map as map_option}
use google_workspace_gmail_a.Common.{
  ℕ, String, Bool, true, false, not, ◌&&◌, ◌||◌, Option, none, some, List, [], ◌∷◌, ◌++◌, map,
  length, ltb, select, sort_by, leb_text, set_by, ◌=s=◌, is_empty, if◌then◌else◌, index_by, Result,
  ok, err, value_error, raise_if, ◌>>=◌, ◌>>◌, Dict, lookup, mem_by, ◌==◌, any,
}
use google_workspace_gmail_a.Comparison.{ids_only_in, ids_changed}
use google_workspace_gmail_a.Schemas.Resources.{ManagedAddressList, ManagedBlockedSenderRule}
use google_workspace_gmail_a.Schemas.State.{BlockedSenderState}
use google_workspace_gmail_a.Schemas.Compliance.{ContentComplianceState}
use google_workspace_gmail_a.Schemas.Equality.{
  ManagedAddressList-discrete, ManagedBlockedSenderRule-discrete,
}

pub data DifferenceKind : Type 0 where
  missing unexpected changed duplicate indeterminate : DifferenceKind

pub record StateDifference : Type 0 where
  pub path : String
  pub kind : DifferenceKind
  pub expected : Option String
  pub observed : Option String

-- `unreadable` is the status "indeterminate".
pub data VerificationStatus : Type 0 where
  matched mismatched target_missing duplicate_target unreadable : VerificationStatus

pub record VerificationResult : Type 0 where
  pub status : VerificationStatus
  pub desired_state : BlockedSenderState
  pub observed_state : Option BlockedSenderState
  pub differences : List StateDifference

abbrev is_none {ℓ} : {A : Type ℓ} → Option A → Bool
is_none none = true
is_none (some a) = false

-- `validate_status_evidence`
unfoldable pub validate_status_evidence : VerificationResult → Result VerificationResult
validate_status_evidence r = elim r.status [
  | matched ↦
      raise_if (is_none r.observed_state || not (is_empty r.differences)) value_error >> ok r
  | unreadable ↦
      raise_if (is_empty r.differences) value_error
      >> (raise_if (not (is_none r.observed_state)) value_error >> ok r)
  | _ ↦
      raise_if (is_empty r.differences) value_error
      >> (raise_if (is_none r.observed_state) value_error >> ok r)
]

-- `same`, `different` and `unknown` are the statuses "matched", "mismatched", "indeterminate".
pub data ComplianceVerificationStatus : Type 0 where
  same different unknown : ComplianceVerificationStatus

pub record ComplianceVerificationResult : Type 0 where
  pub status : ComplianceVerificationStatus
  pub desired_state : ContentComplianceState
  pub observed_state : Option ContentComplianceState
  pub differences : List StateDifference

-- `ComplianceVerificationResult.validate_status_evidence`
unfoldable pub validate_compliance_evidence :
    ComplianceVerificationResult → Result ComplianceVerificationResult
validate_compliance_evidence r = elim r.status [
  | same ↦ raise_if (is_none r.observed_state || not (is_empty r.differences)) value_error >> ok r
  | different ↦ raise_if (is_empty r.differences) value_error >> ok r
  | unknown ↦
      raise_if (is_empty r.differences) value_error
      >> (raise_if (not (is_none r.observed_state)) value_error >> ok r)
]

-- `names.count(name)`
abbrev pub count_name : String → List String → ℕ
count_name name names = length (select (λ other. other =s= name) names)

-- `_duplicate_rule_names`, on the names
abbrev pub duplicate_names : List String → List String
duplicate_names names =
    sort_by leb_text (set_by ◌=s=◌ (select (λ name. ltb 1 (count_name name names)) names))

abbrev pub rule_names : BlockedSenderState → List String
rule_names s = map (λ r. r.display_name) s.rules

-- `sorted(a) == sorted(b)` of lists of texts
abbrev pub same_texts : List String → List String → Bool
same_texts [] [] = true
same_texts [] (t ∷ ts) = false
same_texts (s ∷ ss) [] = false
same_texts (s ∷ ss) (t ∷ ts) = s =s= t && same_texts ss ts

abbrev pub sorted_names : List String → List String
sorted_names = sort_by leb_text

abbrev pub duplicate_of : String → StateDifference
duplicate_of name = record {
  path = "rules";
  kind = duplicate;
  expected = none;
  observed = some name;
}

abbrev pub no_state : StateDifference
no_state = record {
  path = "state";
  kind = indeterminate;
  expected = some "readable blocked-sender state";
  observed = none;
}

-- `desired_rule_ids - observed_rule_ids`, as a test
abbrev pub lacks_rule : BlockedSenderState → BlockedSenderState → Bool
lacks_rule desired observed =
    any (λ r. not (mem_by ◌==◌ r.ownership_id (map (λ o. o.ownership_id) observed.rules)))
      desired.rules

-- the result of two states that differ
abbrev pub compare_states :
    BlockedSenderState → BlockedSenderState → List StateDifference → Result VerificationResult
compare_states desired observed [] = validate_status_evidence (record {
  status = matched;
  desired_state = desired;
  observed_state = some observed;
  differences = [];
})
compare_states desired observed (d ∷ ds) = validate_status_evidence (record {
  status = if lacks_rule desired observed then target_missing else mismatched;
  desired_state = desired;
  observed_state = some observed;
  differences = d ∷ ds;
})

module _ (str_id : ℕ → String) where
  -- `f"{path}.{ownership_id}"`
  abbrev pub resource_path : String → ℕ → String
  resource_path path id = concat path (concat "." (str_id id))

  -- the `missing` items of `_resource_differences`
  abbrev pub missing_at : String → ℕ → StateDifference
  missing_at path id = record {
    path = resource_path path id;
    kind = missing;
    expected = some "present";
    observed = none;
  }

  -- the `unexpected` items
  abbrev pub unexpected_at : String → ℕ → StateDifference
  unexpected_at path id = record {
    path = resource_path path id;
    kind = unexpected;
    expected = none;
    observed = some "present";
  }

  -- the `changed` items
  abbrev pub changed_at {ℓ} :
      {R : Type ℓ} → (R → String) → String → Dict R → Dict R → ℕ → StateDifference
  changed_at dump path desired observed id = record {
    path = resource_path path id;
    kind = changed;
    expected = map_option dump (lookup id desired);
    observed = map_option dump (lookup id observed);
  }

  -- `_resource_differences`
  unfoldable pub resource_differences {ℓ} :
      {R : Type ℓ}
      → Discrete R
      → (R → ℕ)
      → (R → String)
      → String
      → List R
      → List R
      → List StateDifference
  resource_differences {R} equal identity dump path desired observed =
      let desired_by_id = index_by identity desired in
      let observed_by_id = index_by identity observed in
      map (missing_at path) (ids_only_in desired_by_id observed_by_id)
      ++ map (unexpected_at path) (ids_only_in observed_by_id desired_by_id)
      ++ map (changed_at dump path desired_by_id observed_by_id)
          (ids_changed equal desired_by_id observed_by_id)

  module _ (dump_rule : ManagedBlockedSenderRule → String) (dump_list : ManagedAddressList → String)
      (repr : List String → String) where
    abbrev pub name_differences : List String → List String → List StateDifference
    name_differences desired observed =
        if not (same_texts (sorted_names desired) (sorted_names observed))
        then record {
          path = "unmanaged_rule_names";
          kind = changed;
          expected = some (repr (sorted_names desired));
          observed = some (repr (sorted_names observed));
        }
          ∷ []
        else []

    -- `_state_differences`
    unfoldable pub state_differences :
        BlockedSenderState → BlockedSenderState → List StateDifference
    unfolding resource_differences
    state_differences desired observed =
        resource_differences ManagedBlockedSenderRule-discrete (λ r. r.ownership_id) dump_rule
          "rules" desired.rules observed.rules
        ++ resource_differences ManagedAddressList-discrete (λ l. l.ownership_id) dump_list
            "address_lists" desired.address_lists observed.address_lists
        ++ name_differences desired.unmanaged_rule_names observed.unmanaged_rule_names

    -- the result of a state whose repeated rule names are given
    abbrev pub compare_named :
        BlockedSenderState → BlockedSenderState → List String → Result VerificationResult
    compare_named desired observed [] =
        compare_states desired observed (state_differences desired observed)
    compare_named desired observed (name ∷ names) = validate_status_evidence (record {
      status = duplicate_target;
      desired_state = desired;
      observed_state = some observed;
      differences = map duplicate_of (name ∷ names);
    })

    -- `verify_state`
    unfoldable pub verify_state :
        BlockedSenderState → Option BlockedSenderState → Result VerificationResult
    unfolding validate_status_evidence state_differences
    verify_state desired none = validate_status_evidence (record {
      status = unreadable;
      desired_state = desired;
      observed_state = none;
      differences = no_state ∷ [];
    })
    verify_state desired (some observed) =
        compare_named desired observed (duplicate_names (rule_names observed))
