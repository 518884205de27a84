-- ===== src/Schemas/State.antt =====
-- schemas/state.py and the blocked-sender part of schemas/changes.py: an observed or desired state
-- of one organizational unit, and the exact changes between two of them.
use google_workspace_gmail_a.Common.{
  repeats_by, ℕ, String, Bool, not, List, [], ◌∷◌, map, ◌==◌, Result, ok, value_error, raise_if,
  ◌>>◌, any, is_empty,
}
use google_workspace_gmail_a.Schemas.Resources.{ManagedAddressList, ManagedBlockedSenderRule}

-- `schema_version` has one admissible value, so the records leave it out.
pub record BlockedSenderState : Type 0 where
  pub target_ou : String
  pub rules : List ManagedBlockedSenderRule
  pub address_lists : List ManagedAddressList
  pub unmanaged_rule_names : List String

-- `len(ids) != len(set(ids))`, on ownership IDs
abbrev pub has_duplicate_ids : List ℕ → Bool
has_duplicate_ids = repeats_by ◌==◌

-- `reject_duplicate_owned_resources`
unfoldable pub validate_state : BlockedSenderState → Result BlockedSenderState
validate_state s = do
  raise_if (has_duplicate_ids (map (λ r. r.ownership_id) s.rules)) value_error
  raise_if (has_duplicate_ids (map (λ l. l.ownership_id) s.address_lists)) value_error
  ok s

pub record ChangeSet : Type 0 where
  pub before_state : BlockedSenderState
  pub expected_after : BlockedSenderState
  pub rules_to_create : List ManagedBlockedSenderRule
  pub rules_to_update : List ManagedBlockedSenderRule
  pub rules_to_remove : List ManagedBlockedSenderRule
  pub address_lists_to_create : List ManagedAddressList
  pub address_lists_to_update : List ManagedAddressList
  pub address_lists_to_remove : List ManagedAddressList

-- `ChangeSet.has_mutations`
unfoldable pub has_mutations : ChangeSet → Bool
has_mutations c =
    any (λ b. b)
      (not (is_empty c.rules_to_create)
        ∷ not (is_empty c.rules_to_update)
        ∷ not (is_empty c.rules_to_remove)
        ∷ not (is_empty c.address_lists_to_create)
        ∷ not (is_empty c.address_lists_to_update)
        ∷ not (is_empty c.address_lists_to_remove)
        ∷ [])

pub record DesiredStateResult : Type 0 where
  pub desired_state : BlockedSenderState
  pub notice_affected_entry_count : ℕ
