-- ===== src/Ownership.antt =====
-- domain/ownership.py: a managed resource may be changed only if the local record and the name
-- that is visible in the Admin console agree.
mod Names
unfoldable pub use Names.*
use google_workspace_gmail_a.Common.{
  ℕ, String, Bool, true, false, not, ◌&&◌, ◌||◌, Option, none, ◌++◌, some, List, map, ◌==◌,
  if◌then◌else◌, Result, ok, err, Error, ownership_not_established, value_error, raise_if, ◌>>=◌,
  ◌>>◌, first, ◌=s=◌,
}
use google_workspace_gmail_a.Schemas.Resources.{ManagedAddressList, ManagedBlockedSenderRule}
use google_workspace_gmail_a.Schemas.State.{has_duplicate_ids}
use google_workspace_gmail_a.Schemas.Compliance.{ManagedContentComplianceRule}

-- `created_at` is a number of seconds since the epoch; that it is timezone-aware is its type.
pub record OwnershipRecord : Type 0 where
  pub ownership_id : ℕ
  pub rule_display_name : String
  pub address_list_display_name : String
  pub target_ou : String
  pub created_at : ℕ
  pub rule_snapshot : Option ManagedBlockedSenderRule
  pub address_list_snapshot : Option ManagedAddressList

pub data Purpose : Type 0 where
  bypass condition : Purpose

pub record AddressListOwnershipRecord : Type 0 where
  pub ownership_id : ℕ
  pub display_name : String
  pub target_ou : String
  pub purpose : Purpose
  pub created_at : ℕ
  pub address_list_snapshot : Option ManagedAddressList

pub record ComplianceOwnershipRecord : Type 0 where
  pub ownership_id : ℕ
  pub display_name : String
  pub target_ou : String
  pub created_at : ℕ
  pub rule_snapshot : Option ManagedContentComplianceRule

pub record OwnershipRegistry : Type 0 where
  pub resources : List OwnershipRecord
  pub address_lists : List AddressListOwnershipRecord
  pub compliance_rules : List ComplianceOwnershipRecord

-- `reject_duplicate_ownership_ids`
unfoldable pub validate_registry : OwnershipRegistry → Result OwnershipRegistry
validate_registry g = do
  let ids = map (λ r. r.ownership_id) g.resources
  let list_ids = map (λ r. r.ownership_id) g.address_lists
  let rule_ids = map (λ r. r.ownership_id) g.compliance_rules
  raise_if (has_duplicate_ids (ids ++ list_ids ++ rule_ids)) value_error
  ok g

-- `OwnershipRegistry.find`
unfoldable pub find : ℕ → OwnershipRegistry → Option OwnershipRecord
find id g = first (λ r. r.ownership_id == id) g.resources

-- The two kinds of evidence for an address list.
pub data ListEvidence : Type 0 where
  paired : OwnershipRecord → ListEvidence
  independent : AddressListOwnershipRecord → ListEvidence

abbrev independent_of : Option AddressListOwnershipRecord → Option ListEvidence
independent_of none = none
independent_of (some r) = some (independent r)

abbrev paired_or : Option OwnershipRecord → Option ListEvidence → Option ListEvidence
paired_or (some r) other = some (paired r)
paired_or none other = other

-- `OwnershipRegistry.find_address_list`
unfoldable pub find_address_list : ℕ → OwnershipRegistry → Option ListEvidence
unfolding find
find_address_list id g =
    paired_or (find id g) (independent_of (first (λ r. r.ownership_id == id) g.address_lists))

-- `OwnershipRegistry.find_compliance`
unfoldable pub find_compliance : ℕ → OwnershipRegistry → Option ComplianceOwnershipRecord
find_compliance id g = first (λ r. r.ownership_id == id) g.compliance_rules

abbrev is_rule_evidence : String → ManagedBlockedSenderRule → OwnershipRecord → Bool
is_rule_evidence prefix rule r =
    is_visible prefix rule.display_name
    && r.rule_display_name =s= rule.display_name
    && r.target_ou =s= rule.target_ou

-- `require_owned_rule`
unfoldable pub require_owned_rule :
    ManagedBlockedSenderRule → OwnershipRegistry → String → Result OwnershipRecord
unfolding find is_visible
require_owned_rule rule g prefix = elim (find rule.ownership_id g) [
  | none ↦ err ownership_not_established
  | some r ↦ if is_rule_evidence prefix rule r then ok r else err ownership_not_established
]

abbrev recorded_name : ListEvidence → String
recorded_name (paired r) = r.address_list_display_name
recorded_name (independent r) = r.display_name

-- `require_owned_address_list`
unfoldable pub require_owned_address_list :
    ManagedAddressList → OwnershipRegistry → String → Result ListEvidence
unfolding find_address_list is_visible
require_owned_address_list l g prefix = elim (find_address_list l.ownership_id g) [
  | none ↦ err ownership_not_established
  | some r ↦
      if is_visible prefix l.display_name && recorded_name r =s= l.display_name
      then ok r
      else err ownership_not_established
]

-- `require_owned_compliance_rule`
unfoldable pub require_owned_compliance_rule :
    ManagedContentComplianceRule → OwnershipRegistry → String → Result ComplianceOwnershipRecord
unfolding find_compliance is_visible
require_owned_compliance_rule rule g prefix = elim (find_compliance rule.ownership_id g) [
  | none ↦ err ownership_not_established
  | some r ↦
      if is_visible prefix rule.display_name
        && r.display_name =s= rule.display_name
        && r.target_ou =s= rule.draft.target_ou.path
      then ok r
      else err ownership_not_established
]
