-- ===== src/Schemas/Compliance.antt =====
-- schemas/compliance.py: content-compliance rules, their expressions and the observed state.
pub mod Build
pub mod Again
pub mod Rebuilt
pub mod Tests
use text.Mathlib.Text.{starts_with}
use google_workspace_gmail_a.Common.{
  ℕ, String, Bool, true, false, not, ◌&&◌, ◌||◌, Option, none, some, List, [], ◌∷◌, ◌++◌, map, leb,
  ◌==◌, if◌then◌else◌, Result, ok, value_error, raise_if, ◌>>=◌, ◌>>◌, has_duplicates, mem_text,
  is_empty, any, select, length, strip, is_blank, ◌=s=◌, split_on, ends_with,
}
use google_workspace_gmail_a.Schemas.Resources.{is_within, has_text}
use google_workspace_gmail_a.Schemas.State.{BlockedSenderState, has_duplicate_ids}

pub data MessageDirection : Type 0 where
  inbound outbound internal_sending internal_receiving : MessageDirection

pub data ExpressionCombiner : Type 0 where
  any_of all_of : ExpressionCombiner

pub data AdvancedContentLocation : Type 0 where
  headers_and_body full_headers body subject sender_header recipient_header :
      AdvancedContentLocation
  envelope_sender envelope_recipient raw_message : AdvancedContentLocation

pub data AdvancedMatchType : Type 0 where
  starts ends contains_value not_contains equals is_empty_value : AdvancedMatchType
  matches_regex not_matches_regex matches_any_word matches_all_words : AdvancedMatchType

pub data MetadataAttribute : Type 0 where
  message_authentication source_ip secure_transport smime_encryption : MetadataAttribute
  smime_signature message_size gmail_confidential_mode : MetadataAttribute
  security_sandbox_malware : MetadataAttribute

pub record OrganizationalUnitRef : Type 0 where
  pub path : String
  pub organization_id : Option String

-- `not path.startswith("/") or "//" in path or (path.endswith("/") and path != "/")`
abbrev pub is_malformed_path : String → Bool
is_malformed_path path =
    not (starts_with path "/") || has_text "//" path || (ends_with path "/" && not (path =s= "/"))

-- `any(part in {".", ".."} for part in path.split("/")[1:])`
abbrev pub has_traversal : String → Bool
has_traversal path = elim (split_on b'/' path) [
  | [] ↦ false
  | head ∷ parts ↦ any (λ part. part =s= "." || part =s= "..") parts
]

abbrev pub is_optional_within : ℕ → ℕ → Option String → Bool
is_optional_within lo hi none = true
is_optional_within lo hi (some s) = is_within lo hi s

-- `OrganizationalUnitRef.validate_path`, after the bounds on the fields
unfoldable pub validate_ou : OrganizationalUnitRef → Result OrganizationalUnitRef
validate_ou ou = do
  raise_if (not (is_within 1 1000 ou.path)) value_error
  raise_if (not (is_optional_within 1 256 ou.organization_id)) value_error
  let path = strip ou.path
  raise_if (is_malformed_path path) value_error
  raise_if (has_traversal path) value_error
  ok (record ou { path = path })

pub record AdvancedContentMatch : Type 0 where
  pub location : AdvancedContentLocation
  pub match_type : AdvancedMatchType
  pub value : Option String
  pub regex_description : Option String
  pub minimum_match_count : ℕ

pub record MetadataMatch : Type 0 where
  pub attribute : MetadataAttribute
  pub operator : String
  pub value : Option String

pub data Confidence : Type 0 where
  low medium high : Confidence

pub record PredefinedContentMatch : Type 0 where
  pub detector : String
  pub minimum_match_count : ℕ
  pub confidence : Option Confidence
  pub required_edition_capability : String

pub data ComplianceExpression : Type 0 where
  simple : (content : String) → ComplianceExpression
  advanced : AdvancedContentMatch → ComplianceExpression
  metadata : MetadataMatch → ComplianceExpression
  predefined : PredefinedContentMatch → ComplianceExpression

abbrev pub is_empty_operator : AdvancedMatchType → Bool
is_empty_operator is_empty_value = true
is_empty_operator _ = false

abbrev pub is_regex_operator : AdvancedMatchType → Bool
is_regex_operator matches_regex = true
is_regex_operator not_matches_regex = true
is_regex_operator _ = false

abbrev pub strip_value : Option String → Option String
strip_value none = none
strip_value (some s) = some (strip s)

-- `bool(value)` of an optional text
abbrev pub is_given : Option String → Bool
is_given none = false
is_given (some s) = not (is_blank s)

-- `Field(ge=1, le=10_000)`
abbrev pub is_count : ℕ → Bool
is_count n = leb 1 n && leb n 10000

-- `AdvancedContentMatch.validate_value_shape`, after the bounds on the fields
unfoldable pub validate_advanced : AdvancedContentMatch → Result AdvancedContentMatch
validate_advanced m = do
  raise_if
      (not (
        is_optional_within 0 10000 m.value
        && is_optional_within 0 1000 m.regex_description
        && is_count m.minimum_match_count))
      value_error
  let empty_operator = is_empty_operator m.match_type
  let value = strip_value m.value
  raise_if (empty_operator && is_given value) value_error
  raise_if (not empty_operator && not (is_given value)) value_error
  raise_if
      (not (is_regex_operator m.match_type)
        && (is_given m.regex_description || not (m.minimum_match_count == 1)))
      value_error
  ok (record m { value = value })

-- `_METADATA_OPERATORS`
unfoldable pub metadata_operators : MetadataAttribute → List String
metadata_operators message_authentication = "authenticated" ∷ "not_authenticated" ∷ []
metadata_operators source_ip = "within_range" ∷ "not_within_range" ∷ []
metadata_operators secure_transport = "tls" ∷ "not_tls" ∷ []
metadata_operators smime_encryption = "encrypted" ∷ "not_encrypted" ∷ []
metadata_operators smime_signature = "signed" ∷ "not_signed" ∷ []
metadata_operators message_size = "greater_than_mb" ∷ "less_than_mb" ∷ []
metadata_operators gmail_confidential_mode = "confidential" ∷ "not_confidential" ∷ []
metadata_operators security_sandbox_malware = "malware_detected" ∷ []

-- `_METADATA_VALUE_ATTRIBUTES`
abbrev pub needs_value : MetadataAttribute → Bool
needs_value source_ip = true
needs_value message_size = true
needs_value _ = false

abbrev pub differ : Bool → Bool → Bool
differ true b = not b
differ false b = b

-- `MetadataMatch.validate_operator`, after the bounds on the fields
unfoldable pub validate_metadata : MetadataMatch → Result MetadataMatch
validate_metadata m = do
  raise_if (not (is_within 1 100 m.operator && is_optional_within 0 1000 m.value)) value_error
  raise_if (not (mem_text m.operator (metadata_operators m.attribute))) value_error
  let value = strip_value m.value
  raise_if (differ (needs_value m.attribute) (is_given value)) value_error
  ok (record m { value = value })

pub data ConditionMode : Type 0 where
  bypass only_apply : ConditionMode

pub record AddressListCondition : Type 0 where
  pub mode : ConditionMode
  pub address_list_names : List String

-- `AddressListCondition.validate_lists`
unfoldable pub validate_condition : AddressListCondition → Result AddressListCondition
validate_condition c = do
  let normalized = select (λ name. not (is_blank name)) (map strip c.address_list_names)
  raise_if (is_empty normalized || has_duplicates normalized) value_error
  ok (record c { address_list_names = normalized })

pub data EnvelopeParty : Type 0 where
  sender recipient : EnvelopeParty

pub data EnvelopeSelector : Type 0 where
  single_address pattern_of group_membership : EnvelopeSelector

pub record EnvelopeFilter : Type 0 where
  pub party : EnvelopeParty
  pub selector : EnvelopeSelector
  pub value : String

pub record PersonaProfile : Type 0 where
  pub fictional_role : String
  pub traits : List String
  pub voice : String
  pub motif : String
  pub seed : ℕ
  pub age : Option ℕ
  pub occupation : String
  pub location : String
  pub goals : List String
  pub personality : String
  pub time_period : String
  pub current_mood : String
  pub alignment : String
  pub delivery_style : String

pub record GeneratedRejectionNotice : Type 0 where
  pub text : String
  pub policy_category : String
  pub policy_id : String
  pub persona : PersonaProfile
  pub used_fallback : Bool

-- A draft and a managed rule share these fields.
pub record ContentComplianceRuleDraft : Type 0 where
  pub target_ou : OrganizationalUnitRef
  pub directions : List MessageDirection
  pub combiner : ExpressionCombiner
  pub expressions : List ComplianceExpression
  pub rejection_notice : GeneratedRejectionNotice
  pub address_list_condition : Option AddressListCondition
  pub envelope_filters : List EnvelopeFilter
  pub enabled : Bool
  pub inherited : Bool

-- The subclass adds an identity.
pub record ManagedContentComplianceRule : Type 0 where
  pub draft : ContentComplianceRuleDraft
  pub ownership_id : ℕ
  pub display_name : String

abbrev pub direction_rank : MessageDirection → ℕ
direction_rank inbound = 0
direction_rank outbound = 1
direction_rank internal_sending = 2
direction_rank internal_receiving = 3

-- `ContentComplianceRuleDraft.validate_rule`: an inherited rule is always enabled
unfoldable pub validate_draft : ContentComplianceRuleDraft → Result ContentComplianceRuleDraft
validate_draft d = do
  raise_if (is_empty d.directions || has_duplicate_ids (map direction_rank d.directions))
      value_error
  raise_if (is_empty d.expressions || not (leb (length d.expressions) 10)) value_error
  ok (if d.inherited then record d { enabled = true } else d)

-- Building a managed rule: the bounds on its name, then the inherited validator.
unfoldable pub validate_managed : ManagedContentComplianceRule → Result ManagedContentComplianceRule
unfolding validate_draft
validate_managed r = do
  raise_if (not (is_within 1 200 r.display_name)) value_error
  draft ← validate_draft r.draft
  ok (record r { draft = draft })

pub record ContentComplianceState : Type 0 where
  pub rules : List ManagedContentComplianceRule
  pub unmanaged_rule_names : List String
  pub available_capabilities : List String

-- `ContentComplianceState.validate_unique_resources`
unfoldable pub validate_compliance_state : ContentComplianceState → Result ContentComplianceState
validate_compliance_state s = do
  raise_if
      (has_duplicate_ids (map (λ r. r.ownership_id) s.rules)
        || has_duplicates (map (λ r. r.display_name) s.rules ++ s.unmanaged_rule_names))
      value_error
  ok s

pub record GmailPolicyState : Type 0 where
  pub blocked_sender_states : List BlockedSenderState
  pub content_compliance : ContentComplianceState
