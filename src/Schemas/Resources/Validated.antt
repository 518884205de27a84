-- ===== src/Schemas/Resources/Validated.antt =====
-- What the validators of schemas/resources.py leave alone.
use google_workspace_gmail_a.Common.{ok, ◌≡◌, arith}
use google_workspace_gmail_a.Schemas.Resources.{
  ManagedAddressList, ManagedBlockedSenderRule, validate_address_list, validate_rule,
}

-- An address list that is accepted is stored as it was given.
pub validate_address_list-same :
    (l l' : ManagedAddressList) → validate_address_list l ≡ ok l' → l' ≡ l
unfolding validate_address_list
validate_address_list-same l l' h = ground arith

-- Validation strips the target OU and the notice of a rule, and nothing else.
pub validate_rule-same :
    (r r' : ManagedBlockedSenderRule)
    → validate_rule r ≡ ok r'
    → (r'.ownership_id ≡ r.ownership_id)
      × (r'.display_name ≡ r.display_name)
      × (r'.address_list_names ≡ r.address_list_names)
      × (r'.bypass_address_list_names ≡ r.bypass_address_list_names)
      × (r'.enabled ≡ r.enabled)
      × (r'.inherited ≡ r.inherited)
unfolding validate_rule
validate_rule-same r r' h = ground arith
