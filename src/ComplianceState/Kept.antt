-- ===== src/ComplianceState/Kept.antt =====
-- domain/compliance_desired_state.py: the rules that an action may not change.
use google_workspace_gmail_a.Common.{
  ℕ, String, true, false, some, ◌≡◌, ◌≢◌, sym, ap, ◌∙◌, lookup, insert, erase, IsDict, IsKeyed,
  lookup-insert_ne, lookup-erase_ne, insert-IsDict, erase-IsDict, insert-IsKeyed, erase-IsKeyed,
  lookup-IsKeyed, ok, err, Error,
}
use google_workspace_gmail_a.Schemas.Compliance.{ManagedContentComplianceRule}
use google_workspace_gmail_a.Schemas.Plan.{Action, update_compliance, validate_compliance_update}
use google_workspace_gmail_a.Ownership.{
  OwnershipRegistry, ComplianceOwnershipRecord, require_owned_compliance_rule,
}
use google_workspace_gmail_a.ComplianceState.{Rules}

abbrev pub id_of : ManagedContentComplianceRule → ℕ
id_of r = r.ownership_id

-- The validator of an update has accepted it; the other actions have no such validator.
abbrev pub IsIdentified : Action → Type 0
IsIdentified (update_compliance a) = validate_compliance_update a ≡ ok a
IsIdentified _ = Unit

-- The rules are keyed by their IDs, and the rule stands among them.
pub record Holds (r : ManagedContentComplianceRule) (rules : Rules) : Type 0 where
  pub dict : IsDict rules
  pub keyed : IsKeyed id_of rules
  pub held : lookup r.ownership_id rules ≡ some r

module _ (registry : OwnershipRegistry) (prefix : String) (r : ManagedContentComplianceRule) where
  -- Ownership is not established, or the rule is inherited.
  pub data IsProtected : Type 0 where
    unowned : (e : Error) → require_owned_compliance_rule r registry prefix ≡ err e → IsProtected
    inherited_rule : r.draft.inherited ≡ true → IsProtected

  -- What the branches test of the rule that they change.
  pub record IsChangeable (current : ManagedContentComplianceRule) : Type 0 where
    pub evidence : ComplianceOwnershipRecord
    pub owned : require_owned_compliance_rule current registry prefix ≡ ok evidence
    pub own : current.draft.inherited ≡ false

  not_protected :
      IsProtected → (current : ManagedContentComplianceRule) → IsChangeable current → current ≢ r
  not_protected (unowned e p) current c same =
      let clash =
        sym p ∙ ap (λ x. require_owned_compliance_rule x registry prefix) (sym same) ∙ c.owned in
      cc
  not_protected (inherited_rule p) current c same =
      let clash = sym p ∙ ap (λ x. x.draft.inherited) (sym same) ∙ c.own in cc

  -- A rule that is changed has another ID.
  pub other_id :
      IsProtected
      → (rules : Rules) (target : ℕ) (current : ManagedContentComplianceRule) → Holds r rules
      → lookup target rules ≡ some current
      → IsChangeable current
      → r.ownership_id ≢ current.ownership_id
  other_id p rules target current h at c same =
      let key = lookup-IsKeyed id_of target current rules h.keyed at in
      let found = sym at ∙ ap (λ i. lookup i rules) (sym key ∙ sym same) ∙ h.held in
      not_protected p current c (some-injective found)
    where
      some-injective : {x y : ManagedContentComplianceRule} → some x ≡ some y → x ≡ y
      some-injective e = cc

  pub Holds-insert :
      (rules : Rules) (id : ℕ) (new : ManagedContentComplianceRule)
      → new.ownership_id ≡ id
      → r.ownership_id ≢ id
      → Holds r rules
      → Holds r (insert id new rules)
  Holds-insert rules id new e ne h = record {
    dict = insert-IsDict id new rules h.dict;
    keyed = insert-IsKeyed id_of id new rules e h.keyed;
    held = lookup-insert_ne r.ownership_id id new rules ne ∙ h.held;
  }

  pub Holds-erase :
      (rules : Rules) (id : ℕ) → r.ownership_id ≢ id → Holds r rules → Holds r (erase id rules)
  Holds-erase rules id ne h = record {
    dict = erase-IsDict id rules h.dict;
    keyed = erase-IsKeyed id_of id rules h.keyed;
    held = lookup-erase_ne r.ownership_id id rules ne ∙ h.held;
  }
