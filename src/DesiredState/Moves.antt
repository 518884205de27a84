-- ===== src/DesiredState/Moves.antt =====
-- The working sets under a sequence of permitted steps: what each action is to be checked against.
use google_workspace_gmail_a.Common.{
  ℕ, String, true, false, some, List, [], ◌∷◌, ok, ◌≡◌, All, Dict, lookup, contains, values,
  All-select, All-select_test, ◌=s=◌, IsDict, IsKeyed,
}
use google_workspace_gmail_a.Schemas.Resources.{ManagedAddressList, ManagedBlockedSenderRule}
use google_workspace_gmail_a.Ownership.{
  OwnershipRegistry, OwnershipRecord, ListEvidence, require_owned_rule, require_owned_address_list,
}
use google_workspace_gmail_a.DesiredState.WorkingSets.{Working, lists_named, only}
use google_workspace_gmail_a.DesiredState.Steps
use google_workspace_gmail_a.DesiredState.Steps.{values-lookup}

abbrev pub rule_id : ManagedBlockedSenderRule → ℕ
rule_id r = r.ownership_id

abbrev pub list_id : ManagedAddressList → ℕ
list_id l = l.ownership_id

-- A rule is created only under an injected identifier that no rule has.
abbrev pub IsNewRule : (ℕ → Type 0) → ℕ → Dict ManagedBlockedSenderRule → Type 0
IsNewRule Injected id d = (contains id d ≡ false) × Injected id

-- Both dictionaries are valid.
pub record IsWorking (w : Working) : Type 0 where
  pub rules_dict : IsDict w.rules
  pub rules_keyed : IsKeyed rule_id w.rules
  pub lists_dict : IsDict w.address_lists
  pub lists_keyed : IsKeyed list_id w.address_lists

module _ (g : OwnershipRegistry) (prefix : String) where
  -- Ownership is established: the check returns a record.
  abbrev pub IsOwnedRule : ManagedBlockedSenderRule → Type 0
  IsOwnedRule r = (e : OwnershipRecord) × (require_owned_rule r g prefix ≡ ok e)

  abbrev pub IsOwnedList : ManagedAddressList → Type 0
  IsOwnedList l = (e : ListEvidence) × (require_owned_address_list l g prefix ≡ ok e)

module _ (g : OwnershipRegistry) (prefix : String) (Injected : ℕ → Type 0) where
  abbrev pub RuleReach : Dict ManagedBlockedSenderRule → Dict ManagedBlockedSenderRule → Type 0
  RuleReach = Steps.Reach rule_id (IsOwnedRule g prefix) (IsNewRule Injected)

  -- A list is created only under an identifier that was injected.
  abbrev pub ListReach : Dict ManagedAddressList → Dict ManagedAddressList → Type 0
  ListReach = Steps.Reach list_id (IsOwnedList g prefix) (λ id d. Injected id)

  -- From `w` to `w'` by permitted steps only, with identifiers that were injected.
  pub record Moves (w w' : Working) : Type 0 where
    pub rules : RuleReach w.rules w'.rules
    pub lists : ListReach w.address_lists w'.address_lists
    pub identifiers : All Injected w.identifiers → All Injected w'.identifiers

  pub Moves-IsWorking : {w w' : Working} → Moves w w' → IsWorking w → IsWorking w'
  Moves-IsWorking m h =
      let r =
        Steps.Reach-IsValid rule_id (IsOwnedRule g prefix) (IsNewRule Injected) m.rules
          (record { dict = h.rules_dict; keyed = h.rules_keyed }) in
      let l =
        Steps.Reach-IsValid list_id (IsOwnedList g prefix) (λ id d. Injected id) m.lists
          (record { dict = h.lists_dict; keyed = h.lists_keyed }) in
      record {
        rules_dict = r.dict;
        rules_keyed = r.keyed;
        lists_dict = l.dict;
        lists_keyed = l.keyed;
      }

-- What holds of every item holds of the only one.
only-All : {A : Type 0} (P : A → Type 0) (xs : List A) (x : A) → only xs ≡ some x → All P xs → P x
only-All P [] x e h = cc
only-All P (y ∷ []) x e h = let same : y ≡ x = cc in rw same at (h.0)
only-All P (y ∷ z ∷ zs) x e h = cc

-- The list that is found by its name stands in the dictionary under its identity.
pub only-lists_named :
    (name : String) (lists : Dict ManagedAddressList) (l : ManagedAddressList)
    → IsDict lists
    → IsKeyed list_id lists
    → only (lists_named name lists) ≡ some l
    → (lookup l.ownership_id lists ≡ some l) × ((l.display_name =s= name) ≡ true)
only-lists_named name lists l d k e = (
  only-All (λ l. lookup l.ownership_id lists ≡ some l) _ l e
      (All-select _ (λ l. l.display_name =s= name) _ (values-lookup list_id lists d k)),
  only-All (λ l. (l.display_name =s= name) ≡ true) _ l e
      (All-select_test (λ l. l.display_name =s= name) (values lists)),
)
