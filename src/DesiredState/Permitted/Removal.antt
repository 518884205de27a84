-- ===== src/DesiredState/Permitted/Removal.antt =====
-- domain/desired_state.py: removing owned lists and rules as permitted steps.
use google_workspace_gmail_a.Common.{
  ℕ, String, true, Option, none, some, List, [], ◌∷◌, ◌≡◌, sym, ap, subst, ◌∙◌, arith, All, ok,
  ambiguous_target, raise_if, or_raise, >>=-eq-ok, >>-eq-ok, or_raise-eq-ok, ok-injective, Dict,
  lookup, contains, erase, values, IsDict, IsKeyed, Bool-cases, if_cases, inl, inr, ◌==◌,
  lookup-erase, lookup_of_contains, lookup-IsKeyed, All-map_imp,
}
use google_workspace_gmail_a.Schemas.Resources.{ManagedAddressList, ManagedBlockedSenderRule}
use google_workspace_gmail_a.Schemas.Plan.{RemoveBlockedSenderRule}
use google_workspace_gmail_a.Ownership.{
  OwnershipRegistry, require_owned_rule, require_owned_address_list,
}
use google_workspace_gmail_a.DesiredState.WorkingSets.{
  Working, require_rule, require_rule_list, delete, only, lists_named,
}
use google_workspace_gmail_a.DesiredState.Edit.{
  delete_lists, remove_bypass, remove_lists, apply_remove_rule, is_referenced, is_referenced_bypass,
}
use google_workspace_gmail_a.DesiredState.Steps
use google_workspace_gmail_a.DesiredState.Steps.{Step, create, edit, remove, here, next}
use google_workspace_gmail_a.DesiredState.Moves.{
  rule_id, list_id, IsWorking, IsOwnedRule, IsOwnedList, ListReach, Moves, IsNewRule,
  only-lists_named,
}
use google_workspace_gmail_a.DesiredState.Permitted.{
  require_rule-found, require_rule_list-IsRuleList,
}

-- `del` succeeds only on a key that is there.
pub delete-eq-ok :
    {V : Type 0} (k : ℕ) (d d' : Dict V)
    → delete k d ≡ ok d'
    → (contains k d ≡ true) × (d' ≡ erase k d)
unfolding delete
delete-eq-ok k d d' h = ground arith

same_list :
    (l v : ManagedAddressList) (d : Dict ManagedAddressList)
    → lookup l.ownership_id d ≡ some l
    → lookup l.ownership_id d ≡ some v
    → l ≡ v
same_list l v d p q = let r : some l ≡ some v = sym p ∙ q in cc

module _ (g : OwnershipRegistry) (prefix : String) where
  -- Whatever stands under the identity of `l` is owned.
  abbrev pub IsOwnedAt : Dict ManagedAddressList → ManagedAddressList → Type 0
  IsOwnedAt d l =
      (v : ManagedAddressList) → lookup l.ownership_id d ≡ some v → IsOwnedList g prefix v

  IsOwnedAt-erase :
      (k : ℕ) (d : Dict ManagedAddressList)
      → IsDict d
      → (l : ManagedAddressList) → IsOwnedAt d l
      → IsOwnedAt (erase k d) l
  IsOwnedAt-erase k d h l o v at = elim (Bool-cases (k == l.ownership_id)) [
    | inl e ↦ absurd (gone (rw (lookup-erase l.ownership_id k d h, e) at at))
    | inr e ↦ o v (rw (lookup-erase l.ownership_id k d h, e) at at)
  ]
    where
      gone : ◌≡◌ {A = Option ManagedAddressList} none (some v) → ⊥
      gone p = cc

  module _ (Injected : ℕ → Type 0) where
    delete-Step :
        (k : ℕ) (d d' : Dict ManagedAddressList)
        → IsKeyed list_id d
        → ((v : ManagedAddressList) → lookup k d ≡ some v → IsOwnedList g prefix v)
        → delete k d ≡ ok d'
        → Step list_id (IsOwnedList g prefix) (λ id e. Injected id) d d'
    delete-Step k d d' keyed o h =
        let (present, same) = delete-eq-ok k d d' h in
        let (v, at) = lookup_of_contains k d present in
        let own = lookup-IsKeyed list_id k v d keyed at in
        subst (Step list_id (IsOwnedList g prefix) (λ id e. Injected id) d)
          (ap (λ i. erase i d) own ∙ sym same) (remove v (rw own at) (o v at))

    pub delete_lists-ListReach :
        (ls : List ManagedAddressList) (d d' : Dict ManagedAddressList)
        → IsDict d
        → IsKeyed list_id d
        → All (IsOwnedAt d) ls
        → delete_lists ls d ≡ ok d'
        → ListReach g prefix Injected d d'
    unfolding delete_lists
    delete_lists-ListReach [] d d' u k o h =
        subst (ListReach g prefix Injected d) (ok-injective h) here
    delete_lists-ListReach (l ∷ ls) d d' u k o h =
        let (e, e1, h1) = >>=-eq-ok (delete l.ownership_id d) _ h in
        let step = delete-Step l.ownership_id d e k o.0 e1 in
        let valid =
          Steps.Step-IsValid list_id (IsOwnedList g prefix) (λ id e. Injected id) step
            (record { dict = u; keyed = k }) in
        let later =
          All-map_imp (IsOwnedAt d) (IsOwnedAt e) ls
            (λ m p.
              rw ((delete-eq-ok l.ownership_id d e e1).1) (IsOwnedAt-erase l.ownership_id d u m p))
            o.1 in
        next step (delete_lists-ListReach ls e d' valid.dict valid.keyed later h1)

    remove_bypass-ListReach :
        (names : List String) (rules : List ManagedBlockedSenderRule)
        (d d' : Dict ManagedAddressList)
        → IsDict d
        → IsKeyed list_id d
        → remove_bypass g prefix names rules d ≡ ok d'
        → ListReach g prefix Injected d d'
    unfolding remove_bypass
    remove_bypass-ListReach [] rules d d' u k h =
        subst (ListReach g prefix Injected d) (ok-injective h) here
    remove_bypass-ListReach (name ∷ names) rules d d' u k h =
        let (l, e1, h1) = >>=-eq-ok (or_raise (only (lists_named name d)) ambiguous_target) _ h in
        let (o, e2, h2) = >>-eq-ok (require_owned_address_list l g prefix) _ h1 in
        let (_, _, h3) =
          >>-eq-ok (raise_if (is_referenced_bypass name rules) ambiguous_target) _ h2 in
        let (e, e4, h4) = >>=-eq-ok (delete l.ownership_id d) _ h3 in
        let (at, _) =
          only-lists_named name d l u k
            (or_raise-eq-ok (only (lists_named name d)) ambiguous_target e1) in
        let step =
          delete-Step l.ownership_id d e k
            (λ v p. subst (IsOwnedList g prefix) (same_list l v d at p) (o, e2)) e4 in
        let valid =
          Steps.Step-IsValid list_id (IsOwnedList g prefix) (λ id e. Injected id) step
            (record { dict = u; keyed = k }) in
        next step (remove_bypass-ListReach names rules e d' valid.dict valid.keyed h4)

    -- The rule's list first, then its bypass lists.
    remove_lists-Moves :
        (rule : ManagedBlockedSenderRule) (l : ManagedAddressList) (w w' : Working)
        → IsDict w.address_lists
        → IsKeyed list_id w.address_lists
        → lookup l.ownership_id w.address_lists ≡ some l
        → IsOwnedList g prefix l
        → remove_lists g prefix rule l w ≡ ok w'
        → Moves g prefix Injected w w'
    unfolding remove_lists
    remove_lists-Moves rule l w w' u k at o h =
        let (_, _, h1) =
          >>-eq-ok (raise_if (is_referenced l.display_name (values w.rules)) ambiguous_target) _
            h in
        let (d, e2, h2) = >>=-eq-ok (delete l.ownership_id w.address_lists) _ h1 in
        let (d', e3, h3) =
          >>=-eq-ok (remove_bypass g prefix rule.bypass_address_list_names (values w.rules) d) _
            h2 in
        let step =
          delete-Step l.ownership_id w.address_lists d k
            (λ v p. subst (IsOwnedList g prefix) (same_list l v w.address_lists at p) o) e2 in
        let valid =
          Steps.Step-IsValid list_id (IsOwnedList g prefix) (λ id e. Injected id) step
            (record { dict = u; keyed = k }) in
        let rest =
          remove_bypass-ListReach rule.bypass_address_list_names (values w.rules) d d' valid.dict
            valid.keyed e3 in
        subst (Moves g prefix Injected w) (ok-injective h3)
          (record { rules = here; lists = next step rest; identifiers = λ p. p })

    -- `_remove_rule` moves by permitted steps: of the lists it removes only owned ones.
    pub apply_remove_rule-Moves :
        (a : RemoveBlockedSenderRule) (w w' : Working)
        → IsWorking w
        → apply_remove_rule g prefix a w ≡ ok w'
        → Moves g prefix Injected w w'
    unfolding apply_remove_rule
    apply_remove_rule-Moves a w w' v h =
        let (rule, e1, h1) = >>=-eq-ok (require_rule a.target_rule_id w.rules) _ h in
        let (o, e2, h2) = >>-eq-ok (require_owned_rule rule g prefix) _ h1 in
        let (l, e3, h3) = >>=-eq-ok (require_rule_list g prefix rule w.address_lists) _ h2 in
        let (d, e4, h4) = >>=-eq-ok (delete rule.ownership_id w.rules) _ h3 in
        let q =
          require_rule_list-IsRuleList g prefix rule w.address_lists l v.lists_dict v.lists_keyed
            e3 in
        let at = require_rule-found a.target_rule_id w rule v e1 in
        let step : Step rule_id (IsOwnedRule g prefix) (IsNewRule Injected) w.rules d =
          subst (Step rule_id (IsOwnedRule g prefix) (IsNewRule Injected) w.rules)
            (sym (delete-eq-ok rule.ownership_id w.rules d e4).1) (remove rule at (o, e2)) in
        elim (if_cases a.remove_owned_address_list h4) [
          | inl (_, e) ↦
              let m =
                remove_lists-Moves rule l (record w { rules = d }) w' v.lists_dict v.lists_keyed
                  q.found q.owned e in
              record { rules = next step m.rules; lists = m.lists; identifiers = m.identifiers }
          | inr (_, e) ↦
              subst (Moves g prefix Injected w) (ok-injective e)
                (record { rules = next step here; lists = here; identifiers = λ p. p })
        ]
