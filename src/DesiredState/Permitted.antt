-- ===== src/DesiredState/Permitted.antt =====
-- domain/desired_state.py: the actions on an existing rule as permitted steps.
pub mod Removal
pub mod Creation
pub mod Update
use google_workspace_gmail_a.Common.{
  ℕ, String, not, Option, none, some, ◌≡◌, refl, ap, subst, arith, ok, ambiguous_target, raise_if,
  or_raise, >>=-eq-ok, >>-eq-ok, or_raise-eq-ok, ok-injective, Dict, lookup, insert, lookup_self,
  IsDict, IsKeyed, if_cases, inl, inr, same_notice, ◌==◌,
}
use google_workspace_gmail_a.Schemas.Resources.{ManagedAddressList, ManagedBlockedSenderRule}
use google_workspace_gmail_a.Schemas.Plan.{
  RemoveBlockedEntries, SetRejectionNotice, SetBlockedSenderRuleEnabled,
}
use google_workspace_gmail_a.Ownership.{
  OwnershipRegistry, require_owned_rule, require_owned_address_list,
}
use google_workspace_gmail_a.DesiredState.WorkingSets.{
  Working, require_rule, require_rule_list, require_paired, only, lists_named,
}
use google_workspace_gmail_a.DesiredState.Edit.{
  apply_remove_entries, apply_set_notice, apply_set_enabled,
}
use google_workspace_gmail_a.DesiredState.Steps.{edit, here, next}
use google_workspace_gmail_a.DesiredState.Moves.{
  rule_id, list_id, IsWorking, IsOwnedRule, IsOwnedList, Moves, only-lists_named,
}

-- `_require_rule` finds the rule under its own identity.
pub require_rule-found :
    (id : ℕ) (w : Working) (rule : ManagedBlockedSenderRule)
    → IsWorking w
    → require_rule id w.rules ≡ ok rule
    → lookup rule.ownership_id w.rules ≡ some rule
unfolding require_rule
require_rule-found id w rule h e =
    lookup_self rule_id id rule w.rules h.rules_keyed
      (or_raise-eq-ok (lookup id w.rules) ambiguous_target e)

module _ (g : OwnershipRegistry) (prefix : String) where
  -- What `_require_rule_list` has established of the list that it returns.
  pub record IsRuleList (rule : ManagedBlockedSenderRule) (lists : Dict ManagedAddressList)
      (l : ManagedAddressList) : Type 0 where
    pub found : lookup l.ownership_id lists ≡ some l
    pub owned : IsOwnedList g prefix l
    pub paired : l.ownership_id ≡ rule.ownership_id

  require_paired-owned :
      (rule : ManagedBlockedSenderRule) (o : Option ManagedAddressList) (l : ManagedAddressList)
      → require_paired g prefix rule o ≡ ok l
      → (o ≡ some l) × (l.ownership_id ≡ rule.ownership_id) × IsOwnedList g prefix l
  unfolding require_paired
  require_paired-owned rule none l h = cc
  require_paired-owned rule (some m) l h =
      let (_, same, h1) =
        >>-eq-ok (raise_if (not (m.ownership_id == rule.ownership_id)) ambiguous_target) _ h in
      let (e, owned, h2) = >>-eq-ok (require_owned_address_list m g prefix) _ h1 in
      let p : m ≡ l = ok-injective h2 in (ap some p, rw (← p) (ground arith), rw (← p) (e, owned))

  pub require_rule_list-IsRuleList :
      (rule : ManagedBlockedSenderRule) (lists : Dict ManagedAddressList) (l : ManagedAddressList)
      → IsDict lists
      → IsKeyed list_id lists
      → require_rule_list g prefix rule lists ≡ ok l
      → IsRuleList rule lists l
  unfolding require_rule_list
  require_rule_list-IsRuleList rule lists l d k h =
      let (name, _, h1) =
        >>=-eq-ok (or_raise (only rule.address_list_names) ambiguous_target) _ h in
      let (some_l, paired, owned) =
        require_paired-owned rule (only (lists_named name lists)) l h1 in
      record {
        found = (only-lists_named name lists l d k some_l).0;
        owned = owned;
        paired = paired;
      }

module _ (g : OwnershipRegistry) (prefix : String) (Injected : ℕ → Type 0) where
  -- One edit of an owned rule; the lists stay.
  pub edited_rule :
      (w : Working) (old new : ManagedBlockedSenderRule)
      → lookup old.ownership_id w.rules ≡ some old
      → IsOwnedRule g prefix old
      → new.ownership_id ≡ old.ownership_id
      → Moves g prefix Injected w (record w { rules = insert old.ownership_id new w.rules })
  edited_rule w old new found owned same = record {
    rules = next (edit old new found owned same) here;
    lists = here;
    identifiers = λ h. h;
  }

  -- One edit of an owned list; the rules stay.
  pub edited_list :
      (w : Working) (old new : ManagedAddressList)
      → lookup old.ownership_id w.address_lists ≡ some old
      → IsOwnedList g prefix old
      → new.ownership_id ≡ old.ownership_id
      → Moves g prefix Injected w
          (record w { address_lists = insert old.ownership_id new w.address_lists })
  edited_list w old new found owned same = record {
    rules = here;
    lists = next (edit old new found owned same) here;
    identifiers = λ h. h;
  }

  pub apply_set_enabled-Moves :
      (a : SetBlockedSenderRuleEnabled) (w w' : Working)
      → IsWorking w
      → apply_set_enabled g prefix a w ≡ ok w'
      → Moves g prefix Injected w w'
  unfolding apply_set_enabled
  apply_set_enabled-Moves a w w' v h =
      let (rule, e1, h1) = >>=-eq-ok (require_rule a.target_rule_id w.rules) _ h in
      let (o, e2, h2) = >>-eq-ok (require_owned_rule rule g prefix) _ h1 in
      let (_, e3, h3) = >>-eq-ok (raise_if rule.inherited ambiguous_target) _ h2 in
      subst (Moves g prefix Injected w) (ok-injective h3) (
        edited_rule w rule (record rule { enabled = a.enabled })
          (require_rule-found a.target_rule_id w rule v e1) (o, e2) refl)

  pub apply_remove_entries-Moves :
      (a : RemoveBlockedEntries) (w w' : Working)
      → IsWorking w
      → apply_remove_entries g prefix a w ≡ ok w'
      → Moves g prefix Injected w w'
  unfolding apply_remove_entries
  apply_remove_entries-Moves a w w' v h =
      let (rule, e1, h1) = >>=-eq-ok (require_rule a.target_rule_id w.rules) _ h in
      let (o, e2, h2) = >>-eq-ok (require_owned_rule rule g prefix) _ h1 in
      let (l, e3, h3) = >>=-eq-ok (require_rule_list g prefix rule w.address_lists) _ h2 in
      let q =
        require_rule_list-IsRuleList g prefix rule w.address_lists l v.lists_dict v.lists_keyed
          e3 in
      subst (Moves g prefix Injected w) (ok-injective h3) (edited_list w l _ q.found q.owned refl)

  pub apply_set_notice-Moves :
      (a : SetRejectionNotice) (w w' : Working) (n : ℕ)
      → IsWorking w
      → apply_set_notice g prefix a w ≡ ok (w', n)
      → Moves g prefix Injected w w'
  unfolding apply_set_notice
  apply_set_notice-Moves a w w' n v h =
      let (rule, e1, h1) = >>=-eq-ok (require_rule a.target_rule_id w.rules) _ h in
      let (o, e2, h2) = >>-eq-ok (require_owned_rule rule g prefix) _ h1 in
      let (l, e3, h3) = >>=-eq-ok (require_rule_list g prefix rule w.address_lists) _ h2 in
      elim (if_cases (same_notice rule.rejection_notice (some a.rejection_notice))
        (ok-injective h3)) [
          | inl (_, e) ↦
              subst (Moves g prefix Injected w) (ap (λ p. p.0) e)
                (record { rules = here; lists = here; identifiers = λ h. h })
          | inr (_, e) ↦ subst (Moves g prefix Injected w) (ap (λ p. p.0) e) (
              edited_rule w rule (record rule { rejection_notice = some a.rejection_notice })
                (require_rule-found a.target_rule_id w rule v e1) (o, e2) refl)
        ]
