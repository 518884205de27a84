-- ===== src/DesiredState/Permitted/Update.antt =====
-- domain/desired_state.py: updating an owned rule as permitted steps.
use google_workspace_gmail_a.Common.{
  ℕ, String, some, List, [], ◌∷◌, ◌≡◌, refl, sym, ap, subst, ◌∙◌, All, ok, ambiguous_target,
  raise_if, or_raise, >>=-eq-ok, >>-eq-ok, ok-injective, Dict, lookup, insert, IsDict, IsKeyed,
  or_raise-eq-ok, inl, inr, Bool-cases, ◌==◌, lookup-insert, All-map_imp,
}
use google_workspace_gmail_a.Schemas.Resources.{
  AddressEntry, ManagedAddressList, ManagedBlockedSenderRule,
}
use google_workspace_gmail_a.Schemas.Plan.{UpdateBlockedSenderRule}
use google_workspace_gmail_a.Ownership.{
  OwnershipRegistry, require_owned_rule, require_owned_address_list,
}
use google_workspace_gmail_a.DesiredState.WorkingSets.{
  Working, require_rule, require_rule_list, sorted_entries, owned_lists, owned_bypass_lists, only,
  lists_named,
}
use google_workspace_gmail_a.DesiredState.Edit.{delete_lists, replace_bypass, apply_update}
use google_workspace_gmail_a.DesiredState.Steps
use google_workspace_gmail_a.DesiredState.Steps.{Step, edit, here, next, Reach-trans}
use google_workspace_gmail_a.DesiredState.Moves.{
  rule_id, list_id, IsWorking, IsOwnedRule, IsOwnedList, Moves, IsNewRule, only-lists_named,
}
use google_workspace_gmail_a.DesiredState.Permitted.{
  require_rule-found, require_rule_list-IsRuleList,
}
use google_workspace_gmail_a.DesiredState.Permitted.Removal.{IsOwnedAt, delete_lists-ListReach}
use google_workspace_gmail_a.DesiredState.Permitted.Creation.{
  BypassMoves, create_bypass-BypassMoves,
}

module _ (g : OwnershipRegistry) (prefix : String) where
  -- The ownership check does not look at the entries.
  IsOwnedList-entries :
      (l : ManagedAddressList) (es : List AddressEntry)
      → IsOwnedList g prefix l
      → IsOwnedList g prefix (record l { entries = es })
  unfolding require_owned_address_list
  IsOwnedList-entries l es o = o

  -- A list that stands in the dictionary, with ownership established.
  abbrev IsFound : Dict ManagedAddressList → ManagedAddressList → Type 0
  IsFound d l = (lookup l.ownership_id d ≡ some l) × IsOwnedList g prefix l

  owned_lists-IsFound :
      (names : List String) (d : Dict ManagedAddressList) (ls : List ManagedAddressList)
      → IsDict d
      → IsKeyed list_id d
      → owned_lists g prefix names d ≡ ok ls
      → All (IsFound d) ls
  unfolding owned_lists
  owned_lists-IsFound [] d ls u k h = subst (All (IsFound d)) (ok-injective h) tt
  owned_lists-IsFound (name ∷ names) d ls u k h =
      let (l, e1, h1) = >>=-eq-ok (or_raise (only (lists_named name d)) ambiguous_target) _ h in
      let (o, e2, h2) = >>-eq-ok (require_owned_address_list l g prefix) _ h1 in
      let (rest, e3, h3) = >>=-eq-ok (owned_lists g prefix names d) _ h2 in
      let (at, _) =
        only-lists_named name d l u k
          (or_raise-eq-ok (only (lists_named name d)) ambiguous_target e1) in
      subst (All (IsFound d)) (ok-injective h3)
        ((at, (o, e2)), owned_lists-IsFound names d rest u k e3)

  IsOwnedAt-of_IsFound :
      (d : Dict ManagedAddressList) (l : ManagedAddressList) → IsFound d l → IsOwnedAt g prefix d l
  IsOwnedAt-of_IsFound d l f v at = subst (IsOwnedList g prefix) (same (sym f.0 ∙ at)) f.1
    where
      same : some l ≡ some v → l ≡ v
      same p = cc

  -- Writing an owned list keeps what is found owned.
  IsOwnedAt-insert :
      (d : Dict ManagedAddressList) (k : ℕ) (n : ManagedAddressList)
      → IsOwnedList g prefix n
      → (l : ManagedAddressList) → IsOwnedAt g prefix d l
      → IsOwnedAt g prefix (insert k n d) l
  IsOwnedAt-insert d k n o l p v at = elim (Bool-cases (k == l.ownership_id)) [
    | inl e ↦
        subst (IsOwnedList g prefix) (same (rw (lookup-insert l.ownership_id k n d, e) at at)) o
    | inr e ↦ p v (rw (lookup-insert l.ownership_id k n d, e) at at)
  ]
    where
      same : some n ≡ some v → n ≡ v
      same q = cc

  module _ (Injected : ℕ → Type 0) where
    replace_bypass-BypassMoves :
        (es : List AddressEntry) (existing : List ManagedAddressList) (w w' : Working)
        (names : List String)
        → IsDict w.address_lists
        → IsKeyed list_id w.address_lists
        → All (IsFound w.address_lists) existing
        → All Injected w.identifiers
        → replace_bypass prefix es existing w ≡ ok (w', names)
        → BypassMoves g prefix Injected w w'
    unfolding replace_bypass
    replace_bypass-BypassMoves [] existing w w' names u k f inj h =
        let (d, e1, h1) = >>=-eq-ok (delete_lists existing w.address_lists) _ h in
        let owned =
          All-map_imp (IsFound w.address_lists) (IsOwnedAt g prefix w.address_lists) existing
            (IsOwnedAt-of_IsFound w.address_lists) f in
        subst (BypassMoves g prefix Injected w) (ap (λ p. p.0) (ok-injective h1)) (record {
          rules = refl;
          lists = delete_lists-ListReach g prefix Injected existing w.address_lists d u k owned e1;
          identifiers = λ p. p;
        })
    replace_bypass-BypassMoves (e ∷ es) [] w w' names u k f inj h =
        create_bypass-BypassMoves g prefix Injected (e ∷ es) w w' names inj h
    replace_bypass-BypassMoves (e ∷ es) (b ∷ surplus) w w' names u k f inj h =
        let b' : ManagedAddressList = record b { entries = sorted_entries (e ∷ es) } in
        let kept = insert b.ownership_id b' w.address_lists in
        let (d, e1, h1) = >>=-eq-ok (delete_lists surplus kept) _ h in
        let owner = IsOwnedList-entries b (sorted_entries (e ∷ es)) f.0.1 in
        let step : Step list_id (IsOwnedList g prefix) (λ i x. Injected i) w.address_lists kept =
          edit b b' f.0.0 f.0.1 refl in
        let valid =
          Steps.Step-IsValid list_id (IsOwnedList g prefix) (λ i x. Injected i) step
            (record { dict = u; keyed = k }) in
        let owned =
          All-map_imp (IsFound w.address_lists) (IsOwnedAt g prefix kept) surplus
            (λ l p.
              IsOwnedAt-insert w.address_lists b.ownership_id b' owner l
                (IsOwnedAt-of_IsFound w.address_lists l p))
            f.1 in
        subst (BypassMoves g prefix Injected w) (ap (λ p. p.0) (ok-injective h1)) (record {
          rules = refl;
          lists = next step (
              delete_lists-ListReach g prefix Injected surplus kept d valid.dict valid.keyed owned
                e1);
          identifiers = λ p. p;
        })

    -- The rule's own list, then its bypass lists, then the rule.
    pub apply_update-Moves :
        (a : UpdateBlockedSenderRule) (w w' : Working)
        → IsWorking w
        → All Injected w.identifiers
        → apply_update g prefix a w ≡ ok w'
        → Moves g prefix Injected w w'
    unfolding apply_update owned_bypass_lists
    apply_update-Moves a w w' v inj h =
        let (rule, e1, h1) = >>=-eq-ok (require_rule a.target_rule_id w.rules) _ h in
        let (o, e2, h2) = >>-eq-ok (require_owned_rule rule g prefix) _ h1 in
        let (_, e3, h3) = >>-eq-ok (raise_if rule.inherited ambiguous_target) _ h2 in
        let (l, e4, h4) = >>=-eq-ok (require_rule_list g prefix rule w.address_lists) _ h3 in
        let q =
          require_rule_list-IsRuleList g prefix rule w.address_lists l v.lists_dict v.lists_keyed
            e4 in
        let l' : ManagedAddressList = record l { entries = sorted_entries a.entries } in
        let lists = insert l.ownership_id l' w.address_lists in
        let step : Step list_id (IsOwnedList g prefix) (λ i x. Injected i) w.address_lists lists =
          edit l l' q.found q.owned refl in
        let valid =
          Steps.Step-IsValid list_id (IsOwnedList g prefix) (λ i x. Injected i) step
            (record { dict = v.lists_dict; keyed = v.lists_keyed }) in
        let (existing, e5, h5) =
          >>=-eq-ok (owned_lists g prefix rule.bypass_address_list_names lists) _ h4 in
        let found =
          owned_lists-IsFound rule.bypass_address_list_names lists existing valid.dict valid.keyed
            e5 in
        let listed : Working = record w { address_lists = lists } in
        let ((w2, names), e6, h6) =
          >>=-eq-ok (replace_bypass prefix a.bypass_entries existing listed) _ h5 in
        let m =
          replace_bypass-BypassMoves a.bypass_entries existing listed w2 names valid.dict
            valid.keyed found inj e6 in
        let at =
          subst (λ d. lookup rule.ownership_id d ≡ some rule) (sym m.rules)
            (require_rule-found a.target_rule_id w rule v e1) in
        subst (Moves g prefix Injected w) (ok-injective h6) (record {
          rules = updated_rule w.rules w2.rules rule _ m.rules at (o, e2) refl;
          lists = next step m.lists;
          identifiers = m.identifiers;
        })
      where
        updated_rule :
            (d e : Dict ManagedBlockedSenderRule) (old new : ManagedBlockedSenderRule)
            → e ≡ d
            → lookup old.ownership_id e ≡ some old
            → IsOwnedRule g prefix old
            → new.ownership_id ≡ old.ownership_id
            → Steps.Reach rule_id
                (IsOwnedRule g prefix)
                (IsNewRule Injected)
                d
                (insert old.ownership_id new e)
        updated_rule d e old new same at own p =
            subst
              (λ x.
                Steps.Reach rule_id (IsOwnedRule g prefix) (IsNewRule Injected) x
                  (insert old.ownership_id new e))
              same (next (edit old new at own p) here)
