-- ===== src/DesiredState/Effects.antt =====
-- What adding and removing entries does to the working sets.
use google_workspace_gmail_a.Common.{
  ℕ, String, Bool, true, false, not, ◌&&◌, ◌||◌, Option, none, some, List, ◌≡◌, ◌≢◌, refl, sym, ap,
  subst, ◌∙◌, arith, ok, lookup, insert, Distinct, mem_text, ambiguous_target, >>=-eq-ok, >>-eq-ok,
  ok-injective, or_raise-eq-ok, Bool-cases, inl, inr, if_cases, lookup-insert_self,
  lookup-insert_ne, lookup-IsKeyed,
}
use google_workspace_gmail_a.Schemas.Resources.{
  AddressEntry, ManagedAddressList, ManagedBlockedSenderRule,
}
use google_workspace_gmail_a.Schemas.Plan.{AddBlockedEntries, RemoveBlockedEntries}
use google_workspace_gmail_a.Ownership.{OwnershipRegistry, require_owned_rule}
use google_workspace_gmail_a.DesiredState.WorkingSets.{
  Working, require_rule, require_rule_list, sorted_entries,
}
use google_workspace_gmail_a.DesiredState.Create.{
  combined, apply_add, add_to, resolve_add_target, other_notice, Target,
}
use google_workspace_gmail_a.DesiredState.Edit.{apply_remove_entries}
use google_workspace_gmail_a.DesiredState.Moves.{rule_id, IsWorking}
use google_workspace_gmail_a.DesiredState.Permitted.{require_rule_list-IsRuleList, IsRuleList}
use google_workspace_gmail_a.DesiredState.Entries.{
  values_of, newcomers, mem-newcomers, newcomers-apart, mem-combined, mem-sorted_entries,
  Distinct-combined, Distinct-sorted_entries,
}

-- The list under `id` before and after, and that nothing else moved.
pub record OnlyList (id : ℕ) (w w' : Working) (before after : ManagedAddressList) : Type 0 where
  pub found : lookup id w.address_lists ≡ some before
  pub now : lookup id w'.address_lists ≡ some after
  pub same_name : after.display_name ≡ before.display_name
  pub others : (k : ℕ) → k ≢ id → lookup k w'.address_lists ≡ lookup k w.address_lists
  pub rules : w'.rules ≡ w.rules
  pub identifiers : w'.identifiers ≡ w.identifiers

rewritten_list :
    (id : ℕ) (w : Working) (l : ManagedAddressList) (es : List AddressEntry)
    → l.ownership_id ≡ id
    → lookup l.ownership_id w.address_lists ≡ some l
    → let n : ManagedAddressList = record l { entries = es } in
      OnlyList id w (record w { address_lists = insert l.ownership_id n w.address_lists }) l n
rewritten_list id w l es same at =
    let n : ManagedAddressList = record l { entries = es } in
    subst
      (λ i. OnlyList i w (record w { address_lists = insert l.ownership_id n w.address_lists }) l n)
      same
      (record {
        found = at;
        now = lookup-insert_self l.ownership_id n w.address_lists;
        same_name = refl;
        others = λ k ne. lookup-insert_ne k l.ownership_id n w.address_lists ne;
        rules = refl;
        identifiers = refl;
      })

require_rule-same :
    (id : ℕ) (w : Working) (rule : ManagedBlockedSenderRule)
    → IsWorking w
    → require_rule id w.rules ≡ ok rule
    → rule.ownership_id ≡ id
unfolding require_rule
require_rule-same id w rule v h =
    lookup-IsKeyed rule_id id rule w.rules v.rules_keyed
      (or_raise-eq-ok (lookup id w.rules) ambiguous_target h)

mem-remaining :
    (v : String) (removed : List String) (es : List AddressEntry)
    → mem_text v (values_of (newcomers removed es))
      ≡ (mem_text v (values_of es) && not (mem_text v removed))
mem-remaining v removed es = elim (Bool-cases (mem_text v removed)) [
  | inl p ↦ newcomers-apart v removed es p ∙ rw p (sym (and_false (mem_text v (values_of es))))
  | inr p ↦ mem-newcomers v removed es p ∙ rw p (sym (and_true (mem_text v (values_of es))))
]
  where
    and_false : (b : Bool) → (b && false) ≡ false
    and_false b = ground arith

    and_true : (b : Bool) → (b && true) ≡ b
    and_true b = ground arith

-- After a `RemoveBlockedEntries` that succeeds, the list of the target rule holds exactly the
-- normalized values that it held and that are not removed; every other list, the rules and the
-- identifiers are as they were.
pub apply_remove_entries_effect :
    (g : OwnershipRegistry) (prefix : String) (a : RemoveBlockedEntries) (w w' : Working)
    → IsWorking w
    → apply_remove_entries g prefix a w ≡ ok w'
    → (before : ManagedAddressList) × (after : ManagedAddressList) × OnlyList a.target_rule_id w w'
        before after
      × ((v : String)
          → mem_text v (values_of after.entries)
            ≡ (mem_text v (values_of before.entries) && not (mem_text v (values_of a.entries))))
unfolding apply_remove_entries
apply_remove_entries_effect g prefix a w w' v h =
    let (rule, e1, h1) = >>=-eq-ok (require_rule a.target_rule_id w.rules) _ h in
    let (o, e2, h2) = >>-eq-ok (require_owned_rule rule g prefix) _ h1 in
    let (l, e3, h3) = >>=-eq-ok (require_rule_list g prefix rule w.address_lists) _ h2 in
    let q =
      require_rule_list-IsRuleList g prefix rule w.address_lists l v.lists_dict v.lists_keyed e3 in
    let rest = newcomers (values_of a.entries) l.entries in
    (
      l,
      record l { entries = sorted_entries rest },
      subst (λ x. OnlyList a.target_rule_id w x l (record l { entries = sorted_entries rest }))
          (ok-injective h3)
          (rewritten_list a.target_rule_id w l (sorted_entries rest)
            (q.paired ∙ require_rule-same a.target_rule_id w rule v e1) q.found),
      λ t. mem-sorted_entries t rest ∙ mem-remaining t (values_of a.entries) l.entries,
    )

resolve_named :
    (g : OwnershipRegistry) (prefix : String) (id : ℕ) (notice : Option String) (w : Working)
    (o : Option Target)
    → IsWorking w
    → resolve_add_target g prefix (some id) notice w ≡ ok o
    → (rule : ManagedBlockedSenderRule) × (l : ManagedAddressList) × (o ≡ some (rule, l))
      × IsRuleList g prefix rule w.address_lists l
      × (rule.ownership_id ≡ id)
unfolding resolve_add_target
resolve_named g prefix id notice w o v h =
    let (rule, e1, h1) = >>=-eq-ok (require_rule id w.rules) _ h in
    let (r, e2, h2) = >>-eq-ok (require_owned_rule rule g prefix) _ h1 in
    let (l, e3, h3) = >>=-eq-ok (require_rule_list g prefix rule w.address_lists) _ h2 in
    (
      rule,
      l,
      sym (ok-injective h3),
      require_rule_list-IsRuleList g prefix rule w.address_lists l v.lists_dict v.lists_keyed e3,
      require_rule-same id w rule v e1,
    )

-- The list after an addition to a named rule.
abbrev extended : ManagedAddressList → AddBlockedEntries → ManagedAddressList
extended l a = record l { entries = sorted_entries (combined l.entries a.entries) }

apply_add-OnlyList :
    (g : OwnershipRegistry) (prefix : String) (a : AddBlockedEntries) (id : ℕ) (w w' : Working)
    → IsWorking w
    → a.target_rule_id ≡ some id
    → a.rejection_notice ≡ none
    → apply_add g prefix a w ≡ ok w'
    → (before : ManagedAddressList) × OnlyList id w w' before (extended before a)
unfolding apply_add add_to
apply_add-OnlyList g prefix a id w w' v target notice h =
    let (o, e1, h1) =
      >>=-eq-ok (resolve_add_target g prefix a.target_rule_id a.rejection_notice w) _ h in
    let named = subst (λ t. resolve_add_target g prefix t a.rejection_notice w ≡ ok o) target e1 in
    let (rule, l, found, q, same) = resolve_named g prefix id a.rejection_notice w o v named in
    let h2 = subst (λ t. add_to g prefix a w t ≡ ok w') found h1 in
    (
      l,
      subst (λ x. OnlyList id w x l (extended l a)) (ok-injective (quiet rule l notice h2))
          (rewritten_list id w l (sorted_entries (combined l.entries a.entries)) (q.paired ∙ same)
            q.found),
    )
  where
    quiet :
        (rule : ManagedBlockedSenderRule) (l : ManagedAddressList)
        → a.rejection_notice ≡ none
        → add_to g prefix a w (some (rule, l)) ≡ ok w'
        → ok (record w { address_lists = insert l.ownership_id (extended l a) w.address_lists })
          ≡ ok w'
    quiet rule l n k = elim (if_cases (other_notice a.rejection_notice rule.rejection_notice) k) [
      | inl (e, _) ↦
          let never = sym e ∙ ap (λ x. other_notice x rule.rejection_notice) n in absurd (cc)
      | inr (_, e) ↦ e
    ]

-- After an `AddBlockedEntries` with a target rule and no notice that succeeds, the list of the
-- target rule holds exactly the normalized values that it held and the added ones; every other
-- list, the rules and the identifiers are as they were.
pub apply_add_effect :
    (g : OwnershipRegistry) (prefix : String) (a : AddBlockedEntries) (id : ℕ) (w w' : Working)
    → IsWorking w
    → a.target_rule_id ≡ some id
    → a.rejection_notice ≡ none
    → apply_add g prefix a w ≡ ok w'
    → (before : ManagedAddressList) × (after : ManagedAddressList) × OnlyList id w w' before after
      × ((v : String)
          → mem_text v (values_of after.entries)
            ≡ (mem_text v (values_of before.entries) || mem_text v (values_of a.entries)))
apply_add_effect g prefix a id w w' v target notice h =
    let (l, moved) = apply_add-OnlyList g prefix a id w w' v target notice h in
    (
      l,
      extended l a,
      moved,
      λ t. mem-sorted_entries t (combined l.entries a.entries) ∙ mem-combined t l.entries a.entries,
    )

-- Such an addition repeats no normalized value in the list of the target rule, if the list and
-- the added entries repeat none: the list that `model_copy` stores would pass its validator.
pub apply_add-Distinct :
    (g : OwnershipRegistry) (prefix : String) (a : AddBlockedEntries) (id : ℕ) (w w' : Working)
    (before : ManagedAddressList)
    → IsWorking w
    → a.target_rule_id ≡ some id
    → a.rejection_notice ≡ none
    → lookup id w.address_lists ≡ some before
    → Distinct (values_of before.entries)
    → Distinct (values_of a.entries)
    → apply_add g prefix a w ≡ ok w'
    → (after : ManagedAddressList) × (lookup id w'.address_lists ≡ some after)
      × Distinct (values_of after.entries)
apply_add-Distinct g prefix a id w w' before v target notice at d e h =
    let (l, moved) = apply_add-OnlyList g prefix a id w w' v target notice h in
    let same : before ≡ l = found_same before l (sym at ∙ moved.found) in
    (
      extended l a,
      moved.now,
      Distinct-sorted_entries (combined l.entries a.entries) (
          Distinct-combined l.entries a.entries (subst (λ x. Distinct (values_of x.entries)) same d)
            e),
    )
  where
    found_same : (x y : ManagedAddressList) → some x ≡ some y → x ≡ y
    found_same x y p = cc
