-- ===== src/DesiredState/Permitted/Creation.antt =====
-- domain/desired_state.py: creating a rule and adding entries as permitted steps.
use google_workspace_gmail_a.Common.{
  ℕ, String, Bool, true, false, not, ◌||◌, Option, none, some, List, [], ◌∷◌, ◌≡◌, refl, sym, ap,
  subst, ◌∙◌, arith, All, ok, value_error, raise_if, >>=-eq-ok, >>-eq-ok, ok-injective, Dict,
  contains, insert, values, IsDict, IsKeyed, raise_if-eq-ok, if_cases, inl, inr, same_notice,
}
use google_workspace_gmail_a.Schemas.Resources.{
  AddressEntry, ManagedAddressList, ManagedBlockedSenderRule, validate_address_list, validate_rule,
}
use google_workspace_gmail_a.Schemas.Resources.Validated.{
  validate_address_list-same, validate_rule-same,
}
use google_workspace_gmail_a.Schemas.Plan.{AddBlockedEntries, CreateBlockedSenderRule}
use google_workspace_gmail_a.Ownership.{
  OwnershipRegistry, require_owned_rule, managed_resource_names, bypass_list_name,
}
use google_workspace_gmail_a.DesiredState.WorkingSets.{Working, require_rule, require_rule_list}
use google_workspace_gmail_a.DesiredState.Create.{
  create_bypass, create_rule, next_identifier, new_list, new_rule, Target, unambiguous,
  other_notice, candidates, resolve_add_target, add_to, apply_add, apply_create,
}
use google_workspace_gmail_a.DesiredState.Steps.{Step, create, here, next}
use google_workspace_gmail_a.DesiredState.Moves.{
  rule_id, list_id, IsWorking, IsOwnedRule, IsOwnedList, ListReach, Moves, IsNewRule,
}
use google_workspace_gmail_a.DesiredState.Permitted.{
  IsRuleList, require_rule_list-IsRuleList, edited_list,
}

next_identifier-eq-ok :
    (ids rest : List ℕ) (id : ℕ) → next_identifier ids ≡ ok (id, rest) → ids ≡ id ∷ rest
unfolding next_identifier
next_identifier-eq-ok [] rest id h = cc
next_identifier-eq-ok (j ∷ js) rest id h = cc

or_false : (a b : Bool) → (a || b) ≡ false → (a ≡ false) × (b ≡ false)
or_false a b h = ground arith

module _ (g : OwnershipRegistry) (prefix : String) (Injected : ℕ → Type 0) where
  -- A new list stands under the next injected identifier.
  created_list :
      (id : ℕ) (l l' : ManagedAddressList) (d : Dict ManagedAddressList)
      → Injected id
      → l.ownership_id ≡ id
      → validate_address_list l ≡ ok l'
      → Step list_id (IsOwnedList g prefix) (λ i e. Injected i) d (insert id l' d)
  created_list id l l' d inj same e =
      let own : l'.ownership_id ≡ id = ap list_id (validate_address_list-same l l' e) ∙ same in
      subst (λ i. Step list_id (IsOwnedList g prefix) (λ i e. Injected i) d (insert i l' d)) own
        (create l' (subst Injected (sym own) inj))

  -- A new rule stands under an identifier that no rule had.
  created_rule :
      (id : ℕ) (rule : ManagedBlockedSenderRule) (d e : Dict ManagedBlockedSenderRule)
      → e ≡ d
      → contains id d ≡ false
      → Injected id
      → rule.ownership_id ≡ id
      → Step rule_id (IsOwnedRule g prefix) (IsNewRule Injected) d (insert id rule e)
  created_rule id rule d e same absent inj own =
      subst (λ x. Step rule_id (IsOwnedRule g prefix) (IsNewRule Injected) d (insert id rule x))
        (sym same)
        (subst (λ i. Step rule_id (IsOwnedRule g prefix) (IsNewRule Injected) d (insert i rule d))
          own (create rule (subst (λ i. IsNewRule Injected i d) (sym own) (absent, inj))))

  -- What `create_bypass` has done: the rules stay, and the lists move by permitted steps.
  pub record BypassMoves (w w' : Working) : Type 0 where
    pub rules : w'.rules ≡ w.rules
    pub lists : ListReach g prefix Injected w.address_lists w'.address_lists
    pub identifiers : All Injected w.identifiers → All Injected w'.identifiers

  pub create_bypass-BypassMoves :
      (es : List AddressEntry) (w w' : Working) (names : List String)
      → All Injected w.identifiers
      → create_bypass prefix es w ≡ ok (w', names)
      → BypassMoves w w'
  unfolding create_bypass
  create_bypass-BypassMoves [] w w' names inj h =
      subst (BypassMoves w) (ap (λ p. p.0) (ok-injective h))
        (record { rules = refl; lists = here; identifiers = λ p. p })
  create_bypass-BypassMoves (e ∷ es) w w' names inj h =
      let ((id, rest), e1, h1) = >>=-eq-ok (next_identifier w.identifiers) _ h in
      let (l, e2, h2) =
        >>=-eq-ok (validate_address_list (new_list id (bypass_list_name prefix id) (e ∷ es))) _
          h1 in
      let split = next_identifier-eq-ok w.identifiers rest id e1 in
      let fits : All Injected (id ∷ rest) = subst (All Injected) split inj in
      subst (BypassMoves w) (ap (λ p. p.0) (ok-injective h2)) (record {
        rules = refl;
        lists = next (created_list id _ l w.address_lists fits.0 refl e2) here;
        identifiers = λ p. fits.1;
      })

  -- `_create_rule`: one new list, perhaps a bypass list, and one rule under an identifier that no
  -- rule had.
  pub create_rule-Moves :
      (entries : List AddressEntry) (notice : Option String) (ou : String)
      (bypass : List AddressEntry) (enabled : Bool) (w w' : Working)
      → All Injected w.identifiers
      → create_rule prefix entries notice ou bypass enabled w ≡ ok w'
      → Moves g prefix Injected w w'
  unfolding create_rule
  create_rule-Moves entries notice ou bypass enabled w w' inj h =
      let ((id, rest), e1, h1) = >>=-eq-ok (next_identifier w.identifiers) _ h in
      let (_, e2, h2) =
        >>-eq-ok (raise_if (contains id w.rules || contains id w.address_lists) value_error) _ h1 in
      let names = managed_resource_names prefix id in
      let (l, e3, h3) = >>=-eq-ok (validate_address_list (new_list id names.1 entries)) _ h2 in
      let listed : Working = record w {
        address_lists = insert id l w.address_lists;
        identifiers = rest;
      } in
      let ((w2, bypass_names), e4, h4) = >>=-eq-ok (create_bypass prefix bypass listed) _ h3 in
      let (rule, e5, h5) =
        >>=-eq-ok (validate_rule (new_rule id names.0 ou names.1 bypass_names notice enabled)) _
          h4 in
      let fits : All Injected (id ∷ rest) =
        subst (All Injected) (next_identifier-eq-ok w.identifiers rest id e1) inj in
      let m = create_bypass-BypassMoves bypass listed w2 bypass_names fits.1 e4 in
      let absent =
        (or_false (contains id w.rules) (contains id w.address_lists)
          (raise_if-eq-ok (contains id w.rules || contains id w.address_lists) value_error e2)).0 in
      subst (Moves g prefix Injected w) (ok-injective h5) (record {
        rules =
            next
              (created_rule id rule w.rules w2.rules m.rules absent fits.0
                (validate_rule-same _ rule e5).0)
              here;
        lists = next (created_list id _ l w.address_lists fits.0 refl e3) m.lists;
        identifiers = λ p. m.identifiers fits.1;
      })

  pub apply_create-Moves :
      (a : CreateBlockedSenderRule) (w w' : Working)
      → All Injected w.identifiers
      → apply_create prefix a w ≡ ok w'
      → Moves g prefix Injected w w'
  unfolding apply_create
  apply_create-Moves a w w' inj h =
      create_rule-Moves a.entries a.rejection_notice a.target_ou a.bypass_entries a.enabled w w' inj
        h

  -- A target that is found is a rule with its own list, which is owned.
  abbrev IsTarget : Dict ManagedAddressList → Target → Type 0
  IsTarget lists (rule, l) = IsRuleList g prefix rule lists l

  candidates-IsTarget :
      (notice : Option String) (lists : Dict ManagedAddressList)
      (rules : List ManagedBlockedSenderRule) (found : List Target)
      → IsDict lists
      → IsKeyed list_id lists
      → candidates g prefix notice lists rules ≡ ok found
      → All (IsTarget lists) found
  unfolding candidates
  candidates-IsTarget notice lists [] found u k h = subst (All (IsTarget lists)) (ok-injective h) tt
  candidates-IsTarget notice lists (rule ∷ rules) found u k h =
      elim (if_cases (not (same_notice rule.rejection_notice notice)) h) [
        | inl (_, e) ↦ candidates-IsTarget notice lists rules found u k e
        | inr (_, e) ↦
            let (o, e1, h1) = >>-eq-ok (require_owned_rule rule g prefix) _ e in
            let (l, e2, h2) = >>=-eq-ok (require_rule_list g prefix rule lists) _ h1 in
            let (more, e3, h3) = >>=-eq-ok (candidates g prefix notice lists rules) _ h2 in
            subst (All (IsTarget lists)) (ok-injective h3) (
              require_rule_list-IsRuleList g prefix rule lists l u k e2,
              candidates-IsTarget notice lists rules more u k e3,
            )
      ]

  unambiguous-IsTarget :
      (lists : Dict ManagedAddressList) (found : List Target) (t : Target)
      → All (IsTarget lists) found
      → unambiguous found ≡ ok (some t)
      → IsTarget lists t
  unambiguous-IsTarget lists [] t q h = cc
  unambiguous-IsTarget lists (u ∷ []) t q h =
      let same : u ≡ t = cc in subst (IsTarget lists) same q.0
  unambiguous-IsTarget lists (u ∷ v ∷ us) t q h = cc

  pub resolve_add_target-IsTarget :
      (id : Option ℕ) (notice : Option String) (w : Working) (t : Target)
      → IsWorking w
      → resolve_add_target g prefix id notice w ≡ ok (some t)
      → IsTarget w.address_lists t
  unfolding resolve_add_target
  resolve_add_target-IsTarget (some id) notice w t v h =
      let (rule, e1, h1) = >>=-eq-ok (require_rule id w.rules) _ h in
      let (o, e2, h2) = >>-eq-ok (require_owned_rule rule g prefix) _ h1 in
      let (l, e3, h3) = >>=-eq-ok (require_rule_list g prefix rule w.address_lists) _ h2 in
      let p : some (rule, l) ≡ some t = ok-injective h3 in
      subst (IsTarget w.address_lists) (some_lem p)
        (require_rule_list-IsRuleList g prefix rule w.address_lists l v.lists_dict v.lists_keyed e3)
    where
      some_lem : {x y : Target} → some x ≡ some y → x ≡ y
      some_lem q = cc
  resolve_add_target-IsTarget none notice w t v h =
      let (found, e1, h1) =
        >>=-eq-ok (candidates g prefix notice w.address_lists (values w.rules)) _ h in
      unambiguous-IsTarget w.address_lists found t
        (candidates-IsTarget notice w.address_lists (values w.rules) found v.lists_dict
          v.lists_keyed e1)
        h1

  add_to-Moves :
      (a : AddBlockedEntries) (w w' : Working) (o : Option Target)
      → All Injected w.identifiers
      → ((t : Target) → o ≡ some t → IsTarget w.address_lists t)
      → add_to g prefix a w o ≡ ok w'
      → Moves g prefix Injected w w'
  unfolding add_to
  add_to-Moves a w w' none inj q h =
      create_rule-Moves a.entries a.rejection_notice a.target_ou [] true w w' inj h
  add_to-Moves a w w' (some (rule, l)) inj q h =
      elim (if_cases (other_notice a.rejection_notice rule.rejection_notice) h) [
        | inl (_, e) ↦ create_rule-Moves a.entries a.rejection_notice a.target_ou [] true w w' inj e
        | inr (_, e) ↦
            let target = q (rule, l) refl in
            subst (Moves g prefix Injected w) (ok-injective e)
              (edited_list g prefix Injected w l _ target.found target.owned refl)
      ]

  pub apply_add-Moves :
      (a : AddBlockedEntries) (w w' : Working)
      → IsWorking w
      → All Injected w.identifiers
      → apply_add g prefix a w ≡ ok w'
      → Moves g prefix Injected w w'
  unfolding apply_add
  apply_add-Moves a w w' v inj h =
      let (o, e1, h1) =
        >>=-eq-ok (resolve_add_target g prefix a.target_rule_id a.rejection_notice w) _ h in
      add_to-Moves a w w' o inj
        (λ t p.
          resolve_add_target-IsTarget a.target_rule_id a.rejection_notice w t v (e1 ∙ ap ok p))
        h1
