-- ===== src/Schemas/Compliance/Rebuilt.antt =====
-- schemas/compliance.py: `ManagedContentComplianceRule(**draft.model_dump(), ...)`, which
-- domain/compliance_desired_state.py calls with a draft that was built.
use google_workspace_gmail_a.Common.{
  ℕ, String, Bool, true, false, not, ◌≡◌, refl, sym, ap, ◌∙◌, subst, leb, map, ok, ◌||◌, >>=-eq-ok,
  ok-injective, if◌then◌else◌, is_empty, length,
}
use google_workspace_gmail_a.Schemas.State.{has_duplicate_ids}
use google_workspace_gmail_a.Schemas.Compliance.{
  ContentComplianceRuleDraft, validate_ou, validate_draft, validate_managed, direction_rank,
}
use google_workspace_gmail_a.Schemas.Compliance.Build.{
  validate_all, validate_conditions, are_filters, is_notice, build_draft, build_managed,
}
use google_workspace_gmail_a.Schemas.Compliance.Again.{
  passed, validate_ou_again, validate_all_again, validate_conditions_again, validate_draft_again,
}

-- the fields that `validate_rule` leaves
record KeepsParts (a b : ContentComplianceRuleDraft) : Type 0 where
  target_ou : b.target_ou ≡ a.target_ou
  expressions : b.expressions ≡ a.expressions
  notice : b.rejection_notice ≡ a.rejection_notice
  condition : b.address_list_condition ≡ a.address_list_condition
  filters : b.envelope_filters ≡ a.envelope_filters

validate_draft-KeepsParts :
    (a b : ContentComplianceRuleDraft) → validate_draft a ≡ ok b → KeepsParts a b
unfolding validate_draft
validate_draft-KeepsParts a b h =
    let (_, h1) =
      passed (is_empty a.directions || has_duplicate_ids (map direction_rank a.directions)) _ h in
    let (_, h2) = passed (is_empty a.expressions || not (leb (length a.expressions) 10)) _ h1 in
    subst (KeepsParts a) (ok-injective h2) (chosen a.inherited)
  where
    chosen :
        (inherited : Bool) → KeepsParts a (if inherited then record a { enabled = true } else a)
    chosen true = record {
      target_ou = refl;
      expressions = refl;
      notice = refl;
      condition = refl;
      filters = refl;
    }
    chosen false = record {
      target_ou = refl;
      expressions = refl;
      notice = refl;
      condition = refl;
      filters = refl;
    }

module _ (casefold : String → String) where
  -- A draft is built again if each of its parts is.
  build_draft-of_parts :
      (d : ContentComplianceRuleDraft)
      → validate_ou d.target_ou ≡ ok d.target_ou
      → validate_all d.expressions ≡ ok d.expressions
      → not (is_notice casefold d.rejection_notice) ≡ false
      → validate_conditions d.address_list_condition ≡ ok d.address_list_condition
      → not (are_filters d.envelope_filters) ≡ false
      → validate_draft d ≡ ok d
      → build_draft casefold d ≡ ok d
  unfolding build_draft
  build_draft-of_parts d ou expressions notice condition filters draft =
      rw (ou, expressions, notice, condition, filters, draft) refl

  -- A draft that was built is built from its dump again, unchanged; and the managed rule that is
  -- built from its dump is the one that the validator of the rule alone returns, under any ID and
  -- name, the refusals included.
  pub build_draft_again :
      (given draft : ContentComplianceRuleDraft)
      → build_draft casefold given ≡ ok draft
      → (build_draft casefold draft ≡ ok draft)
        × ((id : ℕ) (name : String)
            → build_managed casefold
                (record { draft = draft; ownership_id = id; display_name = name })
              ≡ validate_managed (record { draft = draft; ownership_id = id; display_name = name }))
  unfolding build_draft build_managed validate_managed
  build_draft_again given draft h =
      let (ou, m1, h1) = >>=-eq-ok (validate_ou given.target_ou) _ h in
      let (expressions, m2, h2) = >>=-eq-ok (validate_all given.expressions) _ h1 in
      let (notice, h3) = passed (not (is_notice casefold given.rejection_notice)) _ h2 in
      let (condition, m4, h4) = >>=-eq-ok (validate_conditions given.address_list_condition) _ h3 in
      let (filters, h5) = passed (not (are_filters given.envelope_filters)) _ h4 in
      let whole : ContentComplianceRuleDraft = record given {
        target_ou = ou;
        expressions = expressions;
        address_list_condition = condition;
      } in
      let parts = validate_draft-KeepsParts whole draft h5 in
      let valid = validate_draft_again whole draft h5 in
      let again =
        build_draft-of_parts draft
          (subst (λ x. validate_ou x ≡ ok x) (sym parts.target_ou)
            (validate_ou_again given.target_ou ou m1))
          (subst (λ x. validate_all x ≡ ok x) (sym parts.expressions)
            (validate_all_again given.expressions expressions m2))
          (ap (λ x. not (is_notice casefold x)) parts.notice ∙ notice)
          (subst (λ x. validate_conditions x ≡ ok x) (sym parts.condition)
            (validate_conditions_again given.address_list_condition condition m4))
          (ap (λ x. not (are_filters x)) parts.filters ∙ filters) valid in
      (again, (λ id name. rw (again, valid) refl))
