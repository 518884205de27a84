-- ===== src/Schemas/Compliance/Build.antt =====
-- schemas/compliance.py: a draft and a managed rule that are built from dumped values, all of their
-- parts included. `str.casefold` is an argument: it is a Unicode table.
use Prim.Native.Char.{code}
use google_workspace_gmail_a.Common.{
  ℕ, String, Bool, true, false, not, ◌&&◌, ◌||◌, Option, none, some, List, [], ◌∷◌, leb, length,
  ◌==◌, Result, ok, value_error, raise_if, ◌>>=◌, ◌>>◌,
}
use google_workspace_gmail_a.Schemas.Resources.{is_within, has_text}
use google_workspace_gmail_a.Schemas.Compliance.{
  ComplianceExpression, simple, advanced, metadata, predefined, PredefinedContentMatch,
  AddressListCondition, EnvelopeFilter, PersonaProfile, GeneratedRejectionNotice,
  ContentComplianceRuleDraft, ManagedContentComplianceRule, validate_ou, validate_advanced,
  validate_metadata, validate_condition, validate_draft, is_count,
}

-- the bounds of `PredefinedContentMatch`
abbrev pub is_predefined : PredefinedContentMatch → Bool
is_predefined p =
    is_within 1 500 p.detector
    && is_count p.minimum_match_count
    && is_within 1 200 p.required_edition_capability

-- an expression, by its discriminator
unfoldable pub validate_expression : ComplianceExpression → Result ComplianceExpression
unfolding validate_advanced validate_metadata
validate_expression (simple content) =
    raise_if (not (is_within 1 10000 content)) value_error >> ok (simple content)
validate_expression (advanced m) = validate_advanced m >>= λ n. ok (advanced n)
validate_expression (metadata m) = validate_metadata m >>= λ n. ok (metadata n)
validate_expression (predefined p) =
    raise_if (not (is_predefined p)) value_error >> ok (predefined p)

unfoldable pub validate_all : List ComplianceExpression → Result (List ComplianceExpression)
unfolding validate_expression
validate_all [] = ok []
validate_all (e ∷ es) = do first ← validate_expression e; rest ← validate_all es; ok (first ∷ rest)

-- the bound of `EnvelopeFilter.value`
abbrev pub are_filters : List EnvelopeFilter → Bool
are_filters [] = true
are_filters (f ∷ filters) = is_within 1 10000 f.value && are_filters filters

abbrev pub is_age : Option ℕ → Bool
is_age none = true
is_age (some age) = leb 21 age && leb age 79

-- the bounds of `PersonaProfile`
abbrev pub is_persona : PersonaProfile → Bool
is_persona p =
    is_within 1 120 p.fictional_role
    && (leb 1 (length p.traits) && leb (length p.traits) 6)
    && is_within 1 200 p.voice
    && is_within 1 200 p.motif
    && is_age p.age
    && is_within 0 120 p.occupation
    && is_within 0 160 p.location
    && leb (length p.goals) 2
    && is_within 0 200 p.personality
    && is_within 0 120 p.time_period
    && is_within 0 80 p.current_mood
    && is_within 0 40 p.alignment
    && is_within 0 40 p.delivery_style

abbrev is_upper : ℕ → Bool
is_upper n = leb 65 n && leb n 90

-- `[A-Z0-9-]*`
abbrev is_id_tail : String → Bool
is_id_tail String.[] = true
is_id_tail (String.◌∷◌ c s) =
    (is_upper (code c) || (leb 48 (code c) && leb (code c) 57) || code c == 45) && is_id_tail s

-- `^[A-Z][A-Z0-9-]{2,63}$`
abbrev pub is_policy_id : String → Bool
is_policy_id String.[] = false
is_policy_id (String.◌∷◌ c s) = is_upper (code c) && is_within 2 63 s && is_id_tail s

-- a condition that may be left out
unfoldable pub validate_conditions :
    Option AddressListCondition → Result (Option AddressListCondition)
unfolding validate_condition
validate_conditions none = ok none
validate_conditions (some condition) = validate_condition condition >>= λ built. ok (some built)

module _ (casefold : String → String) where
  -- `GeneratedRejectionNotice`, with `keep_internal_policy_id_out_of_notice`
  abbrev pub is_notice : GeneratedRejectionNotice → Bool
  is_notice n =
      is_within 1 1000 n.text
      && is_within 1 120 n.policy_category
      && is_policy_id n.policy_id
      && is_persona n.persona
      && not (has_text (casefold n.policy_id) (casefold n.text))

  -- `ContentComplianceRuleDraft(**values)`
  unfoldable pub build_draft : ContentComplianceRuleDraft → Result ContentComplianceRuleDraft
  unfolding validate_ou validate_all validate_conditions validate_draft
  build_draft d = do
    target_ou ← validate_ou d.target_ou
    expressions ← validate_all d.expressions
    raise_if (not (is_notice d.rejection_notice)) value_error
    address_list_condition ← validate_conditions d.address_list_condition
    raise_if (not (are_filters d.envelope_filters)) value_error
    validate_draft (record d {
      target_ou = target_ou;
      expressions = expressions;
      address_list_condition = address_list_condition;
    })

  -- `ManagedContentComplianceRule(**values)`
  unfoldable pub build_managed : ManagedContentComplianceRule → Result ManagedContentComplianceRule
  unfolding build_draft
  build_managed r = do
    raise_if (not (is_within 1 200 r.display_name)) value_error
    draft ← build_draft r.draft
    ok (record r { draft = draft })
