-- ===== src/Schemas/Compliance/Tests.antt =====
-- A content-compliance draft at concrete values: spaces are stripped, and an inherited rule is on.
use google_workspace_gmail_a.Common.{
  ℕ, String, true, false, none, some, [], ◌∷◌, ◌≡◌, refl, ok, err, value_error, strip, split_on,
  ends_with,
}
use google_workspace_gmail_a.Schemas.Compliance.{
  advanced, subject, contains_value, bypass, ComplianceExpression, AddressListCondition,
  ContentComplianceRuleDraft, validate_managed,
}
use google_workspace_gmail_a.Schemas.Compliance.Build.{build_draft, build_managed}
use google_workspace_gmail_a.Schemas.Compliance.Rebuilt.{build_draft_again}
use google_workspace_gmail_a.ComplianceState.Tests.{draft_of}

abbrev condition_of : String → AddressListCondition
condition_of name = record { mode = bypass; address_list_names = name ∷ [] }

abbrev match_of : String → ComplianceExpression
match_of text = advanced (record {
  location = subject;
  match_type = contains_value;
  value = some text;
  regex_description = none;
  minimum_match_count = 1;
})

abbrev given : ContentComplianceRuleDraft
given = record (draft_of (match_of " spam " ∷ []) false true) {
  target_ou = record { path = " /sales "; organization_id = none };
  address_list_condition = some (condition_of " partners ");
}

abbrev built : ContentComplianceRuleDraft
built = record (draft_of (match_of "spam" ∷ []) true true) {
  target_ou = record { path = "/sales"; organization_id = none };
  address_list_condition = some (condition_of "partners");
}

given-built : build_draft (λ s. s) given ≡ ok built
unfolding build_draft strip split_on ends_with
given-built = refl

-- A notice that names the policy is refused.
disclosing :
    build_draft
      (λ s. s)
      (record given {
        rejection_notice = record given.rejection_notice { text = "Refused by P-1." };
      })
    ≡ err value_error
unfolding build_draft strip split_on ends_with
disclosing = refl

build_draft-again_example :
    (build_draft (λ s. s) built ≡ ok built)
    × ((id : ℕ) (name : String)
        → build_managed (λ s. s) (record { draft = built; ownership_id = id; display_name = name })
          ≡ validate_managed (record { draft = built; ownership_id = id; display_name = name }))
build_draft-again_example = build_draft_again (λ s. s) given built given-built
