-- ===== src/Schemas/Compliance/Again.antt =====
-- schemas/compliance.py: a model that was built is built again from what it dumps, unchanged.
use Prim.Native.String
use Prim.Native.String.count
use google_workspace_gmail_a.Common.{
  ℕ, ◌≤◌, String, Bool, true, false, not, ◌&&◌, ◌||◌, Option, none, some, List, [], ◌∷◌, ◌≡◌, refl,
  sym, ap, ◌∙◌, subst, leb, map, select, Result, ok, value_error, raise_if, ◌>>◌, >>-eq-ok,
  >>=-eq-ok, raise_if-eq-ok, ok-injective, is_blank, strip, strip_again, strip-le, Bool-cases, inl,
  inr, arith, ◌==◌, length, if◌then◌else◌, is_empty, has_duplicates, mem_text,
}
use google_workspace_gmail_a.Schemas.Resources.{is_within}
use google_workspace_gmail_a.Schemas.State.{has_duplicate_ids}
use google_workspace_gmail_a.Schemas.Compliance.{
  OrganizationalUnitRef, AdvancedContentMatch, MetadataMatch, AddressListCondition,
  ComplianceExpression, simple, advanced, metadata, predefined, ContentComplianceRuleDraft,
  validate_ou, validate_advanced, validate_metadata, validate_condition, validate_draft, is_count,
  is_optional_within, is_malformed_path, has_traversal, strip_value, is_given, is_empty_operator,
  is_regex_operator, metadata_operators, needs_value, differ, direction_rank,
}
use google_workspace_gmail_a.Schemas.Compliance.Build.{
  validate_expression, validate_all, validate_conditions, is_predefined,
}

pub both_not : (b : Bool) → not b ≡ false → b ≡ true
both_not b h = ground arith

and_parts : (b c : Bool) → (b && c) ≡ true → (b ≡ true) × (c ≡ true)
and_parts b c h = ground arith

or_parts : (b c : Bool) → (b || c) ≡ false → (b ≡ false) × (c ≡ false)
or_parts b c h = ground arith

-- What a passed test says, and what follows it.
pub passed :
    {A : Type 0} (b : Bool) (rest : Result A) {a : A}
    → (raise_if b value_error >> rest) ≡ ok a
    → (b ≡ false) × (rest ≡ ok a)
passed b rest h =
    let parts = >>-eq-ok (raise_if b value_error) rest h in
    (raise_if-eq-ok b value_error parts.1, parts.2)

-- A value that is returned as it is built is built again.
pub kept :
    {A : Type 0} (build : A → Result A) (c : A) {b : A}
    → ok c ≡ ok b
    → build c ≡ ok c
    → build b ≡ ok b
kept build c e h = subst (λ x. build x ≡ ok x) (ok-injective e) h

within_strip :
    (hi : ℕ) (s : String)
    → is_within 1 hi s ≡ true
    → is_blank (strip s) ≡ false
    → is_within 1 hi (strip s) ≡ true
within_strip hi s h given = sized (strip s) (strip-le s) given
  where
    sized :
        (t : String)
        → String.count t ≤ String.count s
        → is_blank t ≡ false
        → is_within 1 hi t ≡ true
    sized String.[] le given = cc
    sized (String.◌∷◌ c t) le given = ground (arith, count.cons c t)

blank_malformed : is_malformed_path String.[] ≡ true
blank_malformed = refl

not_blank : (path : String) → is_malformed_path path ≡ false → is_blank path ≡ false
not_blank String.[] h = let clash = sym blank_malformed ∙ h in cc
not_blank (String.◌∷◌ c s) h = refl

pub validate_ou_again : (a b : OrganizationalUnitRef) → validate_ou a ≡ ok b → validate_ou b ≡ ok b
unfolding validate_ou
validate_ou_again a b h =
    let (bounds, h1) = passed (not (is_within 1 1000 a.path)) _ h in
    let (id, h2) = passed (not (is_optional_within 1 256 a.organization_id)) _ h1 in
    let (shape, h3) = passed (is_malformed_path (strip a.path)) _ h2 in
    let (steps, h4) = passed (has_traversal (strip a.path)) _ h3 in
    let short = within_strip 1000 a.path (both_not _ bounds) (not_blank (strip a.path) shape) in
    kept validate_ou (record a { path = strip a.path }) h4
      (rw (short, id, strip_again a.path, shape, steps) refl)

strip_value_again : (v : Option String) → strip_value (strip_value v) ≡ strip_value v
strip_value_again none = refl
strip_value_again (some s) = ap some (strip_again s)

short_stripped :
    (hi : ℕ) (v : Option String)
    → is_optional_within 0 hi v ≡ true
    → is_optional_within 0 hi (strip_value v) ≡ true
short_stripped hi none h = refl
short_stripped hi (some s) h = ground (arith, strip-le s)

validate_advanced_again :
    (a b : AdvancedContentMatch) → validate_advanced a ≡ ok b → validate_advanced b ≡ ok b
unfolding validate_advanced
validate_advanced_again a b h =
    let empty_operator = is_empty_operator a.match_type in
    let value_ok = is_optional_within 0 10000 a.value in
    let regex_ok = is_optional_within 0 1000 a.regex_description in
    let (bounds, h1) = passed (not (value_ok && regex_ok && is_count a.minimum_match_count)) _ h in
    let (texts, count) =
      and_parts (value_ok && regex_ok) (is_count a.minimum_match_count) (both_not _ bounds) in
    let (value, regex) = and_parts value_ok regex_ok texts in
    let (empty, h2) = passed (empty_operator && is_given (strip_value a.value)) _ h1 in
    let (given, h3) = passed (not empty_operator && not (is_given (strip_value a.value))) _ h2 in
    let (plain, h4) =
      passed
        (not (is_regex_operator a.match_type)
          && (is_given a.regex_description || not (a.minimum_match_count == 1)))
        _ h3 in
    let short = short_stripped 10000 a.value value in
    kept validate_advanced (record a { value = strip_value a.value }) h4
      (rw (short, regex, count, strip_value_again a.value, empty, given, plain) refl)

validate_metadata_again :
    (a b : MetadataMatch) → validate_metadata a ≡ ok b → validate_metadata b ≡ ok b
unfolding validate_metadata
validate_metadata_again a b h =
    let (bounds, h1) =
      passed (not (is_within 1 100 a.operator && is_optional_within 0 1000 a.value)) _ h in
    let (operator, value) =
      and_parts (is_within 1 100 a.operator) (is_optional_within 0 1000 a.value)
        (both_not _ bounds) in
    let (known, h2) = passed (not (mem_text a.operator (metadata_operators a.attribute))) _ h1 in
    let (given, h3) =
      passed (differ (needs_value a.attribute) (is_given (strip_value a.value))) _ h2 in
    let short = short_stripped 1000 a.value value in
    kept validate_metadata (record a { value = strip_value a.value }) h3
      (rw (operator, short, known, strip_value_again a.value, given) refl)

abbrev stripped : List String → List String
stripped names = select (λ name. not (is_blank name)) (map strip names)

stripped_again : (names : List String) → stripped (stripped names) ≡ stripped names
stripped_again [] = refl
stripped_again (name ∷ names) = elim (Bool-cases (is_blank (strip name))) [
  | inl e ↦ rw e (stripped_again names)
  | inr e ↦ rw (e, strip_again name, e) (ap (λ rest. strip name ∷ rest) (stripped_again names))
]

validate_condition_again :
    (a b : AddressListCondition) → validate_condition a ≡ ok b → validate_condition b ≡ ok b
unfolding validate_condition
validate_condition_again a b h =
    let names = stripped a.address_list_names in
    let (test, h1) = passed (is_empty names || has_duplicates names) _ h in
    kept validate_condition (record a { address_list_names = names }) h1
      (rw (stripped_again a.address_list_names, test) refl)

pub validate_conditions_again :
    (a b : Option AddressListCondition)
    → validate_conditions a ≡ ok b
    → validate_conditions b ≡ ok b
unfolding validate_conditions
validate_conditions_again none b h = kept validate_conditions none h refl
validate_conditions_again (some a) b h =
    let (built, made, returned) = >>=-eq-ok (validate_condition a) _ h in
    kept validate_conditions (some built) returned (rw (validate_condition_again a built made) refl)

validate_expression_again :
    (a b : ComplianceExpression) → validate_expression a ≡ ok b → validate_expression b ≡ ok b
unfolding validate_expression
validate_expression_again (simple content) b h =
    let (short, returned) = passed (not (is_within 1 10000 content)) _ h in
    kept validate_expression (simple content) returned (rw short refl)
validate_expression_again (advanced m) b h =
    let (built, made, returned) = >>=-eq-ok (validate_advanced m) _ h in
    kept validate_expression (advanced built) returned
      (rw (validate_advanced_again m built made) refl)
validate_expression_again (metadata m) b h =
    let (built, made, returned) = >>=-eq-ok (validate_metadata m) _ h in
    kept validate_expression (metadata built) returned
      (rw (validate_metadata_again m built made) refl)
validate_expression_again (predefined p) b h =
    let (bounds, returned) = passed (not (is_predefined p)) _ h in
    kept validate_expression (predefined p) returned (rw bounds refl)

pub validate_all_again :
    (a b : List ComplianceExpression) → validate_all a ≡ ok b → validate_all b ≡ ok b
unfolding validate_all
validate_all_again [] b h = kept validate_all [] h refl
validate_all_again (a ∷ es) b h =
    let (first, made, h1) = >>=-eq-ok (validate_expression a) _ h in
    let (rest, others, h2) = >>=-eq-ok (validate_all es) _ h1 in
    kept validate_all (first ∷ rest) h2
      (rw (validate_expression_again a first made, validate_all_again es rest others) refl)

pub validate_draft_again :
    (a b : ContentComplianceRuleDraft) → validate_draft a ≡ ok b → validate_draft b ≡ ok b
unfolding validate_draft
validate_draft_again a b h =
    let (directions, h1) =
      passed (is_empty a.directions || has_duplicate_ids (map direction_rank a.directions)) _ h in
    let (expressions, h2) =
      passed (is_empty a.expressions || not (leb (length a.expressions) 10)) _ h1 in
    let chosen : (inherited : Bool) → ContentComplianceRuleDraft =
      λ inherited. if inherited then record a { enabled = true } else a in
    elim (Bool-cases a.inherited) [
      | inl e ↦
          kept validate_draft (record a { enabled = true })
            (ap (λ inherited. ok (chosen inherited)) (sym e) ∙ h2)
            (rw (directions, expressions, e) refl)
      | inr e ↦
          kept validate_draft a (ap (λ inherited. ok (chosen inherited)) (sym e) ∙ h2)
            (rw (directions, expressions, e) refl)
    ]
