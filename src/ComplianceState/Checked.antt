-- ===== src/ComplianceState/Checked.antt =====
-- domain/compliance_desired_state.py and domain/regex_validation.py: what the test of the
-- expressions of a rule establishes.
use Prim.Native.String
use google_workspace_gmail_a.Common.{
  ℕ, ◌≤◌, String, Bool, true, false, not, ◌||◌, leb, Option, none, some, List, [], ◌∷◌, ◌≡◌, refl,
  All, arith, is_blank, mem_text, value_error, ambiguous_target, raise_if, raise_if-eq-ok, >>-eq-ok,
  ok,
}
use google_workspace_gmail_a.Schemas.Compliance.{
  AdvancedMatchType, matches_regex, not_matches_regex, ComplianceExpression, simple, advanced,
  metadata, predefined,
}
use google_workspace_gmail_a.ComplianceState.{
  validate_google_regex, validate_pattern, validate_expression_regex, validate_expressions,
  required_capability, lacks_capability,
}

module _ (compiles : String → Bool) where
  -- There is a pattern; it is not blank, it has at most 10,000 characters, and RE2 compiles it.
  abbrev pub IsPattern : Option String → Type 0
  IsPattern none = ⊥
  IsPattern (some pattern) =
      (is_blank pattern ≡ false) × (String.count pattern ≤ 10000) × (compiles pattern ≡ true)

  -- The value of a match by a regular expression is such a pattern.
  abbrev pub IsMatchable : AdvancedMatchType → Option String → Type 0
  IsMatchable matches_regex value = IsPattern value
  IsMatchable not_matches_regex value = IsPattern value
  IsMatchable _ value = Unit

  -- The regular expression is one that compiles; the detector's capability is available.
  abbrev pub IsChecked : List String → ComplianceExpression → Type 0
  IsChecked available (simple content) = Unit
  IsChecked available (advanced m) = IsMatchable m.match_type m.value
  IsChecked available (metadata m) = Unit
  IsChecked available (predefined p) = mem_text p.required_edition_capability available ≡ true

  validate_pattern-IsPattern :
      (value : Option String) (pattern : String)
      → validate_pattern compiles value ≡ ok pattern
      → IsPattern value
  unfolding validate_google_regex
  validate_pattern-IsPattern none pattern h = cc
  validate_pattern-IsPattern (some text) pattern h =
      let bounds = is_blank text || not (leb (String.count text) 10000) in
      let (_, short, e) = >>-eq-ok (raise_if bounds value_error) _ h in
      let (_, known, _) = >>-eq-ok (raise_if (not (compiles text)) value_error) _ e in
      let (filled, fits) =
        both (is_blank text) (leb (String.count text) 10000) (raise_if-eq-ok _ value_error short) in
      (
        filled,
        bound (String.count text) fits,
        positive (compiles text) (raise_if-eq-ok _ value_error known),
      )
    where
      both : (a b : Bool) → (a || not b) ≡ false → (a ≡ false) × (b ≡ true)
      both a b p = ground arith

      bound : (n : ℕ) → leb n 10000 ≡ true → n ≤ 10000
      bound n p = ground arith

      positive : (a : Bool) → not a ≡ false → a ≡ true
      positive a p = ground arith

  regex-IsChecked :
      (available : List String) (e checked : ComplianceExpression)
      → validate_expression_regex compiles e ≡ ok checked
      → lacks_capability (required_capability e) available ≡ false
      → IsChecked available e
  unfolding validate_expression_regex
  regex-IsChecked available (simple content) checked h has = tt
  regex-IsChecked available (metadata m) checked h has = tt
  regex-IsChecked available (predefined p) checked h has = present _ has
    where
      present : (a : Bool) → not a ≡ false → a ≡ true
      present a q = ground arith
  regex-IsChecked available (advanced m) checked h has = by_type m.match_type refl
    where
      by_type : (t : AdvancedMatchType) → m.match_type ≡ t → IsMatchable t m.value
      by_type matches_regex e =
          let (pattern, passed, _) = >>-eq-ok (validate_pattern compiles m.value) _ (rw e at h) in
          validate_pattern-IsPattern m.value pattern passed
      by_type not_matches_regex e =
          let (pattern, passed, _) = >>-eq-ok (validate_pattern compiles m.value) _ (rw e at h) in
          validate_pattern-IsPattern m.value pattern passed
      by_type _ e = tt

  -- Expressions that pass the test ask for nothing that is missing.
  pub validate_expressions-IsChecked :
      (es : List ComplianceExpression) (available : List String)
      → validate_expressions compiles es available ≡ ok tt
      → All (IsChecked available) es
  unfolding validate_expressions
  validate_expressions-IsChecked [] available h = tt
  validate_expressions-IsChecked (e ∷ es) available h =
      let (checked, first, e1) = >>-eq-ok (validate_expression_regex compiles e) _ h in
      let lacking = lacks_capability (required_capability e) available in
      let (_, capable, e2) = >>-eq-ok (raise_if lacking ambiguous_target) _ e1 in
      (
        regex-IsChecked available e checked first (raise_if-eq-ok _ ambiguous_target capable),
        validate_expressions-IsChecked es available e2,
      )
