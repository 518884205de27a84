-- ===== src/Schemas/Equality.antt =====
-- `==` of pydantic models: two of one class are equal if their fields are.
use google_workspace_gmail_a.Common.{String, Bool, true, false, ◌≡◌, refl, sym, ◌∙◌, ◌=s=◌, eq_iff}
use native.Mathlib.Decide.{ℕ_discrete}
use google_workspace_gmail_a.Schemas.Resources.{ManagedAddressList, ManagedBlockedSenderRule}
use google_workspace_gmail_a.Schemas.Compliance.{ManagedContentComplianceRule}

text_decided : (s t : String) (b : Bool) → (s =s= t) ≡ b → Dec (s ≡ t)
text_decided s t true h = yes ((eq_iff s t).0 h)
text_decided s t false h = no (λ e. let clash = sym h ∙ (eq_iff s t).1 e in cc)

unfoldable pub String-discrete : Discrete String
unfolding text_decided
String-discrete s t = text_decided s t (s =s= t) refl

unfoldable pub ManagedAddressList-discrete : Discrete ManagedAddressList
ManagedAddressList-discrete = hlevel (ℕ_discrete, String-discrete)

unfoldable pub ManagedBlockedSenderRule-discrete : Discrete ManagedBlockedSenderRule
ManagedBlockedSenderRule-discrete = hlevel (ℕ_discrete, String-discrete)

unfoldable pub ManagedContentComplianceRule-discrete : Discrete ManagedContentComplianceRule
ManagedContentComplianceRule-discrete = hlevel (ℕ_discrete, String-discrete)
