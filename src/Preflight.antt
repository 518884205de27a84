-- ===== src/Preflight.antt =====
-- domain/preflight.py and schemas/preflight.py: who is signed in, to which Workspace, with which
-- privilege, on which page. `str.lower` and `str.casefold` are arguments: they are Unicode tables.
pub mod Established
pub mod Tests
use google_workspace_gmail_a.Common.{
  String, Bool, true, false, not, ◌||◌, Option, none, some, if◌then◌else◌, ◌=s=◌, Result, ok,
  value_error, raise_if, ◌>>◌, is_blank,
}

pub data AuthenticationState : Type 0 where
  authenticated login_required account_chooser two_step_verification session_expired :
      AuthenticationState

-- The reason of a login is the state that was seen, or `identity_absent`.
pub data LoginReason : Type 0 where
  as_seen : AuthenticationState → LoginReason
  identity_absent : LoginReason

pub record AdminConsoleObservation : Type 0 where
  pub host : String
  pub authentication_state : AuthenticationState
  pub administrator_email : Option String
  pub workspace_domain : Option String
  pub has_gmail_settings_privilege : Option Bool
  pub gmail_settings_context_confirmed : Bool
  pub blocked_senders_context_confirmed : Bool
  pub target_ou : Option String

-- `target_ou` has one admissible value.
pub record PreflightIdentity : Type 0 where
  pub administrator_email : String
  pub workspace_domain : String

-- `needs_login` is the status "login_required".
pub data PreflightStatus : Type 0 where
  ready needs_login failed : PreflightStatus

pub record PreflightResult : Type 0 where
  pub status : PreflightStatus
  pub identity : Option PreflightIdentity
  pub reason_code : Option String
  pub login_reason : Option LoginReason

abbrev is_none {ℓ} : {A : Type ℓ} → Option A → Bool
is_none none = true
is_none (some a) = false

abbrev has_reason : Option String → Bool
has_reason none = false
has_reason (some code) = not (is_blank code)

-- `validate_outcome_evidence`
unfoldable pub validate_outcome : PreflightResult → Result PreflightResult
validate_outcome r = elim r.status [
  | ready ↦
      raise_if (is_none r.identity || has_reason r.reason_code || not (is_none r.login_reason))
        value_error
      >> ok r
  | needs_login ↦
      raise_if (not (is_none r.identity)) value_error
      >> raise_if (is_none r.login_reason || has_reason r.reason_code) value_error
      >> ok r
  | failed ↦
      raise_if (not (is_none r.identity)) value_error
      >> raise_if (not (has_reason r.reason_code) || not (is_none r.login_reason)) value_error
      >> ok r
]

abbrev pub login : LoginReason → Result PreflightResult
login reason = validate_outcome (record {
  status = needs_login;
  identity = none;
  reason_code = none;
  login_reason = some reason;
})

abbrev pub refused : String → Result PreflightResult
refused code =
    validate_outcome
      (record { status = failed; identity = none; reason_code = some code; login_reason = none })

abbrev pub is_authenticated : AuthenticationState → Bool
is_authenticated authenticated = true
is_authenticated _ = false

-- `value is True`
abbrev pub is_true : Option Bool → Bool
is_true (some b) = b
is_true none = false

-- `target_ou == "/"`
abbrev pub is_root : Option String → Bool
is_root (some ou) = ou =s= "/"
is_root none = false

-- the tests of the privilege, the page and the unit
abbrev pub evaluate_context : AdminConsoleObservation → String → String → Result PreflightResult
evaluate_context o email domain =
    if not (is_true o.has_gmail_settings_privilege)
    then refused "insufficient_gmail_settings_privilege"
    else if not o.gmail_settings_context_confirmed
    then refused "gmail_settings_context_not_confirmed"
    else if not o.blocked_senders_context_confirmed
    then refused "blocked_senders_context_not_confirmed"
    else if not (is_root o.target_ou)
    then refused "root_ou_not_confirmed"
    else validate_outcome (record {
      status = ready;
      identity = some (record { administrator_email = email; workspace_domain = domain });
      reason_code = none;
      login_reason = none;
    })

module _ (lower casefold : String → String) where
  -- the tests of the Workspace, once the administrator is known
  abbrev pub evaluate_workspace : AdminConsoleObservation → String → String → Result PreflightResult
  evaluate_workspace o email expected_domain = elim o.workspace_domain [
    | none ↦ refused "workspace_identity_absent"
    | some domain ↦
        if not (casefold domain =s= casefold expected_domain)
        then refused "workspace_identity_mismatch"
        else evaluate_context o email domain
  ]

  -- the tests of the administrator
  abbrev pub evaluate_administrator :
      AdminConsoleObservation → String → String → Result PreflightResult
  evaluate_administrator o expected_email expected_domain = elim o.administrator_email [
    | none ↦ login identity_absent
    | some email ↦
        if not (casefold email =s= casefold expected_email)
        then refused "wrong_administrator"
        else evaluate_workspace o email expected_domain
  ]

  -- `evaluate_preflight`
  unfoldable pub evaluate_preflight :
      AdminConsoleObservation → String → String → Result PreflightResult
  unfolding validate_outcome
  evaluate_preflight o expected_email expected_domain =
      if not (is_authenticated o.authentication_state)
      then login (as_seen o.authentication_state)
      else if not (lower o.host =s= "admin.google.com")
      then refused "unexpected_admin_console_host"
      else evaluate_administrator o expected_email expected_domain
