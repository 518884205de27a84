-- ===== src/Preflight/Established.antt =====
-- domain/preflight.py: what a preflight that is `ready` has established.
use google_workspace_gmail_a.Common.{
  String, Bool, true, false, not, Option, none, some, ◌≡◌, refl, ap, Result, ok, err, if◌then◌else◌,
  Option-cases, Bool-cases, is_blank, inl, inr, eq_iff, ◌=s=◌, arith,
}
use google_workspace_gmail_a.Preflight.{
  AuthenticationState, authenticated, AdminConsoleObservation, PreflightResult, ready,
  validate_outcome, refused, is_authenticated, is_true, is_root, evaluate_context,
  evaluate_workspace, evaluate_administrator, evaluate_preflight,
}

module _ (lower casefold : String → String) (expected_email expected_domain : String) where
  -- All the evidence: the console's host, the expected administrator and Workspace, the privilege,
  -- both pages and the root unit.
  pub record IsEstablished (o : AdminConsoleObservation) (email domain : String) : Type 0 where
    pub signed_in : o.authentication_state ≡ authenticated
    pub console : lower o.host ≡ "admin.google.com"
    pub seen_email : o.administrator_email ≡ some email
    pub administrator : casefold email ≡ casefold expected_email
    pub seen_domain : o.workspace_domain ≡ some domain
    pub workspace : casefold domain ≡ casefold expected_domain
    pub privilege : o.has_gmail_settings_privilege ≡ some true
    pub settings_page : o.gmail_settings_context_confirmed ≡ true
    pub senders_page : o.blocked_senders_context_confirmed ≡ true
    pub root : o.target_ou ≡ some "/"

  abbrev pub established : String → String → Result PreflightResult
  established email domain = ok (record {
    status = ready;
    identity = some (record { administrator_email = email; workspace_domain = domain });
    reason_code = none;
    login_reason = none;
  })

  affirmed : (b : Bool) → not b ≡ false → b ≡ true
  affirmed b h = ground arith

  signed_in_of : (s : AuthenticationState) → is_authenticated s ≡ true → s ≡ authenticated
  signed_in_of authenticated h = refl
  signed_in_of AuthenticationState.login_required h = cc
  signed_in_of AuthenticationState.account_chooser h = cc
  signed_in_of AuthenticationState.two_step_verification h = cc
  signed_in_of AuthenticationState.session_expired h = cc

  true_of : (b : Option Bool) → is_true b ≡ true → b ≡ some true
  true_of none h = cc
  true_of (some b) h = rw h

  root_of : (ou : Option String) → is_root ou ≡ true → ou ≡ some "/"
  root_of none h = cc
  root_of (some s) h = ap some ((eq_iff s "/").0 h)

  -- With the whole evidence, and the email and domain that were seen, the preflight is ready.
  pub evaluate_preflight-of_IsEstablished :
      (o : AdminConsoleObservation) (email domain : String)
      → IsEstablished o email domain
      → evaluate_preflight lower casefold o expected_email expected_domain
        ≡ established email domain
  unfolding evaluate_preflight validate_outcome
  evaluate_preflight-of_IsEstablished o email domain e =
      let host = (eq_iff (lower o.host) "admin.google.com").1 e.console in
      let administrator = (eq_iff (casefold email) (casefold expected_email)).1 e.administrator in
      let workspace = (eq_iff (casefold domain) (casefold expected_domain)).1 e.workspace in
      rw (
        e.signed_in, host, e.seen_email, administrator, e.seen_domain, workspace, e.privilege,
        e.settings_page, e.senders_page, e.root,
      )

-- The call returned a result that is ready.
abbrev pub is_ready : Result PreflightResult → Bool
is_ready (ok r) = elim r.status [ ready ↦ true | _ ↦ false ]
is_ready (err e) = false

refused_never : (code : String) → is_ready (refused code) ≡ true → ⊥
unfolding validate_outcome
refused_never code h = elim (Bool-cases (is_blank code)) [
  | inl e ↦ let shown = rw e at h in cc
  | inr e ↦ let shown = rw e at h in cc
]

ready_if :
    (test : Bool) (code : String) (rest : Result PreflightResult)
    → is_ready (if not test then refused code else rest) ≡ true
    → (test ≡ true) × (is_ready rest ≡ true)
ready_if true code rest h = (refl, h)
ready_if false code rest h = absurd (refused_never code h)

module _ (lower casefold : String → String) (expected_email expected_domain : String)
    (o : AdminConsoleObservation) where
  abbrev Established : Type 0
  Established =
      (email : String) × (domain : String) × IsEstablished lower casefold expected_email
        expected_domain o email domain

  signed_in_first :
      is_ready (evaluate_preflight lower casefold o expected_email expected_domain) ≡ true
      → (is_authenticated o.authentication_state ≡ true)
        × (is_ready (
              if not (lower o.host =s= "admin.google.com")
              then refused "unexpected_admin_console_host"
              else evaluate_administrator lower casefold o expected_email expected_domain)
            ≡ true)
  unfolding evaluate_preflight validate_outcome
  signed_in_first h = elim (Bool-cases (is_authenticated o.authentication_state)) [
    | inl e ↦ (e, rw e at h)
    | inr e ↦ let shown = rw e at h in cc
  ]

  email_first :
      is_ready (evaluate_administrator lower casefold o expected_email expected_domain) ≡ true
      → (email : String) × (o.administrator_email ≡ some email)
        × (is_ready (
              if not (casefold email =s= casefold expected_email)
              then refused "wrong_administrator"
              else evaluate_workspace lower casefold o email expected_domain)
            ≡ true)
  unfolding validate_outcome
  email_first h = elim (Option-cases o.administrator_email) [
    | inl e ↦ let shown = rw e at h in cc
    | inr (email, e) ↦ (email, e, rw e at h)
  ]

  domain_first :
      (email : String)
      → is_ready (evaluate_workspace lower casefold o email expected_domain) ≡ true
      → (domain : String) × (o.workspace_domain ≡ some domain)
        × (is_ready (
              if not (casefold domain =s= casefold expected_domain)
              then refused "workspace_identity_mismatch"
              else evaluate_context o email domain)
            ≡ true)
  domain_first email h = elim (Option-cases o.workspace_domain) [
    | inl e ↦ absurd (refused_never "workspace_identity_absent" (rw e at h))
    | inr (domain, e) ↦ (domain, e, rw e at h)
  ]

  -- A preflight is ready only with the whole evidence: the console's host, the expected
  -- administrator and Workspace up to case, the privilege, both pages and the root unit.
  pub evaluate_preflight-IsEstablished :
      is_ready (evaluate_preflight lower casefold o expected_email expected_domain) ≡ true
      → Established
  evaluate_preflight-IsEstablished h =
      let (signed_in, a) = signed_in_first h in
      let (host, b) = ready_if (lower o.host =s= "admin.google.com") _ _ a in
      let (email, seen_email, c) = email_first b in
      let (administrator, d) = ready_if (casefold email =s= casefold expected_email) _ _ c in
      let (domain, seen_domain, f) = domain_first email d in
      let (workspace, g) = ready_if (casefold domain =s= casefold expected_domain) _ _ f in
      let (privilege, i) = ready_if (is_true o.has_gmail_settings_privilege) _ _ g in
      let (settings_page, j) = ready_if o.gmail_settings_context_confirmed _ _ i in
      let (senders_page, k) = ready_if o.blocked_senders_context_confirmed _ _ j in
      let (root, l) = ready_if (is_root o.target_ou) _ _ k in
      (
        email,
        domain,
        record {
          signed_in =
              signed_in_of lower casefold expected_email expected_domain o.authentication_state
                signed_in;
          console = (eq_iff (lower o.host) "admin.google.com").0 host;
          seen_email = seen_email;
          administrator = (eq_iff (casefold email) (casefold expected_email)).0 administrator;
          seen_domain = seen_domain;
          workspace = (eq_iff (casefold domain) (casefold expected_domain)).0 workspace;
          privilege =
              true_of lower casefold expected_email expected_domain o.has_gmail_settings_privilege
                privilege;
          settings_page = settings_page;
          senders_page = senders_page;
          root = root_of lower casefold expected_email expected_domain o.target_ou root;
        },
      )
