-- ===== src/Preflight/Tests.antt =====
-- domain/preflight.py at concrete observations.
use google_workspace_gmail_a.Common.{String, true, some, ◌≡◌, refl}
use google_workspace_gmail_a.Preflight.{
  AdminConsoleObservation, authenticated, evaluate_preflight, validate_outcome, refused,
}
use google_workspace_gmail_a.Preflight.Established.{
  IsEstablished, established, is_ready, evaluate_preflight-of_IsEstablished,
  evaluate_preflight-IsEstablished,
}

abbrev same : String → String
same s = s

abbrev seen : AdminConsoleObservation
seen = record {
  host = "admin.google.com";
  authentication_state = authenticated;
  administrator_email = some "admin@example.com";
  workspace_domain = some "example.com";
  has_gmail_settings_privilege = some true;
  gmail_settings_context_confirmed = true;
  blocked_senders_context_confirmed = true;
  target_ou = some "/";
}

abbrev evidence :
    IsEstablished same same "admin@example.com" "example.com" seen "admin@example.com" "example.com"
evidence = record {
  signed_in = refl;
  console = refl;
  seen_email = refl;
  administrator = refl;
  seen_domain = refl;
  workspace = refl;
  privilege = refl;
  settings_page = refl;
  senders_page = refl;
  root = refl;
}

runs : Unit {0}
unfolding evaluate_preflight validate_outcome
runs = tt

elsewhere :
    evaluate_preflight same same
      (record seen { target_ou = some "/sales" })
      "admin@example.com"
      "example.com"
    ≡ refused "root_ou_not_confirmed"
unfolding runs
elsewhere = refl

ready_run : is_ready (evaluate_preflight same same seen "admin@example.com" "example.com") ≡ true
unfolding runs
ready_run = refl

of_IsEstablished_example :
    evaluate_preflight same same seen "admin@example.com" "example.com"
    ≡ established same same "admin@example.com" "example.com" "admin@example.com" "example.com"
of_IsEstablished_example =
    evaluate_preflight-of_IsEstablished same same "admin@example.com" "example.com" seen
      "admin@example.com" "example.com" evidence

IsEstablished_example :
    (email : String) × (domain : String) × IsEstablished same same "admin@example.com" "example.com"
      seen email domain
IsEstablished_example =
    evaluate_preflight-IsEstablished same same "admin@example.com" "example.com" seen ready_run
