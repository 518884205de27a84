-- ===== src/Propagation/Tests.antt =====
-- application/propagation_service.py at concrete records: created, rechecked, verified.
use google_workspace_gmail_a.Common.{String, some, [], ◌∷◌, ◌≡◌, refl, ok, err, value_error}
use google_workspace_gmail_a.Schemas.Operations.{
  PropagationRecord, validate_propagation, check_propagation,
}
use google_workspace_gmail_a.Propagation.{
  is_allowed, create_pending, replace, record_ui_recheck, record_mail_flow, updated_record,
  new_record,
}
use google_workspace_gmail_a.Propagation.Transitions.{record_of, recheck_changes, mail_flow_changes}
use google_workspace_gmail_a.Propagation.History.{
  Reaches, HasLater, Reaches-HasLater, Reaches-keeps_verified,
}

abbrev run_a : String
run_a = "000000000000000000000000000000aa"

abbrev run_b : String
run_b = "000000000000000000000000000000bb"

abbrev created : PropagationRecord
created = new_record run_a 5 10

abbrev rechecked : PropagationRecord
rechecked = updated_record created 7 (recheck_changes run_b)

abbrev verified : PropagationRecord
verified = updated_record rechecked 9 (mail_flow_changes run_b)

runs : Unit {0}
unfolding create_pending replace record_ui_recheck record_mail_flow is_allowed validate_propagation
    check_propagation
runs = tt

creates : create_pending [] run_a 5 10 ≡ ok (created ∷ [], created)
unfolding runs
creates = refl

rechecks : record_ui_recheck (created ∷ []) run_a run_b 7 ≡ ok (rechecked ∷ [], rechecked)
unfolding runs
rechecks = refl

replaces : replace (created ∷ []) run_a 7 (recheck_changes run_b) ≡ ok (rechecked ∷ [], rechecked)
unfolding runs
replaces = refl

verifies : record_mail_flow (rechecked ∷ []) run_a run_b 9 ≡ ok (verified ∷ [], verified)
unfolding runs
verifies = refl

-- A verified record is not rechecked.
refuses : record_ui_recheck (verified ∷ []) run_a run_b 9 ≡ err value_error
unfolding runs
refuses = refl

abbrev reached : Reaches (created ∷ []) (verified ∷ [])
reached =
    Reaches.verifies run_a run_b 9 verified
      (Reaches.rechecks run_a run_b 7 rechecked Reaches.stay rechecks) verifies

HasLater_example : HasLater run_a (verified ∷ []) created
HasLater_example = Reaches-HasLater (created ∷ []) (verified ∷ []) run_a created reached refl

-- After the verification another run is recorded.
abbrev created_b : PropagationRecord
created_b = new_record run_b 9 10

creates_b : create_pending (verified ∷ []) run_b 9 10 ≡ ok (verified ∷ created_b ∷ [], created_b)
unfolding runs
creates_b = refl

-- and rechecked
abbrev rechecked_b : PropagationRecord
rechecked_b = updated_record created_b 11 (recheck_changes run_a)

rechecks_b :
    record_ui_recheck (verified ∷ created_b ∷ []) run_b run_a 11
    ≡ ok (verified ∷ rechecked_b ∷ [], rechecked_b)
unfolding runs
rechecks_b = refl

abbrev reached_b : Reaches (verified ∷ []) (verified ∷ rechecked_b ∷ [])
reached_b =
    Reaches.rechecks run_b run_a 11 rechecked_b
      (Reaches.creates run_b 9 10 created_b Reaches.stay creates_b) rechecks_b

keeps_verified_example : record_of run_a (verified ∷ rechecked_b ∷ []) ≡ some verified
keeps_verified_example =
    Reaches-keeps_verified (verified ∷ []) (verified ∷ rechecked_b ∷ []) run_a verified reached_b
      refl refl
