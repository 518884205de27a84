-- ===== src/Propagation.antt =====
-- application/propagation_service.py: the follow-up records of runs whose settings were saved.
-- The state is what the protected store holds. A call that raises leaves it as it is.
pub mod Index
pub mod Transitions
pub mod History
pub mod Tests
use google_workspace_gmail_a.Common.{
  ℕ, ◌+◌, String, Bool, true, false, not, Option, none, some, List, [], ◌∷◌, map, leb, leb_text,
  if◌then◌else◌, TextDict, find, put, sort_by, Result, ok, err, value_error, raise_if, ◌>>=◌, ◌>>◌,
}
use google_workspace_gmail_a.Schemas.Operations.{
  PropagationStatus, pending, ui_reconfirmed, mail_flow_verified, expired, failed,
  PropagationRecord, validate_propagation,
}

abbrev pub Records : Type 0
Records = List PropagationRecord

-- `_ALLOWED_STATUS_TRANSITIONS`
unfoldable pub is_allowed : PropagationStatus → PropagationStatus → Bool
is_allowed pending ui_reconfirmed = true
is_allowed pending mail_flow_verified = true
is_allowed pending expired = true
is_allowed pending failed = true
is_allowed ui_reconfirmed mail_flow_verified = true
is_allowed ui_reconfirmed expired = true
is_allowed ui_reconfirmed failed = true
is_allowed s t = false

-- `{record.run_id: record for record in loaded}`
abbrev pub index_onto_runs : TextDict PropagationRecord → Records → TextDict PropagationRecord
index_onto_runs d [] = d
index_onto_runs d (r ∷ rs) = index_onto_runs (put r.run_id r d) rs

abbrev pub index_runs : Records → TextDict PropagationRecord
index_runs = index_onto_runs []

-- `tuple(sorted(records.values(), key=lambda item: item.run_id))`
abbrev pub by_run : TextDict PropagationRecord → Records
by_run d = sort_by (λ r q. leb_text r.run_id q.run_id) (map (λ e. e.1) d)

-- `PropagationService.list`, newest first; the sort is stable
unfoldable pub list_records : Records → Records
list_records = sort_by (λ r q. leb q.created_at r.created_at)

abbrev pub new_record : String → ℕ → ℕ → PropagationRecord
new_record run_id now recheck_after = record {
  run_id = run_id;
  status = pending;
  created_at = now;
  updated_at = now;
  due_at = now + recheck_after;
  ui_recheck_run_id = none;
  mail_flow_audit_run_id = none;
  note = none;
}

abbrev pub is_some {ℓ} : {A : Type ℓ} → Option A → Bool
is_some none = false
is_some (some a) = true

-- `create_pending`: the stored records and the new one
unfoldable pub create_pending : Records → String → ℕ → ℕ → Result (Records × PropagationRecord)
unfolding validate_propagation
create_pending loaded run_id now recheck_after = do
  let records = index_runs loaded
  raise_if (is_some (find run_id records)) value_error
  new ← validate_propagation (new_record run_id now recheck_after)
  ok (by_run (put run_id new records), new)

-- the fields that a caller of `_replace` changes
pub record Changes : Type 0 where
  pub status : PropagationStatus
  pub ui_recheck_run_id : Option String
  pub mail_flow_audit_run_id : Option String

abbrev or_old : Option String → Option String → Option String
or_old none old = old
or_old (some new) old = some new

-- `current.model_copy(update=...)`
abbrev pub updated_record : PropagationRecord → ℕ → Changes → PropagationRecord
updated_record current now changes = record current {
  status = changes.status;
  updated_at = now;
  ui_recheck_run_id = or_old changes.ui_recheck_run_id current.ui_recheck_run_id;
  mail_flow_audit_run_id = or_old changes.mail_flow_audit_run_id current.mail_flow_audit_run_id;
}

-- the replacement of a record that was found
abbrev pub replace_found :
    TextDict PropagationRecord
    → String
    → ℕ
    → Changes
    → PropagationRecord
    → Result (Records × PropagationRecord)
replace_found records run_id now changes current = do
  raise_if (not (is_allowed current.status changes.status)) value_error
  updated ← validate_propagation (updated_record current now changes)
  ok (by_run (put run_id updated records), updated)

-- `_replace`
unfoldable pub replace : Records → String → ℕ → Changes → Result (Records × PropagationRecord)
unfolding is_allowed validate_propagation
replace loaded run_id now changes = elim (find run_id (index_runs loaded)) [
  | none ↦ err value_error
  | some current ↦ replace_found (index_runs loaded) run_id now changes current
]

-- `record_ui_recheck`
unfoldable pub record_ui_recheck :
    Records → String → String → ℕ → Result (Records × PropagationRecord)
unfolding replace
record_ui_recheck loaded run_id recheck_run_id now = replace loaded run_id now (record {
  status = ui_reconfirmed;
  ui_recheck_run_id = some recheck_run_id;
  mail_flow_audit_run_id = none;
})

-- `record_mail_flow`
unfoldable pub record_mail_flow :
    Records → String → String → ℕ → Result (Records × PropagationRecord)
unfolding replace
record_mail_flow loaded run_id audit_run_id now = replace loaded run_id now (record {
  status = mail_flow_verified;
  ui_recheck_run_id = none;
  mail_flow_audit_run_id = some audit_run_id;
})
