-- ===== src/Propagation/Transitions.antt =====
-- application/propagation_service.py: what a successful change of a record does.
use google_workspace_gmail_a.Common.{
  ℕ, String, Bool, true, false, not, Option, none, some, ◌≡◌, refl, sym, ap, ◌∙◌, inl, inr, find,
  put, find-put_self, find-put_other, Bool-cases, Option-cases, eq_iff, ◌=s=◌, if◌then◌else◌,
  Result, ok, err, value_error, raise_if, raise_if-eq-ok, >>=-eq-ok, >>-eq-ok, ok-injective, arith,
}
use google_workspace_gmail_a.Schemas.Operations.{
  ui_reconfirmed, mail_flow_verified, PropagationRecord, check_propagation, validate_propagation,
}
use google_workspace_gmail_a.Propagation.{
  Records, is_allowed, index_runs, by_run, new_record, create_pending, is_some, Changes,
  updated_record, replace_found, replace, record_ui_recheck, record_mail_flow,
}
use google_workspace_gmail_a.Propagation.Index.{
  index_runs-IsIndex, find-run, find-index_runs, put-IsIndex,
}

-- the record of a run
abbrev pub record_of : String → Records → Option PropagationRecord
record_of run_id rs = find run_id (index_runs rs)

-- The validator of a propagation record returns it as it is.
validate_propagation-same : (r q : PropagationRecord) → validate_propagation r ≡ ok q → q ≡ r
unfolding validate_propagation
validate_propagation-same r q h = sym (ok-injective ((>>-eq-ok (check_propagation r) (ok r) h).2))

-- One record is put in place of the one of its run, and every other run keeps its own.
pub record IsStored (loaded later : Records) (run_id : String) (new : PropagationRecord)
    : Type 0 where
  pub same_run : new.run_id ≡ run_id
  pub valid : validate_propagation new ≡ ok new
  pub records :
      (other : String)
      → record_of other later ≡ (if run_id =s= other then some new else record_of other loaded)

stores :
    (loaded : Records) (run_id : String) (new : PropagationRecord)
    → new.run_id ≡ run_id
    → (other : String)
    → record_of other (by_run (put run_id new (index_runs loaded)))
      ≡ (if run_id =s= other then some new else record_of other loaded)
stores loaded run_id new e other =
    find-index_runs other (put run_id new (index_runs loaded))
      (put-IsIndex run_id new (index_runs loaded) (sym e) (index_runs-IsIndex loaded))
    ∙ elim (Bool-cases (run_id =s= other)) [
      | inl p ↦ rw p (
          ap (λ i. find i (put run_id new (index_runs loaded))) (sym ((eq_iff run_id other).0 p))
          ∙ find-put_self run_id new (index_runs loaded))
      | inr p ↦ rw p (find-put_other other run_id new (index_runs loaded) p)
    ]

-- The record that was there, the transition, and what is stored.
pub record IsReplaced (loaded later : Records) (run_id : String) (now : ℕ) (changes : Changes)
    (new : PropagationRecord) : Type 0 where
  pub old : PropagationRecord
  pub found : record_of run_id loaded ≡ some old
  pub allowed : is_allowed old.status changes.status ≡ true
  pub built : new ≡ updated_record old now changes
  pub stored : IsStored loaded later run_id new

module _ (loaded : Records) (run_id : String) (now : ℕ) (changes : Changes) (later : Records)
    (new : PropagationRecord) where
  IsReplaced-of :
      (old : PropagationRecord)
      → record_of run_id loaded ≡ some old
      → replace_found (index_runs loaded) run_id now changes old ≡ ok (later, new)
      → IsReplaced loaded later run_id now changes new
  IsReplaced-of old found h =
      let (_, tested, rest) =
        >>-eq-ok (raise_if (not (is_allowed old.status changes.status)) value_error) _ h in
      let (updated, checked, returned) =
        >>=-eq-ok (validate_propagation (updated_record old now changes)) _ rest in
      let same = validate_propagation-same (updated_record old now changes) updated checked in
      let stored_new : updated ≡ new = ap (λ p. p.1) (ok-injective returned) in
      let stored_all = ap (λ p. p.0) (ok-injective returned) in
      let built : new ≡ updated_record old now changes = sym stored_new ∙ same in
      let same_run : new.run_id ≡ run_id =
        ap (λ r. r.run_id) built
        ∙ find-run run_id old (index_runs loaded) (index_runs-IsIndex loaded) found in
      record {
        old = old;
        found = found;
        allowed =
            affirmed (is_allowed old.status changes.status) (raise_if-eq-ok _ value_error tested);
        built = built;
        stored = record {
          same_run = same_run;
          valid = ap validate_propagation built ∙ checked ∙ ap ok stored_new;
          records = λ other.
              ap (record_of other)
                (sym stored_all ∙ ap (λ r. by_run (put run_id r (index_runs loaded))) stored_new)
              ∙ stores loaded run_id new same_run other;
        };
      }
    where
      affirmed : (b : Bool) → not b ≡ false → b ≡ true
      affirmed b h = ground arith

  -- A change of a record that succeeds found the record of the run, follows an allowed transition
  -- of its status, and stores the valid changed record; every other run keeps its own.
  pub replace-IsReplaced :
      replace loaded run_id now changes ≡ ok (later, new)
      → IsReplaced loaded later run_id now changes new
  unfolding replace
  replace-IsReplaced h = elim (Option-cases (record_of run_id loaded)) [
    | inl e ↦ absurd (failed (rw (e, replace) at h))
    | inr (old, e) ↦ IsReplaced-of old e (rw (e, replace) at h)
  ]
    where
      failed :
          ◌≡◌ {A = Result (Records × PropagationRecord)} (err value_error) (ok (later, new)) → ⊥
      failed p = cc

module _ (loaded : Records) (run_id : String) (now recheck_after : ℕ) (later : Records)
    (new : PropagationRecord) where
  -- A record that is created is pending, due after the delay, and stored beside the records of
  -- the other runs; the run had none.
  pub record IsCreated : Type 0 where
    pub absent : record_of run_id loaded ≡ none
    pub built : new ≡ new_record run_id now recheck_after
    pub stored : IsStored loaded later run_id new

  -- Creating a record that succeeds stores the pending record of a run that had none; every
  -- other run keeps its own.
  pub create_pending-IsCreated :
      create_pending loaded run_id now recheck_after ≡ ok (later, new) → IsCreated
  unfolding create_pending
  create_pending-IsCreated h =
      let (_, tested, rest) =
        >>-eq-ok (raise_if (is_some (record_of run_id loaded)) value_error) _ h in
      let (created, checked, returned) =
        >>=-eq-ok (validate_propagation (new_record run_id now recheck_after)) _ rest in
      let same = validate_propagation-same (new_record run_id now recheck_after) created checked in
      let stored_new : created ≡ new = ap (λ p. p.1) (ok-injective returned) in
      let stored_all = ap (λ p. p.0) (ok-injective returned) in
      let built : new ≡ new_record run_id now recheck_after = sym stored_new ∙ same in
      let same_run : new.run_id ≡ run_id = ap (λ r. r.run_id) built in
      record {
        absent = none_of (record_of run_id loaded) (raise_if-eq-ok _ value_error tested);
        built = built;
        stored = record {
          same_run = same_run;
          valid = ap validate_propagation built ∙ checked ∙ ap ok stored_new;
          records = λ other.
              ap (record_of other)
                (sym stored_all ∙ ap (λ r. by_run (put run_id r (index_runs loaded))) stored_new)
              ∙ stores loaded run_id new same_run other;
        };
      }
    where
      none_of : (o : Option PropagationRecord) → is_some o ≡ false → o ≡ none
      none_of none e = refl
      none_of (some r) e = cc

-- the changes of the two callers of `_replace`
abbrev pub recheck_changes : String → Changes
recheck_changes recheck_run_id = record {
  status = ui_reconfirmed;
  ui_recheck_run_id = some recheck_run_id;
  mail_flow_audit_run_id = none;
}

abbrev pub mail_flow_changes : String → Changes
mail_flow_changes audit_run_id = record {
  status = mail_flow_verified;
  ui_recheck_run_id = none;
  mail_flow_audit_run_id = some audit_run_id;
}

pub record_ui_recheck-IsReplaced :
    (loaded : Records) (run_id recheck_run_id : String) (now : ℕ) (later : Records)
    (new : PropagationRecord)
    → record_ui_recheck loaded run_id recheck_run_id now ≡ ok (later, new)
    → IsReplaced loaded later run_id now (recheck_changes recheck_run_id) new
unfolding record_ui_recheck
record_ui_recheck-IsReplaced loaded run_id recheck_run_id now later new h =
    replace-IsReplaced loaded run_id now (recheck_changes recheck_run_id) later new h

pub record_mail_flow-IsReplaced :
    (loaded : Records) (run_id audit_run_id : String) (now : ℕ) (later : Records)
    (new : PropagationRecord)
    → record_mail_flow loaded run_id audit_run_id now ≡ ok (later, new)
    → IsReplaced loaded later run_id now (mail_flow_changes audit_run_id) new
unfolding record_mail_flow
record_mail_flow-IsReplaced loaded run_id audit_run_id now later new h =
    replace-IsReplaced loaded run_id now (mail_flow_changes audit_run_id) later new h
