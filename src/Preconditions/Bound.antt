-- ===== src/Preconditions/Bound.antt =====
-- domain/preconditions.py: when a confirmation is accepted.
use google_workspace_gmail_a.Common.{
  String, Bool, true, false, not, ◌&&◌, ◌=s=◌, ◌≡◌, ◌↔◌, refl, ok, raise_if, raise_if-eq-ok,
  >>-eq-ok, eq_iff, arith, root_ou_not_confirmed, stale_confirmation,
}
use google_workspace_gmail_a.Schemas.Plan.{TaskPlan}
use google_workspace_gmail_a.Schemas.State.{BlockedSenderState, ChangeSet}
use google_workspace_gmail_a.Approvals.{ConfirmationResponse}
use google_workspace_gmail_a.Hashing.{Json, canonical_hash}
use google_workspace_gmail_a.Preconditions.{
  require_root_ou, is_expected, validate_confirmation, state_has_drifted,
}

module _ (nfc sha256 : String → String) (dump_plan : TaskPlan → Json)
    (dump_state : BlockedSenderState → Json) (dump_change_set : ChangeSet → Json) where
  -- The confirmation is an approval of the root unit with the three current hashes, and the
  -- current state is not one that drifted from the confirmed one.
  pub record IsBound (approval : ConfirmationResponse) (plan : TaskPlan)
      (current : BlockedSenderState) (change_set : ChangeSet) : Type 0 where
    pub root : current.target_ou ≡ "/"
    pub approved : approval.approved ≡ true
    pub same_plan : approval.plan_hash ≡ canonical_hash nfc sha256 (dump_plan plan)
    pub undrifted :
        state_has_drifted nfc sha256 dump_state approval.before_state_hash current ≡ false
    pub same_change :
        approval.change_set_hash ≡ canonical_hash nfc sha256 (dump_change_set change_set)

  -- A confirmation is accepted exactly when the state is that of the root unit, the operator
  -- approved, and the hashes are those of the plan, of the state, which has then not drifted, and
  -- of the change set.
  pub validate_confirmation_iff :
      (approval : ConfirmationResponse) (plan : TaskPlan) (current : BlockedSenderState)
      (change_set : ChangeSet)
      → (validate_confirmation nfc sha256 dump_plan dump_state dump_change_set approval plan current
            change_set
          ≡ ok tt)
        ↔ IsBound approval plan current change_set
  unfolding validate_confirmation require_root_ou state_has_drifted
  validate_confirmation_iff approval plan current change_set = (to_bound, of_bound)
    where
      hash : Json → String
      hash = canonical_hash nfc sha256

      parts : (b c d : Bool) → (b && c && d) ≡ true → (b ≡ true) × (c ≡ true) × (d ≡ true)
      parts b c d h = ground arith

      both_not : (b : Bool) → not b ≡ false → b ≡ true
      both_not b h = ground arith

      to_bound :
          validate_confirmation nfc sha256 dump_plan dump_state dump_change_set approval plan
              current change_set
            ≡ ok tt
          → IsBound approval plan current change_set
      to_bound h =
          let first =
            >>-eq-ok (raise_if (not (current.target_ou =s= "/")) root_ou_not_confirmed) _ h in
          let second = >>-eq-ok (raise_if (not approval.approved) stale_confirmation) _ first.2 in
          let matching =
            both_not
              (is_expected nfc sha256 dump_plan dump_state dump_change_set approval plan current
                change_set)
              (raise_if-eq-ok _ stale_confirmation second.2) in
          let (p, s, c) = parts (approval.plan_hash =s= hash (dump_plan plan)) _ _ matching in
          record {
            root =
                (eq_iff current.target_ou "/").0
                  (both_not _ (raise_if-eq-ok _ root_ou_not_confirmed first.1));
            approved = both_not approval.approved (raise_if-eq-ok _ stale_confirmation second.1);
            same_plan = (eq_iff approval.plan_hash (hash (dump_plan plan))).0 p;
            undrifted = rw s refl;
            same_change = (eq_iff approval.change_set_hash (hash (dump_change_set change_set))).0 c;
          }

      of_bound :
          IsBound approval plan current change_set
          → validate_confirmation nfc sha256 dump_plan dump_state dump_change_set approval plan
              current change_set
            ≡ ok tt
      of_bound bound =
          let root = (eq_iff current.target_ou "/").1 bound.root in
          let approved = bound.approved in
          let p = (eq_iff approval.plan_hash (hash (dump_plan plan))).1 bound.same_plan in
          let s =
            both_not (approval.before_state_hash =s= hash (dump_state current)) bound.undrifted in
          let c =
            (eq_iff approval.change_set_hash (hash (dump_change_set change_set))).1
              bound.same_change in
          rw (root, approved, p, s, c) refl
