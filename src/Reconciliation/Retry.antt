-- ===== src/Reconciliation/Retry.antt =====
-- domain/reconciliation.py: when a mutation may be tried again.
mod Context
use google_workspace_gmail_a.Common.{
  ℕ, String, Bool, true, false, ◌&&◌, ◌==◌, ◌=s=◌, some, List, ◌≡◌, ◌≢◌, ◌↔◌, refl, sym, ap, ◌∙◌,
  inl, inr, Result, ok, if◌then◌else◌, Bool-cases, ==_iff, eq_iff, arith,
}
use google_workspace_gmail_a.Schemas.Resources.{ManagedAddressList, ManagedBlockedSenderRule}
use google_workspace_gmail_a.Schemas.State.{BlockedSenderState}
use google_workspace_gmail_a.Hashing.{Json, canonical_hash}
use google_workspace_gmail_a.Verification.{
  VerificationResult, VerificationStatus, matched, verify_state,
}
use google_workspace_gmail_a.Verification.Matches.{status_of, verify_state_total}
use google_workspace_gmail_a.Reconciliation.{
  desired_state_present, mutation_not_applied, partially_present, undecided, ReconciliationOutcome,
  settle, ReconciliationContext, ReconciliationDecision, decide, classify, reconcile_mutation,
  validate_decision, retry_preconditions_hold, has_any_desired_change, is_matched,
}
use google_workspace_gmail_a.Reconciliation.Retry.Context.{IsRetryContext, context_iff}

module _ (str_id : ℕ → String) (dump_rule : ManagedBlockedSenderRule → String)
    (dump_list : ManagedAddressList → String) (repr : List String → String)
    (nfc sha256 : String → String) (dump_state : BlockedSenderState → Json) where
  -- What makes a retry safe: a fresh state that is not the desired one, that has the hash of the
  -- state before the mutation, and a context in which all preconditions hold.
  pub record IsSafeRetry (before desired observed : BlockedSenderState)
      (context : ReconciliationContext) : Type 0 where
    pub unmatched :
        status_of (verify_state str_id dump_rule dump_list repr desired (some observed))
        ≢ some matched
    pub unchanged :
        canonical_hash nfc sha256 (dump_state before)
        ≡ canonical_hash nfc sha256 (dump_state observed)
    pub context_holds : IsRetryContext context

  -- a decision about the observed state that allows a retry exactly if one is safe
  abbrev pub Decides :
      BlockedSenderState
      → BlockedSenderState
      → BlockedSenderState
      → ReconciliationContext
      → Result ReconciliationDecision
      → Type 0
  Decides before desired observed context result =
      (decision : ReconciliationDecision) × (result ≡ ok decision)
      × (decision.observed_state ≡ some observed)
      × ((decision.retry_is_safe ≡ true) ↔ IsSafeRetry before desired observed context)

  Decides-decide :
      (before desired observed : BlockedSenderState) (context : ReconciliationContext)
      (outcome : ReconciliationOutcome) (retry : Bool) (code : String)
      → decide outcome retry (some observed) code
        ≡ ok (record {
          outcome = outcome;
          retry_is_safe = retry;
          observed_state = some observed;
          explanation_code = code;
        })
      → (retry ≡ true) ↔ IsSafeRetry before desired observed context
      → Decides before desired observed context (decide outcome retry (some observed) code)
  Decides-decide before desired observed context outcome retry code valid safe = (
    record {
      outcome = outcome;
      retry_is_safe = retry;
      observed_state = some observed;
      explanation_code = code;
    },
    valid,
    refl,
    safe,
  )

  matched_of : (status : VerificationStatus) → is_matched status ≡ true → status ≡ matched
  matched_of status h = ground arith

  refused :
      (before desired observed : BlockedSenderState) (context : ReconciliationContext)
      → (IsSafeRetry before desired observed context → ⊥)
      → (false ≡ true) ↔ IsSafeRetry before desired observed context
  refused before desired observed context never = ((λ h. cc), (λ safe. absurd (never safe)))

  classify-Decides :
      (before desired observed : BlockedSenderState) (context : ReconciliationContext)
      → (status_of (verify_state str_id dump_rule dump_list repr desired (some observed))
          ≢ some matched)
      → Decides before desired observed context (
          classify str_id dump_rule dump_list repr nfc sha256 dump_state before desired observed
            context)
  unfolding classify validate_decision
  classify-Decides before desired observed context unmatched =
      elim (Bool-cases (
        canonical_hash nfc sha256 (dump_state before)
        =s= canonical_hash nfc sha256 (dump_state observed))) [
          | inl e ↦
              rw (e, classify)
                (unchanged ((eq_iff _ _).0 e) (retry_preconditions_hold context) refl)
          | inr e ↦
              rw (e, classify)
                (changed
                  (λ same.
                    let clash =
                      sym (
                        (eq_iff (canonical_hash nfc sha256 (dump_state before))
                            (canonical_hash nfc sha256 (dump_state observed))).1
                          same)
                      ∙ e in
                    cc)
                  (has_any_desired_change str_id dump_rule dump_list before desired observed))
        ]
    where
      same_hash : Type 0
      same_hash =
          canonical_hash nfc sha256 (dump_state before)
          ≡ canonical_hash nfc sha256 (dump_state observed)

      unchanged :
          same_hash
          → (holds : Bool) → retry_preconditions_hold context ≡ holds
          → Decides before desired observed context
              (decide mutation_not_applied holds (some observed) "before_state_unchanged")
      unchanged same true e =
          Decides-decide before desired observed context mutation_not_applied true
            "before_state_unchanged" refl
            (
              (λ h. record {
                unmatched = unmatched;
                unchanged = same;
                context_holds = (context_iff context).0 e;
              }),
              (λ safe. refl),
            )
      unchanged same false e =
          Decides-decide before desired observed context mutation_not_applied false
            "before_state_unchanged" refl
            (refused before desired observed context
              (λ safe. let clash = sym e ∙ (context_iff context).1 safe.context_holds in cc))

      changed :
          (same_hash → ⊥)
          → (some_change : Bool)
          → Decides before desired observed context (
              if some_change
              then decide partially_present false
                  (some observed)
                  "some_but_not_all_desired_resources_present"
              else decide undecided false (some observed) "state_changed_outside_expected_mutation")
      changed other true =
          Decides-decide before desired observed context partially_present false
            "some_but_not_all_desired_resources_present" refl
            (refused before desired observed context (λ safe. other safe.unchanged))
      changed other false =
          Decides-decide before desired observed context undecided false
            "state_changed_outside_expected_mutation" refl
            (refused before desired observed context (λ safe. other safe.unchanged))

  -- A reconciliation of a state that was read always returns a decision about that state, and the
  -- decision allows a retry exactly if the state is not verified as the desired one, has the hash
  -- of the state before the mutation, and it is the first retry of an idempotent operation whose
  -- ownership, root unit and confirmation hold.
  pub reconcile_mutation-retry_iff :
      (before desired observed : BlockedSenderState) (context : ReconciliationContext)
      → Decides before desired observed context (
          reconcile_mutation str_id dump_rule dump_list repr nfc sha256 dump_state before desired
            (some observed)
            context)
  unfolding reconcile_mutation settle
  reconcile_mutation-retry_iff before desired observed context =
      let (verification, returned, about_desired, about_observed) =
        verify_state_total str_id dump_rule dump_list repr desired (some observed) in
      rw (returned, reconcile_mutation) (settled verification returned)
    where
      some_status : {a b : VerificationStatus} → some a ≡ some b → a ≡ b
      some_status h = cc

      settled :
          (verification : VerificationResult)
          → verify_state str_id dump_rule dump_list repr desired (some observed) ≡ ok verification
          → Decides before desired observed context (
              settle str_id dump_rule dump_list repr nfc sha256 dump_state before desired observed
                context verification.status)
      settled verification returned = elim (Bool-cases (is_matched verification.status)) [
        | inl e ↦
            rw (e, settle)
              (Decides-decide before desired observed context desired_state_present false
                "mutation_present_after_read_back" refl
                (refused before desired observed context (λ safe.
                  safe.unmatched
                    (ap status_of returned ∙ ap some (matched_of verification.status e)))))
        | inr e ↦
            rw (e, settle)
              (classify-Decides before desired observed context (λ h.
                let same : some verification.status ≡ some matched =
                  sym (ap status_of returned) ∙ h in
                let clash : is_matched matched ≡ false =
                  ap is_matched (sym (some_status same)) ∙ e in
                cc))
      ]
