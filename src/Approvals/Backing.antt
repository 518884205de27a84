-- ===== src/Approvals/Backing.antt =====
-- application/approval_service.py: a given approval and the preview that was put up for it.
use mathlib.Core.List.{Memᴰ}
use google_workspace_gmail_a.Common.{
  ℕ, String, Bool, true, false, not, ◌||◌, Option, none, some, List, ◌∷◌, ◌≡◌, refl, sym, ap, ◌∙◌,
  subst, inl, inr, find, put, drop, find-drop_self, find-drop_other, find-put_self, find-put_other,
  Bool-cases, ok, eq_iff, if_cases, ok-injective, ◌=s=◌, arith,
}
use google_workspace_gmail_a.Schemas.Operations.{DryRunResult, DryRunStatus, preview_ready, is_none}
use google_workspace_gmail_a.Approvals.{
  PendingApproval, ConfirmationResponse, Pending, approve, cancel, issue, envelope_of,
  is_preview_ready,
}
use google_workspace_gmail_a.Approvals.Single.{approve-IsGiven}
use google_workspace_gmail_a.Approvals.Trace.{Event, issued, approved, Reached}
use google_workspace_gmail_a.Approvals.Once.{IsKept, keep_ok, keep_err, approve-IsKept, get-IsKept}

-- The preview was ready and complete, and the envelope carries its hashes.
pub record IsEnvelopeOf (preview : DryRunResult) (a : PendingApproval) : Type 0 where
  pub status : preview.status ≡ preview_ready
  pub plan : a.plan_hash ≡ preview.plan_hash
  pub state : some a.before_state_hash ≡ preview.before_state_hash
  pub change : some a.change_set_hash ≡ preview.change_set_hash

-- Earlier a preview of this run was put up whose hashes are those of the response.
pub record IsBacked (run_id : String) (r : ConfirmationResponse) (t : List Event) : Type 0 where
  pub preview : DryRunResult
  pub approval : PendingApproval
  pub earlier : Memᴰ (issued run_id preview approval) t
  pub complete : IsEnvelopeOf preview approval
  pub plan : r.plan_hash ≡ approval.plan_hash
  pub state : r.before_state_hash ≡ approval.before_state_hash
  pub change : r.change_set_hash ≡ approval.change_set_hash

pub ready_of :
    (p : DryRunResult) (s : DryRunStatus)
    → p.status ≡ s
    → is_preview_ready p ≡ true
    → s ≡ preview_ready
ready_of p preview_ready e h = refl
ready_of p DryRunStatus.no_change e h = let shown = rw e at h in cc
ready_of p DryRunStatus.dry_run_blocked e h = let shown = rw e at h in cc

module _ (upper : String → String) (ttl : ℕ) where
  pub envelope_of-IsEnvelopeOf :
      (run_id : String) (preview : DryRunResult) (now : ℕ) (before change : Option String)
      (a : PendingApproval)
      → envelope_of upper ttl run_id preview now before change ≡ ok a
      → preview.before_state_hash ≡ before
      → preview.change_set_hash ≡ change
      → IsEnvelopeOf preview a
  envelope_of-IsEnvelopeOf run_id preview now none change a h p q = cc
  envelope_of-IsEnvelopeOf run_id preview now (some before) none a h p q = cc
  envelope_of-IsEnvelopeOf run_id preview now (some before) (some change) a h p q =
      elim (if_cases (not (is_preview_ready preview) || is_none preview.change_set) h) [
        | inl (_, e) ↦ cc
        | inr (ready, e) ↦
            let built = ok-injective e in
            record {
              status =
                  ready_of preview preview.status refl (parts (is_preview_ready preview) _ ready);
              plan = ap (λ x. x.plan_hash) (sym built);
              state = ap (λ x. some x.before_state_hash) (sym built) ∙ sym p;
              change = ap (λ x. some x.change_set_hash) (sym built) ∙ sym q;
            }
      ]
    where
      parts : (b c : Bool) → (not b || c) ≡ false → b ≡ true
      parts b c e = ground arith

  -- An envelope of the run that the trace shows to have been issued.
  abbrev IsIssued : String → PendingApproval → List Event → Type 0
  IsIssued j a t = (preview : DryRunResult) × Memᴰ (issued j preview a) t × IsEnvelopeOf preview a

  later :
      (j : String) (a : PendingApproval) (e : Event) (t : List Event)
      → IsIssued j a t
      → IsIssued j a (e ∷ t)
  later j a e t (preview, m, c) = (preview, Memᴰ.tail m, c)

  pub kept_find :
      (j : String) (a : PendingApproval) (s s' : Pending)
      → IsKept s s'
      → find j s' ≡ some a
      → find j s ≡ some a
  kept_find j a s s' (inl e) h = ap (find j) (sym e) ∙ h
  kept_find j a s s' (inr (k, e)) h = elim (Bool-cases (k =s= j)) [
    | inl p ↦
        let same = (eq_iff k j).0 p in
        let gone =
          sym (find-drop_self j s)
          ∙ ap (λ i. find j (drop i s)) (sym same)
          ∙ ap (find j) (sym e)
          ∙ h in
        cc
    | inr p ↦ sym (find-drop_other j k s p) ∙ ap (find j) (sym e) ∙ h
  ]

  -- Every pending envelope was issued to its run.
  find-IsIssued :
      (j : String) (a : PendingApproval) (s : Pending) (t : List Event)
      → Reached upper ttl s t
      → find j s ≡ some a
      → IsIssued j a t
  unfolding issue cancel
  find-IsIssued j a s t Reached.start h = cc
  find-IsIssued j a s t (Reached.issue_returns {s = before} {t = earlier} run_id preview now b r e)
        h =
      let (after, built) =
        keep_ok upper ttl before s run_id
          (envelope_of upper ttl run_id preview now preview.before_state_hash
            preview.change_set_hash)
          b e in
      elim (Bool-cases (run_id =s= j)) [
        | inl p ↦
            let same = (eq_iff run_id j).0 p in
            let here =
              envelope_of-IsEnvelopeOf run_id preview now preview.before_state_hash
                preview.change_set_hash b built refl refl in
            renamed run_id b preview earlier same
              (sym (find-put_self j b before)
                ∙ ap (λ i. find j (put i b before)) (sym same)
                ∙ ap (find j) (sym after)
                ∙ h)
              here
        | inr p ↦ later j a (issued run_id preview b) earlier (
            find-IsIssued j a before earlier r
              (sym (find-put_other j run_id b before p) ∙ ap (find j) (sym after) ∙ h))
      ]
    where
      renamed :
          (run_id : String) (b : PendingApproval) (preview : DryRunResult) (earlier : List Event)
          → run_id ≡ j
          → some b ≡ some a
          → IsEnvelopeOf preview b
          → IsIssued j a (issued run_id preview b ∷ earlier)
      renamed run_id b preview earlier same equal here =
          let equal_b : b ≡ a = cc in
          (
            preview,
            Memᴰ.head (
                ap (λ i. issued i preview a) (sym same) ∙ ap (issued run_id preview) (sym equal_b)),
            subst (IsEnvelopeOf preview) equal_b here,
          )
  find-IsIssued j a s t (Reached.issue_raises {s = before} run_id preview now e r p) h =
      let after =
        keep_err upper ttl before s run_id
          (envelope_of upper ttl run_id preview now preview.before_state_hash
            preview.change_set_hash)
          e p in
      find-IsIssued j a before t r (ap (find j) (sym after) ∙ h)
  find-IsIssued j a s t
        (Reached.approve_returns {s = before} {t = earlier} run_id phrase acknowledged approval_id
          now response r e)
        h =
      let given = approve-IsGiven before run_id phrase acknowledged approval_id now s response e in
      later j a (approved run_id response) earlier (
        find-IsIssued j a before earlier r
          (kept_find j a before s (inr (run_id, given.consumed)) h))
  find-IsIssued j a s t
        (Reached.approve_raises {s = before} run_id phrase acknowledged approval_id now e r p) h =
      find-IsIssued j a before t r (
        kept_find j a before s
          (subst (IsKept before) (ap (λ x. x.0) p)
            (approve-IsKept before run_id phrase acknowledged approval_id now))
          h)
  find-IsIssued j a s t (Reached.get_returns {s = before} run_id now b r p) h =
      find-IsIssued j a before t r (
        kept_find j a before s
          (subst (IsKept before) (ap (λ x. x.0) p) (get-IsKept before run_id now)) h)
  find-IsIssued j a s t (Reached.cancel_returns {s = before} run_id r) h =
      find-IsIssued j a before t r (kept_find j a before s (inr (run_id, refl)) h)

  -- In every sequence of calls, an approval that is given now carries the hashes of a complete
  -- preview that was put up for that run before.
  pub approve-IsBacked :
      (s s' : Pending) (t : List Event) (run_id phrase : String) (acknowledged : Bool)
      (approval_id : String) (now : ℕ) (r : ConfirmationResponse)
      → Reached upper ttl s t
      → approve s run_id phrase acknowledged approval_id now ≡ (s', ok r)
      → IsBacked run_id r t
  approve-IsBacked s s' t run_id phrase acknowledged approval_id now r reached h =
      let given = approve-IsGiven s run_id phrase acknowledged approval_id now s' r h in
      let (preview, earlier, complete) =
        find-IsIssued run_id given.approval s t reached given.held in
      record {
        preview = preview;
        approval = given.approval;
        earlier = earlier;
        complete = complete;
        plan = ap (λ x. x.plan_hash) given.answered;
        state = ap (λ x. x.before_state_hash) given.answered;
        change = ap (λ x. x.change_set_hash) given.answered;
      }
