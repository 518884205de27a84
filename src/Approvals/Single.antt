-- ===== src/Approvals/Single.antt =====
-- application/approval_service.py: what a given approval rests on.
use google_workspace_gmail_a.Common.{
  ℕ, ◌<◌, String, Bool, true, false, not, ◌&&◌, some, ◌≡◌, refl, sym, ap, inl, inr, leb,
  if◌then◌else◌, strip, find, drop, Option-cases, Result, ok, err, value_error, arith, eq_iff,
  if_cases, ok-injective,
}
use google_workspace_gmail_a.Schemas.Resources.{is_within}
use google_workspace_gmail_a.Approvals.{
  PendingApproval, ConfirmationResponse, Pending, approve, answer, response_of, compare_digest,
  build_response, is_ascii,
}

-- What a given approval rests on: an envelope of that run that has not expired, an
-- acknowledgement, and its phrase. It is then gone, and the hashes are the envelope's.
pub record IsGiven (pending : Pending) (run_id phrase : String) (acknowledged : Bool)
    (approval_id : String) (now : ℕ) (later : Pending) (response : ConfirmationResponse)
    : Type 0 where
  pub approval : PendingApproval
  pub held : find run_id pending ≡ some approval
  pub fresh : now < approval.expires_at
  pub accepted : acknowledged ≡ true
  pub same_phrase : strip phrase ≡ approval.phrase
  pub consumed : later ≡ drop run_id pending
  pub answered : response ≡ response_of approval approval_id

given_of_digest : (a b : String) → compare_digest a b ≡ ok true → a ≡ b
given_of_digest a b h = elim (if_cases (is_ascii a && is_ascii b) h) [
  | inl (_, e) ↦ (eq_iff a b).0 (ok-injective e)
  | inr (_, e) ↦ cc
]

module _ (pending : Pending) (run_id phrase : String) (acknowledged : Bool) (approval_id : String)
    (now : ℕ) (later : Pending) (response : ConfirmationResponse) where
  of_answer :
      (approval : PendingApproval) (digest : Result Bool)
      → answer pending approval run_id approval_id digest ≡ (later, ok response)
      → (digest ≡ ok true)
        × (later ≡ drop run_id pending)
        × (response ≡ response_of approval approval_id)
  of_answer approval (err e) h = absurd (failed (ap (λ p. p.1) h))
    where
      failed : err e ≡ ok response → ⊥
      failed p = cc
  of_answer approval (ok false) h = absurd (failed (ap (λ p. p.1) h))
    where
      failed : err value_error ≡ ok response → ⊥
      failed p = cc
  of_answer approval (ok true) h = (refl, sym (ap (λ p. p.0) h), built (ap (λ p. p.1) h))
    where
      built :
          build_response approval approval_id ≡ ok response
          → response ≡ response_of approval approval_id
      built p = elim (if_cases (is_within 1 200 approval_id) p) [
        | inl (_, e) ↦ sym (ok-injective e)
        | inr (_, e) ↦ cc
      ]

  of_found :
      (approval : PendingApproval)
      → find run_id pending ≡ some approval
      → (if leb approval.expires_at now
          then (drop run_id pending, err value_error)
          else if not acknowledged
          then (pending, err value_error)
          else answer pending approval run_id approval_id
              (compare_digest (strip phrase) approval.phrase))
        ≡ (later, ok response)
      → IsGiven pending run_id phrase acknowledged approval_id now later response
  of_found approval held h = elim (if_cases (leb approval.expires_at now) h) [
    | inl (_, e) ↦ absurd (failed (ap (λ p. p.1) e))
    | inr (fresh, e) ↦ elim (if_cases (not acknowledged) e) [
      | inl (_, f) ↦ absurd (failed (ap (λ p. p.1) f))
      | inr (accepted, f) ↦
          let (digest, consumed, answered) =
            of_answer approval (compare_digest (strip phrase) approval.phrase) f in
          record {
            approval = approval;
            held = held;
            fresh = before approval.expires_at fresh;
            accepted = affirmed acknowledged accepted;
            same_phrase = given_of_digest (strip phrase) approval.phrase digest;
            consumed = consumed;
            answered = answered;
          }
    ]
  ]
    where
      failed : ◌≡◌ {A = Result ConfirmationResponse} (err value_error) (ok response) → ⊥
      failed p = cc

      before : (limit : ℕ) → leb limit now ≡ false → now < limit
      before limit p = ground arith

      affirmed : (b : Bool) → not b ≡ false → b ≡ true
      affirmed b p = ground arith

  -- An approval that is given rests on a pending envelope of the run that has not expired, an
  -- acknowledgement and the envelope's phrase; the response carries the envelope's hashes and
  -- the envelope is consumed.
  pub approve-IsGiven :
      approve pending run_id phrase acknowledged approval_id now ≡ (later, ok response)
      → IsGiven pending run_id phrase acknowledged approval_id now later response
  unfolding approve
  approve-IsGiven h = elim (Option-cases (find run_id pending)) [
    | inl e ↦ absurd (failed (ap (λ p. p.1) (rw (e, approve) at h)))
    | inr (approval, e) ↦ of_found approval e (rw (e, approve) at h)
  ]
    where
      failed : ◌≡◌ {A = Result ConfirmationResponse} (err value_error) (ok response) → ⊥
      failed p = cc
