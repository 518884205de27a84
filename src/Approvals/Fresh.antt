-- ===== src/Approvals/Fresh.antt =====
-- application/approval_service.py: issuing and then approving in time.
use google_workspace_gmail_a.Common.{
  ℕ, ◌+◌, ◌<◌, String, true, false, some, ◌≡◌, sym, ap, ◌∙◌, leb, strip, find, put, drop,
  find-put_self, ok, arith, eq_iff,
}
use google_workspace_gmail_a.Schemas.Resources.{is_within}
use google_workspace_gmail_a.Schemas.State.{ChangeSet}
use google_workspace_gmail_a.Schemas.Operations.{DryRunResult, preview_ready}
use google_workspace_gmail_a.Approvals.{
  PendingApproval, Pending, approve, issue, response_of, envelope, is_ascii,
}

-- A held envelope answers its phrase in time.
given :
    (run_id phrase approval_id : String) (now : ℕ) (later : Pending) (a : PendingApproval)
    → find run_id later ≡ some a
    → is_ascii (strip phrase) ≡ true
    → is_within 1 200 approval_id ≡ true
    → leb a.expires_at now ≡ false
    → strip phrase ≡ a.phrase
    → approve later run_id phrase true approval_id now
      ≡ (drop run_id later, ok (response_of a approval_id))
unfolding approve
given run_id phrase approval_id now later a found ascii long early e =
    let matched = (eq_iff (strip phrase) a.phrase).1 e in
    let ascii_phrase : is_ascii a.phrase ≡ true = ap is_ascii (sym e) ∙ ascii in
    rw (found, approve, early, ascii, ascii_phrase, matched, long)

module _ (upper : String → String) (ttl : ℕ) where
  -- What makes a preview complete.
  pub record IsComplete (preview : DryRunResult) (before change : String) (changes : ChangeSet)
      : Type 0 where
    pub status : preview.status ≡ preview_ready
    pub state_hash : preview.before_state_hash ≡ some before
    pub change_hash : preview.change_set_hash ≡ some change
    pub change_set : preview.change_set ≡ some changes

  issue_complete :
      (s : Pending) (run_id : String) (preview : DryRunResult) (now : ℕ) (before change : String)
      (changes : ChangeSet)
      → IsComplete preview before change changes
      → issue upper ttl s run_id preview now ≡ (
        put run_id (envelope upper ttl run_id preview now before change) s,
        ok (envelope upper ttl run_id preview now before change),
      )
  unfolding issue
  issue_complete s run_id preview now before change changes c =
      rw (c.state_hash, c.change_hash, c.status, c.change_set)

  -- After a complete preview was put up for approval, the run's phrase with an acknowledgement
  -- before the time to live is over gets the approval with the preview's hashes, and consumes the
  -- envelope, if the phrase is ASCII and the approval's id has a permitted length.
  pub approve-issue :
      (s : Pending) (run_id : String) (preview : DryRunResult) (issued_at : ℕ)
      (before change : String) (changes : ChangeSet) (phrase approval_id : String) (now : ℕ)
      → IsComplete preview before change changes
      → now < issued_at + ttl
      → strip phrase ≡ (envelope upper ttl run_id preview issued_at before change).phrase
      → is_ascii (strip phrase) ≡ true
      → is_within 1 200 approval_id ≡ true
      → approve (issue upper ttl s run_id preview issued_at).0 run_id phrase true approval_id now
        ≡ (
          drop run_id (issue upper ttl s run_id preview issued_at).0,
          ok (record {
            approved = true;
            approval_id = approval_id;
            plan_hash = preview.plan_hash;
            before_state_hash = before;
            change_set_hash = change;
          }),
        )
  approve-issue s run_id preview issued_at before change changes phrase approval_id now c fresh same
        ascii long =
      let a = envelope upper ttl run_id preview issued_at before change in
      let kept : (issue upper ttl s run_id preview issued_at).0 ≡ put run_id a s =
        ap (λ p. p.0) (issue_complete s run_id preview issued_at before change changes c) in
      rw kept (
        given run_id phrase approval_id now (put run_id a s) a (find-put_self run_id a s) ascii long
          (in_time (issued_at + ttl) fresh) same)
    where
      in_time : (limit : ℕ) → now < limit → leb limit now ≡ false
      in_time limit h = ground arith
