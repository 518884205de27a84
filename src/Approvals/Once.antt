-- ===== src/Approvals/Once.antt =====
-- application/approval_service.py: counting the approvals and the previews of a run.
use google_workspace_gmail_a.Common.{
  ℕ, ◌+◌, ◌≤◌, String, Bool, true, false, not, List, ◌≡◌, refl, sym, ap, ◌∙◌, subst, ◌⊎◌, inl, inr,
  leb, if◌then◌else◌, ◌=s=◌, find, put, drop, find-drop_self, find-drop_other, find-put_other,
  Option-cases, Bool-cases, Result, ok, err, value_error, arith, eq_iff, ok-injective, Error, strip,
}
use google_workspace_gmail_a.Approvals.{
  PendingApproval, Pending, approve, get, cancel, issue, answer, compare_digest, envelope_of, keep,
}
use google_workspace_gmail_a.Approvals.Single.{approve-IsGiven}
use google_workspace_gmail_a.Approvals.Trace.{
  Event, Reached, approvals_of, issues_of, one_of, one_of_le, held,
}

held-drop_le : (j k : String) (s : Pending) → held j (drop k s) ≤ held j s
held-drop_le j k s = elim (Bool-cases (k =s= j)) [
  | inl e ↦
      let gone : held j (drop k s) ≡ 0 =
        ap one_of (ap (λ i. find j (drop i s)) ((eq_iff k j).0 e) ∙ find-drop_self j s) in
      omega arith
  | inr e ↦
      let kept : held j (drop k s) ≡ held j s = ap one_of (find-drop_other j k s e) in omega arith
]

held-put_other :
    (j k : String) (a : PendingApproval) (s : Pending)
    → (k =s= j) ≡ false
    → held j (put k a s) ≡ held j s
held-put_other j k a s e = ap one_of (find-put_other j k a s e)

-- A call that loses envelopes or leaves them.
abbrev pub IsKept : Pending → Pending → Type 0
IsKept s s' = (s' ≡ s) ⊎ ((k : String) × (s' ≡ drop k s))

IsKept-held : (j : String) (s s' : Pending) → IsKept s s' → held j s' ≤ held j s
IsKept-held j s s' (inl e) = rw e (omega arith)
IsKept-held j s s' (inr (k, e)) = rw e (held-drop_le j k s)

answer-IsKept :
    (s : Pending) (a : PendingApproval) (run_id approval_id : String) (d : Result Bool)
    → IsKept s (answer s a run_id approval_id d).0
answer-IsKept s a run_id approval_id (err e) = inl refl
answer-IsKept s a run_id approval_id (ok true) = inr (run_id, refl)
answer-IsKept s a run_id approval_id (ok false) = inl refl

pub approve-IsKept :
    (s : Pending) (run_id phrase : String) (acknowledged : Bool) (approval_id : String) (now : ℕ)
    → IsKept s (approve s run_id phrase acknowledged approval_id now).0
unfolding approve
approve-IsKept s run_id phrase acknowledged approval_id now = elim (Option-cases (find run_id s)) [
  | inl e ↦ inr (run_id, rw (e, approve))
  | inr (a, e) ↦ rw (e, approve) (held_case a)
]
  where
    by_acknowledgement :
        (a : PendingApproval) (b : Bool)
        → IsKept s
            (if not b
              then (s, err value_error)
              else answer s a run_id approval_id (compare_digest (strip phrase) a.phrase)).0
    by_acknowledgement a true =
        answer-IsKept s a run_id approval_id (compare_digest (strip phrase) a.phrase)
    by_acknowledgement a false = inl refl

    held_case :
        (a : PendingApproval)
        → IsKept s
            (if leb a.expires_at now
              then (drop run_id s, err value_error)
              else if not acknowledged
              then (s, err value_error)
              else answer s a run_id approval_id (compare_digest (strip phrase) a.phrase)).0
    held_case a = elim (Bool-cases (leb a.expires_at now)) [
      | inl f ↦ rw f (inr (run_id, refl))
      | inr f ↦ rw f (by_acknowledgement a acknowledged)
    ]

pub get-IsKept : (s : Pending) (run_id : String) (now : ℕ) → IsKept s (get s run_id now).0
unfolding get
get-IsKept s run_id now = elim (Option-cases (find run_id s)) [
  | inl e ↦ inl (rw (e, get))
  | inr (a, e) ↦
      rw (e, get)
        (elim (Bool-cases (leb a.expires_at now)) [
          | inl f ↦ rw f (inr (run_id, refl))
          | inr f ↦ rw f (inl refl)
        ])
]

module _ (upper : String → String) (ttl : ℕ) where
  pub keep_ok :
      (s s' : Pending) (run_id : String) (built : Result PendingApproval) (a : PendingApproval)
      → keep upper ttl s run_id built ≡ (s', ok a)
      → (s' ≡ put run_id a s) × (built ≡ ok a)
  keep_ok s s' run_id (err e) a h = absurd (failed (ap (λ p. p.1) h))
    where
      failed : err e ≡ ok a → ⊥
      failed p = cc
  keep_ok s s' run_id (ok b) a h =
      let same = ok-injective (ap (λ p. p.1) h) in
      (sym (ap (λ p. p.0) h) ∙ ap (λ x. put run_id x s) same, ap ok same)

  pub keep_err :
      (s s' : Pending) (run_id : String) (built : Result PendingApproval) (e : Error)
      → keep upper ttl s run_id built ≡ (s', err e)
      → s' ≡ s
  keep_err s s' run_id (err f) e h = sym (ap (λ p. p.0) h)
  keep_err s s' run_id (ok b) e h = absurd (failed (ap (λ p. p.1) h))
    where
      failed : ok b ≡ err e → ⊥
      failed p = cc

  kept_count :
      (j : String) (s s' : Pending) (a i : ℕ) → IsKept s s' → a + held j s ≤ i → a + held j s' ≤ i
  kept_count j s s' a i k h = let less = IsKept-held j s s' k in omega arith

  -- In every sequence of calls from the empty service, the approvals that a run was given, with
  -- the envelope that is still pending for it, are at most as many as the previews of it that
  -- were put up for approval: no envelope is used twice.
  pub approvals_of_le :
      (run_id : String) (s : Pending) (t : List Event)
      → Reached upper ttl s t
      → approvals_of run_id t + held run_id s ≤ issues_of run_id t
  unfolding issue cancel
  approvals_of_le j s t Reached.start = omega arith
  approvals_of_le j s t
        (Reached.issue_returns {s = before} {t = earlier} run_id preview now a r h) =
      let less = approvals_of_le j before earlier r in
      let (after, _) =
        keep_ok before s run_id
          (envelope_of upper ttl run_id preview now preview.before_state_hash
            preview.change_set_hash)
          a h in
      elim (Bool-cases (run_id =s= j)) [
        | inl e ↦ let most = one_of_le (find j s) in rw e (omega arith)
        | inr e ↦
            let kept : held j s ≡ held j before =
              ap (held j) after ∙ held-put_other j run_id a before e in
            rw e (omega arith)
      ]
  approvals_of_le j s t (Reached.issue_raises {s = before} run_id preview now e r h) =
      let less = approvals_of_le j before t r in
      let after =
        keep_err before s run_id
          (envelope_of upper ttl run_id preview now preview.before_state_hash
            preview.change_set_hash)
          e h in
      rw after less
  approvals_of_le j s t
        (Reached.approve_returns {s = before} {t = earlier} run_id phrase acknowledged approval_id
          now response r h) =
      let less = approvals_of_le j before earlier r in
      let given = approve-IsGiven before run_id phrase acknowledged approval_id now s response h in
      elim (Bool-cases (run_id =s= j)) [
        | inl e ↦
            let same = (eq_iff run_id j).0 e in
            let one : held j before ≡ 1 =
              ap one_of (ap (λ i. find i before) (sym same) ∙ given.held) in
            let gone : held j s ≡ 0 = ap one_of (
              ap (find j) (given.consumed ∙ ap (λ i. drop i before) same)
              ∙ find-drop_self j before) in
            rw e (omega arith)
        | inr e ↦
            let gone : held j s ≡ held j before =
              ap one_of (ap (find j) given.consumed ∙ find-drop_other j run_id before e) in
            rw e (omega arith)
      ]
  approvals_of_le j s t
        (Reached.approve_raises {s = before} run_id phrase acknowledged approval_id now e r h) =
      kept_count j before s (approvals_of j t) (issues_of j t)
        (subst (IsKept before) (ap (λ p. p.0) h)
          (approve-IsKept before run_id phrase acknowledged approval_id now))
        (approvals_of_le j before t r)
  approvals_of_le j s t (Reached.get_returns {s = before} run_id now a r h) =
      kept_count j before s (approvals_of j t) (issues_of j t)
        (subst (IsKept before) (ap (λ p. p.0) h) (get-IsKept before run_id now))
        (approvals_of_le j before t r)
  approvals_of_le j s t (Reached.cancel_returns {s = before} run_id r) =
      kept_count j before s (approvals_of j t) (issues_of j t) (inr (run_id, refl))
        (approvals_of_le j before t r)
