-- ===== src/Propagation/History.antt =====
-- Every sequence of calls of the propagation service: what becomes of the record of a run.
use google_workspace_gmail_a.Common.{
  ℕ, String, true, Option, none, some, ◌≡◌, refl, sym, ap, ◌∙◌, inl, inr, Bool-cases, eq_iff, ◌=s=◌,
  ok,
}
use google_workspace_gmail_a.Schemas.Operations.{
  PropagationStatus, pending, ui_reconfirmed, mail_flow_verified, expired, failed,
  PropagationRecord,
}
use google_workspace_gmail_a.Propagation.{
  Records, is_allowed, create_pending, Changes, updated_record, record_ui_recheck, record_mail_flow,
}
use google_workspace_gmail_a.Propagation.Transitions.{
  record_of, IsReplaced, IsCreated, create_pending-IsCreated, recheck_changes, mail_flow_changes,
  record_ui_recheck-IsReplaced, record_mail_flow-IsReplaced,
}

-- The calls that succeed, from one state of the store to a later one.
pub data Reaches (s : Records) : Records → Type 0 where
  stay : Reaches s s
  creates :
      {t u : Records} (run_id : String) (now recheck_after : ℕ) (r : PropagationRecord)
      → Reaches s t
      → create_pending t run_id now recheck_after ≡ ok (u, r)
      → Reaches s u
  rechecks :
      {t u : Records} (run_id recheck_run_id : String) (now : ℕ) (r : PropagationRecord)
      → Reaches s t
      → record_ui_recheck t run_id recheck_run_id now ≡ ok (u, r)
      → Reaches s u
  verifies :
      {t u : Records} (run_id audit_run_id : String) (now : ℕ) (r : PropagationRecord)
      → Reaches s t
      → record_mail_flow t run_id audit_run_id now ≡ ok (u, r)
      → Reaches s u

-- A record that allowed transitions lead to: its run, creation, due time and note are kept.
pub data IsLater (r : PropagationRecord) : PropagationRecord → Type 0 where
  same : IsLater r r
  moved :
      {q t : PropagationRecord}
      → IsLater r q
      → is_allowed q.status t.status ≡ true
      → t.run_id ≡ q.run_id
      → t.created_at ≡ q.created_at
      → t.due_at ≡ q.due_at
      → t.note ≡ q.note
      → IsLater r t

abbrev pub HasLater : String → Records → PropagationRecord → Type 0
HasLater run_id s r = (q : PropagationRecord) × (record_of run_id s ≡ some q) × IsLater r q

-- A replacement keeps or moves the record of every run.
HasLater-replace :
    (k : String) (r : PropagationRecord) (t u : Records) (run_id : String) (now : ℕ)
    (changes : Changes) (new : PropagationRecord)
    → HasLater k t r
    → IsReplaced t u run_id now changes new
    → HasLater k u r
HasLater-replace k r t u run_id now changes new (q, at, later) h =
    elim (Bool-cases (run_id =s= k)) [
      | inl e ↦
          let here : record_of k u ≡ some new = h.stored.records k ∙ rw e in
          let found : record_of k t ≡ some h.old =
            ap (λ i. record_of i t) (sym ((eq_iff run_id k).0 e)) ∙ h.found in
          let old : some q ≡ some h.old = sym at ∙ found in
          let old_q : q ≡ h.old = some-injective old in
          (
            new,
            here,
            IsLater.moved later
                (ap (λ x. is_allowed x.status new.status) old_q
                  ∙ ap (λ x. is_allowed h.old.status x.status) h.built
                  ∙ h.allowed)
                (ap (λ x. x.run_id) (h.built ∙ ap (λ x. updated_record x now changes) (sym old_q)))
                (ap (λ x. x.created_at)
                  (h.built ∙ ap (λ x. updated_record x now changes) (sym old_q)))
                (ap (λ x. x.due_at) (h.built ∙ ap (λ x. updated_record x now changes) (sym old_q)))
                (ap (λ x. x.note) (h.built ∙ ap (λ x. updated_record x now changes) (sym old_q))),
          )
      | inr e ↦ (q, h.stored.records k ∙ rw e at, later)
    ]
  where
    some-injective : {x y : PropagationRecord} → some x ≡ some y → x ≡ y
    some-injective p = cc

-- A creation is for another run, and keeps the record.
HasLater-create :
    (k : String) (r : PropagationRecord) (t u : Records) (run_id : String) (now recheck_after : ℕ)
    (new : PropagationRecord)
    → HasLater k t r
    → IsCreated t run_id now recheck_after u new
    → HasLater k u r
HasLater-create k r t u run_id now recheck_after new (q, at, later) made =
    elim (Bool-cases (run_id =s= k)) [
      | inl p ↦
          absurd (clash (sym made.absent ∙ ap (λ i. record_of i t) ((eq_iff run_id k).0 p) ∙ at))
      | inr p ↦ (q, made.stored.records k ∙ rw p at, later)
    ]
  where
    clash : ◌≡◌ {A = Option PropagationRecord} none (some q) → ⊥
    clash e = cc

-- In every sequence of calls, the record of a run is never lost: it is later found as it was, or
-- moved along allowed transitions, with its creation, its due time and its note.
pub Reaches-HasLater :
    (s u : Records) (k : String) (r : PropagationRecord)
    → Reaches s u
    → record_of k s ≡ some r
    → HasLater k u r
Reaches-HasLater s u k r Reaches.stay h = (r, h, IsLater.same)
Reaches-HasLater s u k r (Reaches.creates {t = t} run_id now recheck_after new reached e) h =
    HasLater-create k r t u run_id now recheck_after new (Reaches-HasLater s t k r reached h)
      (create_pending-IsCreated t run_id now recheck_after u new e)
Reaches-HasLater s u k r (Reaches.rechecks {t = t} run_id recheck now new reached e) h =
    HasLater-replace k r t u run_id now (recheck_changes recheck) new
      (Reaches-HasLater s t k r reached h)
      (record_ui_recheck-IsReplaced t run_id recheck now u new e)
Reaches-HasLater s u k r (Reaches.verifies {t = t} run_id audit now new reached e) h =
    HasLater-replace k r t u run_id now (mail_flow_changes audit) new
      (Reaches-HasLater s t k r reached h) (record_mail_flow-IsReplaced t run_id audit now u new e)

verified_ends : (s t : PropagationStatus) → s ≡ mail_flow_verified → is_allowed s t ≡ true → ⊥
unfolding is_allowed
verified_ends mail_flow_verified pending e h = cc
verified_ends mail_flow_verified ui_reconfirmed e h = cc
verified_ends mail_flow_verified mail_flow_verified e h = cc
verified_ends mail_flow_verified expired e h = cc
verified_ends mail_flow_verified failed e h = cc
verified_ends pending t e h = cc
verified_ends ui_reconfirmed t e h = cc
verified_ends expired t e h = cc
verified_ends failed t e h = cc

IsLater-verified : (r q : PropagationRecord) → r.status ≡ mail_flow_verified → IsLater r q → q ≡ r
IsLater-verified r q e IsLater.same = refl
IsLater-verified r q e (IsLater.moved {q = p} later allowed a b c d) =
    let before = IsLater-verified r p e later in
    absurd (verified_ends p.status q.status (ap (λ x. x.status) before ∙ e) allowed)

-- In every sequence of calls, a record whose mail flow is verified stays exactly as it is.
pub Reaches-keeps_verified :
    (s u : Records) (k : String) (r : PropagationRecord)
    → Reaches s u
    → record_of k s ≡ some r
    → r.status ≡ mail_flow_verified
    → record_of k u ≡ some r
Reaches-keeps_verified s u k r reached h e =
    let (q, at, later) = Reaches-HasLater s u k r reached h in
    at ∙ ap some (IsLater-verified r q e later)
