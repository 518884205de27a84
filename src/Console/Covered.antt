-- ===== src/Console/Covered.antt =====
-- console/coordinator.py with application/approval_service.py: the envelopes of runs that await
-- approval.
use google_workspace_gmail_a.Common.{
  ℕ, String, some, List, ◌≡◌, ◌≢◌, sym, ap, ◌∙◌, subst, inl, inr, find, put, find-put_self,
  find-put_other, Bool-cases, TextDict, eq_iff, ◌=s=◌,
}
use google_workspace_gmail_a.Schemas.Operations.{RunPhase, DryRunResult, awaiting_approval}
use google_workspace_gmail_a.Approvals.{PendingApproval, Pending}
use google_workspace_gmail_a.Approvals.Backing.{IsEnvelopeOf, kept_find}
use google_workspace_gmail_a.Console.Runs.{ConsoleRun}
use google_workspace_gmail_a.Console.Coordinator.{Coordinator, advanced}
use google_workspace_gmail_a.Console.Change.{
  Change, unchanged, registered, moved, promoted, awaited, IsNew,
}
use google_workspace_gmail_a.Console.Kept.{shown_updates}

-- The envelope that is pending for a run that awaits approval carries the hashes of the preview
-- that the run shows.
abbrev pub IsCovered : Coordinator → Type 0
IsCovered s =
    (id : String) (run : ConsoleRun) (a : PendingApproval)
    → find id s.runs ≡ some run
    → run.phase ≡ awaiting_approval
    → find id s.approvals ≡ some a
    → (preview : DryRunResult) × (run.preview ≡ some preview) × IsEnvelopeOf preview a

-- What is stored under another key is covered as before, whatever envelopes were dropped.
put-IsCovered :
    (s : Coordinator) {later : TextDict ConsoleRun} (pending : Pending) (key : String)
    (new : ConsoleRun)
    → IsCovered s
    → later ≡ put key new s.runs
    → ((id : String) (a : PendingApproval)
        → find id pending ≡ some a
        → find id s.approvals ≡ some a)
    → new.phase ≢ awaiting_approval
    → (id : String) (run : ConsoleRun) (a : PendingApproval) → find id later ≡ some run
    → run.phase ≡ awaiting_approval
    → find id pending ≡ some a
    → (preview : DryRunResult) × (run.preview ≡ some preview) × IsEnvelopeOf preview a
put-IsCovered s pending key new covered stored kept other id run a found waiting held =
    elim (Bool-cases (key =s= id)) [
      | inl e ↦
          let equal : some new ≡ some run =
            sym (find-put_self key new s.runs)
            ∙ ap (λ k. find k (put key new s.runs)) ((eq_iff key id).0 e)
            ∙ ap (find id) (sym stored)
            ∙ found in
          let same : new ≡ run = cc in absurd (other (ap (λ r. r.phase) same ∙ waiting))
      | inr e ↦
          covered id run a
            (sym (find-put_other id key new s.runs e) ∙ ap (find id) (sym stored) ∙ found) waiting
            (kept id a held)
    ]

same_approvals :
    {before after : Pending} (id : String) (a : PendingApproval)
    → after ≡ before
    → find id after ≡ some a
    → find id before ≡ some a
same_approvals id a e h = ap (find id) (sym e) ∙ h

module _ (upper : String → String) (ttl : ℕ) where
  pub Change-IsCovered :
      {phases : List RunPhase} {s t : Coordinator} → Change phases s t → IsCovered s → IsCovered t
  Change-IsCovered {s} {t} (unchanged runs kept) covered = λ id run a found waiting held.
      covered id run a (ap (find id) (sym runs) ∙ found) waiting
        (kept_find upper ttl id a s.approvals t.approvals kept held)
  Change-IsCovered {s} {t} (registered run fresh new runs kept) covered =
      put-IsCovered s t.approvals run.run_id run covered runs (λ id a. same_approvals id a kept)
        (λ e. first_phase run new e)
    where
      first_phase : (run : ConsoleRun) → IsNew run → run.phase ≡ awaiting_approval → ⊥
      first_phase run new e = elim new.first_phase [
        | inl f ↦ let clash = sym f ∙ e in cc
        | inr f ↦ let clash = sym f ∙ e in cc
      ]
  Change-IsCovered {s} {t} (moved run phase updates now m other member kept) covered =
      put-IsCovered s t.approvals run.run_id (advanced run phase updates now) covered m.stored
        (λ id a. kept_find upper ttl id a s.approvals t.approvals kept) other
  Change-IsCovered {s} {t} (promoted run mode now found ready runs kept) covered =
      put-IsCovered s t.approvals run.run_id (record run { mode = mode; updated_at = now }) covered
        runs (λ id a. same_approvals id a kept) (λ e. let clash = sym ready ∙ e in cc)
  Change-IsCovered {s} {t} (awaited old preview now approval shown m approvals envelope) covered =
      λ id run a found waiting held. elim (Bool-cases (old.run_id =s= id)) [
        | inl e ↦
            let key = (eq_iff old.run_id id).0 e in
            let equal : some (advanced old awaiting_approval (shown_updates preview) now)
                ≡ some run =
              sym (find-put_self old.run_id _ s.runs)
              ∙ ap
                  (λ k. find k (
                    put old.run_id (advanced old awaiting_approval (shown_updates preview) now)
                      s.runs))
                  key
              ∙ ap (find id) (sym m.stored)
              ∙ found in
            let same : advanced old awaiting_approval (shown_updates preview) now ≡ run = cc in
            let equal_envelope : some approval ≡ some a =
              sym (find-put_self old.run_id approval s.approvals)
              ∙ ap (λ k. find k (put old.run_id approval s.approvals)) key
              ∙ ap (find id) (sym approvals)
              ∙ held in
            let same_envelope : approval ≡ a = cc in
            (
              preview,
              ap (λ r. r.preview) (sym same),
              subst (IsEnvelopeOf preview) same_envelope envelope,
            )
        | inr e ↦
            covered id run a
              (sym (find-put_other id old.run_id _ s.runs e) ∙ ap (find id) (sym m.stored) ∙ found)
              waiting
              (sym (find-put_other id old.run_id approval s.approvals e)
                ∙ ap (find id) (sym approvals)
                ∙ held)
      ]
