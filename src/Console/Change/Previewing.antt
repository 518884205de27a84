-- ===== src/Console/Change/Previewing.antt =====
-- console/coordinator.py: what a preview, a look at the approval, a cancellation and an approval
-- change.
use google_workspace_gmail_a.Common.{
  ℕ, String, Bool, true, false, not, ◌||◌, Option, none, some, List, [], ◌∷◌, ◌≡◌, refl, ap, ◌∙◌,
  inl, inr, find, Bool-cases, Option-cases, Result, ok, err, arith,
}
use google_workspace_gmail_a.Schemas.Operations.{
  RunPhase, plan_ready, preflight, awaiting_approval, executing, blocked, cancelled, interrupted,
  is_none,
}
use google_workspace_gmail_a.Reporting.{RunResult, RunStatus}
use google_workspace_gmail_a.Approvals
use google_workspace_gmail_a.Approvals.{Pending, PendingApproval, ConfirmationResponse}
use google_workspace_gmail_a.Approvals.Once.{IsKept, get-IsKept}
use google_workspace_gmail_a.Console.Runs.{
  mem_phase, ConsoleRun, is_phase, is_phase_eq, allows, is_active,
}
use google_workspace_gmail_a.Console.Journal.{terminal_phases}
use google_workspace_gmail_a.Console.Coordinator.{
  Coordinator, Task, preview_task, Outcome, returned, raised, set_preview, set_result,
  set_error_code, set_source_run_id, advance,
}
use google_workspace_gmail_a.Console.Coordinator.Planning.{browser_code}
use google_workspace_gmail_a.Console.Coordinator.Previewing.{
  has_conflict, and_finish, and_suspend, open_preview, refuses_preview, begin_preview, expire,
  pending_approval, cancel,
}
use google_workspace_gmail_a.Console.Coordinator.Executing.{
  end_approve, finish_execution, result_phase, result_code,
}
use google_workspace_gmail_a.Console.Change.{
  preview_targets, expiry_targets, cancel_targets, approve_end_targets, Change, unchanged,
  HasOwnKey, IsKeyed, All-find, advance-Change,
}
use google_workspace_gmail_a.Console.Change.Planning.{found_own, resume-Change}

and_finish-Change :
    {phases : List RunPhase} (s : Coordinator) (call : Coordinator × Result ConsoleRun)
    → Change phases s call.0
    → Change phases s (and_finish call).0
and_finish-Change s (t, err e) change = change
and_finish-Change s (t, ok run) change = change

and_suspend-Change :
    {phases : List RunPhase} (s : Coordinator) (task : ConsoleRun → Task)
    (call : Coordinator × Result ConsoleRun)
    → Change phases s call.0
    → Change phases s (and_suspend task call).0
and_suspend-Change s task (t, err e) change = change
and_suspend-Change s task (t, ok run) change = change

pub begin_preview-Change :
    (s : Coordinator) (id : String) (now : ℕ)
    → IsKeyed s.runs
    → Change preview_targets s (begin_preview s id now).0
unfolding begin_preview
begin_preview-Change s id now keyed = elim (Option-cases (find id s.runs)) [
  | inl e ↦ rw (e, begin_preview) (unchanged refl (inl refl))
  | inr (run, e) ↦
      rw (e, begin_preview)
        (elim (Bool-cases (refuses_preview s id run)) [
          | inl p ↦ rw p (unchanged refl (inl refl))
          | inr p ↦ rw p (
              let (ready, slot) =
                passes (is_phase run.phase plan_ready) _ (has_conflict id s.runs) p in
              opened run e (is_phase_eq run.phase plan_ready ready) slot s.has_dry_run)
        ])
]
  where
    passes : (b c d : Bool) → ((not b || c) || d) ≡ false → (b ≡ true) × (d ≡ false)
    passes b c d h = ground arith

    opened :
        (run : ConsoleRun)
        → find id s.runs ≡ some run
        → run.phase ≡ plan_ready
        → has_conflict id s.runs ≡ false
        → (available : Bool) → Change preview_targets s (open_preview s id run now available).0
    opened run found ready slot false =
        and_finish-Change s
          (advance s run blocked (set_error_code (some "ui_contract_pack_required") ∷ []) now)
          (advance-Change s s.approvals run blocked
            (set_error_code (some "ui_contract_pack_required") ∷ []) now _ (inl refl)
            (found_own s id run keyed found) (rw ready refl) (inl refl) (λ e. cc) refl)
    opened run found ready slot true =
        and_suspend-Change s (λ next. preview_task id run)
          (advance s run preflight (set_preview none ∷ set_result none ∷ set_error_code none ∷ [])
            now)
          (advance-Change s s.approvals run preflight
            (set_preview none ∷ set_result none ∷ set_error_code none ∷ []) now _ (inl refl)
            (found_own s id run keyed found) (rw ready refl)
            (inr (
              inr (
                ap (λ key. has_conflict key s.runs) (All-find HasOwnKey id run s.runs keyed found)
                ∙ slot)))
            (λ e. cc) refl)

pub pending_approval-Change :
    (s : Coordinator) (id : String) (now soon : ℕ)
    → IsKeyed s.runs
    → Change expiry_targets s (pending_approval s id now soon).0
unfolding pending_approval
pending_approval-Change s id now soon keyed = elim (Option-cases (find id s.runs)) [
  | inl e ↦ rw (e, pending_approval) (unchanged refl (inl refl))
  | inr (run, e) ↦
      rw (e, pending_approval)
        (elim (Bool-cases (is_phase run.phase awaiting_approval)) [
          | inr p ↦ rw p (unchanged refl (inl refl))
          | inl p ↦ rw p (elim (Bool-cases (is_none run.preview)) [
            | inl q ↦ rw q (unchanged refl (inl refl))
            | inr q ↦ rw q (
                looked run e (is_phase_eq run.phase awaiting_approval p)
                  (Approvals.get s.approvals id now).0 (get-IsKept s.approvals id now)
                  (Approvals.get s.approvals id now).1)
          ])
        ])
]
  where
    looked :
        (run : ConsoleRun)
        → find id s.runs ≡ some run
        → run.phase ≡ awaiting_approval
        → (pending : Pending) → IsKept s.approvals pending
        → (approval : Option PendingApproval)
        → Change expiry_targets s (expire (record s { approvals = pending }) run approval soon).0
    looked run found waiting pending kept (some approval) = unchanged refl kept
    looked run found waiting pending kept none =
        advance-Change s pending run plan_ready
          (set_preview none ∷ set_result none ∷ set_error_code (some "approval_expired") ∷ []) soon
          _ kept (found_own s id run keyed found) (rw waiting refl) (inl refl) (λ e. cc) refl

pub cancel-Change :
    (s : Coordinator) (id : String) (now : ℕ)
    → IsKeyed s.runs
    → Change cancel_targets s (cancel s id now).0
unfolding cancel Approvals.cancel
cancel-Change s id now keyed = elim (Option-cases (find id s.runs)) [
  | inl e ↦ rw (e, cancel) (unchanged refl (inl refl))
  | inr (run, e) ↦
      rw (e, cancel)
        (elim (Bool-cases (allows run.phase cancelled)) [
          | inr p ↦ rw p (unchanged refl (inl refl))
          | inl p ↦ rw p (
              advance-Change s (Approvals.cancel s.approvals id) run cancelled [] now _
                (inr (id, refl)) (found_own s id run keyed e) p (inl refl) (λ e. cc) refl)
        ])
]

-- An execution ends in a phase that the table allows, and leaves the browser.
pub result_phase_ends :
    (status : RunStatus)
    → (allows executing (result_phase status) ≡ true)
      × (is_active (result_phase status) ≡ false)
      × (is_phase (result_phase status) awaiting_approval ≡ false)
      × (mem_phase (result_phase status) approve_end_targets ≡ true)
      × (mem_phase (result_phase status) terminal_phases ≡ true)
result_phase_ends status = ground arith

pub end_approve-Change :
    (s : Coordinator) (id : String) (outcome : Outcome RunResult) (source : Option String) (now : ℕ)
    → IsKeyed s.runs
    → Change approve_end_targets s (end_approve s id outcome source now).0
unfolding end_approve
end_approve-Change s id outcome source now keyed =
    resume-Change s id executing (λ run. finish_execution s run outcome source now)
      (λ run found running. finish outcome run found running)
  where
    finish :
        (outcome : Outcome RunResult) (run : ConsoleRun)
        → find id s.runs ≡ some run
        → run.phase ≡ executing
        → Change approve_end_targets s (finish_execution s run outcome source now).0
    finish (returned result) run found running =
        let (permitted, quiet, other, member, ends) = result_phase_ends result.status in
        advance-Change s s.approvals run (result_phase result.status)
          (set_result (some result)
            ∷ set_error_code (result_code result result.error_code)
            ∷ set_source_run_id source
            ∷ [])
          now _ (inl refl) (found_own s id run keyed found) (rw running permitted) (inl quiet)
          (λ e.
            let clash : is_phase awaiting_approval awaiting_approval ≡ false = rw e at other in cc)
          member
    finish (raised failure) run found running =
        advance-Change s s.approvals run interrupted
          (set_error_code (some (browser_code failure)) ∷ []) now _ (inl refl)
          (found_own s id run keyed found) (rw running refl) (inl refl) (λ e. cc) refl
