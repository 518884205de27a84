-- ===== src/Console/Coordinator/Previewing.antt =====
-- console/coordinator.py: the preview of a run, its pending approval, and its cancellation.
use google_workspace_gmail_a.Common.{
  ℕ, String, Bool, true, false, not, ◌&&◌, ◌||◌, Option, none, some, [], ◌∷◌, if◌then◌else◌, ◌=s=◌,
  TextDict, find, Result, ok, err, value_error, any, ◌>>=◌,
}
use google_workspace_gmail_a.Schemas.Operations.{
  RunMode, plan_only, live, RunPhase, plan_ready, preflight, preview_shown, awaiting_approval,
  blocked, cancelled, DryRunResult, dry_run_blocked, is_none,
}
use google_workspace_gmail_a.Approvals.{
  PendingApproval, ConfirmationResponse, Pending, is_preview_ready,
}
use google_workspace_gmail_a.Approvals
use google_workspace_gmail_a.Console.Runs.{ConsoleRun, is_phase, is_mode, allows, is_active}
use google_workspace_gmail_a.Console.Coordinator.{
  Coordinator, Task, preview_task, Outcome, returned, raised, CoroutineProgress, finished,
  suspended, set_preview, set_result, set_error_code, advance,
}
use google_workspace_gmail_a.Console.Coordinator.Planning.{browser_code, resume}

-- `_require_browser_slot` raises
abbrev pub has_conflict : String → TextDict ConsoleRun → Bool
has_conflict run_id runs = any (λ e. not (e.1.run_id =s= run_id) && is_active e.1.phase) runs

abbrev pub and_finish : Coordinator × Result ConsoleRun → Coordinator × Result CoroutineProgress
and_finish (s, err e) = (s, err e)
and_finish (s, ok run) = (s, ok (finished run))

abbrev pub and_suspend :
    (ConsoleRun → Task) → Coordinator × Result ConsoleRun → Coordinator × Result CoroutineProgress
and_suspend task (s, err e) = (s, err e)
and_suspend task (s, ok run) = (s, ok (suspended (task run)))

-- the browser-backed part of `preview`, with a preview service or without
abbrev pub open_preview :
    Coordinator → String → ConsoleRun → ℕ → Bool → Coordinator × Result CoroutineProgress
open_preview s run_id run now false =
    and_finish (advance s run blocked (set_error_code (some "ui_contract_pack_required") ∷ []) now)
open_preview s run_id run now true =
    and_suspend (λ _. preview_task run_id run)
      (advance s run preflight (set_preview none ∷ set_result none ∷ set_error_code none ∷ []) now)

-- the tests of `preview` that raise
abbrev pub refuses_preview : Coordinator → String → ConsoleRun → Bool
refuses_preview s run_id run =
    (not (is_phase run.phase plan_ready) || (is_none run.plan || is_mode run.mode plan_only))
    || has_conflict run_id s.runs

-- `preview`, up to its `await`
unfoldable pub begin_preview : Coordinator → String → ℕ → Coordinator × Result CoroutineProgress
begin_preview s run_id now = elim (find run_id s.runs) [
  | none ↦ (s, err value_error)
  | some run ↦
      if refuses_preview s run_id run
      then (s, err value_error)
      else open_preview s run_id run now s.has_dry_run
]

abbrev pub is_blocked_preview : DryRunResult → Bool
is_blocked_preview p = elim p.status [ dry_run_blocked ↦ true | _ ↦ false ]

-- the phase after a preview
abbrev pub preview_phase : RunMode → DryRunResult → RunPhase
preview_phase mode result =
    if is_preview_ready result && is_mode mode live
    then awaiting_approval
    else if not (is_blocked_preview result)
    then preview_shown
    else blocked

-- `pending_approval`, after the tests
abbrev pub expire :
    Coordinator
    → ConsoleRun
    → Option PendingApproval
    → ℕ
    → Coordinator × Result (Option PendingApproval)
expire s run (some approval) now = (s, ok (some approval))
expire s run none now =
    let (after, result) =
      advance s run plan_ready
        (set_preview none ∷ set_result none ∷ set_error_code (some "approval_expired") ∷ []) now in
    (after, result >>= λ _. ok none)

-- `pending_approval`, where the clock is read twice
unfoldable pub pending_approval :
    Coordinator → String → ℕ → ℕ → Coordinator × Result (Option PendingApproval)
unfolding advance
pending_approval s run_id now soon = elim (find run_id s.runs) [
  | none ↦ (s, err value_error)
  | some run ↦
      if not (is_phase run.phase awaiting_approval) || is_none run.preview
      then (s, ok none)
      else let (pending, approval) = Approvals.get s.approvals run_id now in
        expire (record s { approvals = pending }) run approval soon
]

-- `cancel`
unfoldable pub cancel : Coordinator → String → ℕ → Coordinator × Result ConsoleRun
cancel s run_id now = elim (find run_id s.runs) [
  | none ↦ (s, err value_error)
  | some run ↦
      if not (allows run.phase cancelled)
      then (s, err value_error)
      else advance (record s { approvals = Approvals.cancel s.approvals run_id }) run cancelled []
          now
]

module _ (upper : String → String) (ttl : ℕ) where
  -- `self._approvals.issue(...)`, where the run awaits approval
  abbrev pub put_up :
      RunPhase
      → String
      → DryRunResult
      → ℕ
      → Coordinator × Result ConsoleRun
      → Coordinator × Result ConsoleRun
  put_up phase run_id result now (s, err e) = (s, err e)
  put_up phase run_id result now (s, ok run) =
      if not (is_phase phase awaiting_approval)
      then (s, ok run)
      else let (pending, issued) = Approvals.issue upper ttl s.approvals run_id result now in
        (record s { approvals = pending }, issued >>= λ _. ok run)

  abbrev pub finish_preview :
      Coordinator
      → String
      → RunMode
      → ConsoleRun
      → Outcome DryRunResult
      → ℕ
      → ℕ
      → Coordinator × Result ConsoleRun
  finish_preview s run_id mode current (returned result) now soon =
      put_up (preview_phase mode result) run_id result soon (
        advance s current (preview_phase mode result)
          (set_preview (some result) ∷ set_error_code result.reason_code ∷ []) now)
  finish_preview s run_id mode current (raised failure) now soon =
      advance s current blocked (set_error_code (some (browser_code failure)) ∷ []) now

  -- `preview`, after its `await`, where the clock is read twice; `run` is the run that its first part read
  unfoldable pub end_preview :
      Coordinator
      → String
      → ConsoleRun
      → Outcome DryRunResult
      → ℕ
      → ℕ
      → Coordinator × Result ConsoleRun
  end_preview s run_id run outcome now soon =
      resume s run_id preflight
        (λ current. finish_preview s run_id run.mode current outcome now soon)
