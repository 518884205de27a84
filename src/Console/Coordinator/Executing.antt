-- ===== src/Console/Coordinator/Executing.antt =====
-- console/coordinator.py: the approval and the execution of a run.
use google_workspace_gmail_a.Common.{
  true, false, ℕ, String, Bool, not, Option, none, some, [], ◌∷◌, if◌then◌else◌, is_blank, find,
  Result, ok, err, value_error,
}
use google_workspace_gmail_a.Schemas.Operations.{
  RunPhase, awaiting_approval, executing, completed, blocked, interrupted,
}
use google_workspace_gmail_a.Reporting.{
  RunResult, RunStatus, no_change_required, dry_run_preview_ready, confirmation_rejected,
  applied_ui_verified, applied_pending_propagation, partially_applied, failed_unchanged,
  indeterminate, unsupported,
}
use google_workspace_gmail_a.Approvals.{
  PendingApproval, ConfirmationResponse, Pending, is_preview_ready,
}
use google_workspace_gmail_a.Approvals
use google_workspace_gmail_a.Console.Runs.{ConsoleRun, is_phase}
use google_workspace_gmail_a.Console.Coordinator.{
  Coordinator, live_task, Outcome, returned, raised, CoroutineProgress, set_result, set_error_code,
  set_source_run_id, advance,
}
use google_workspace_gmail_a.Console.Coordinator.Planning.{browser_code, resume}
use google_workspace_gmail_a.Console.Coordinator.Previewing.{and_finish, and_suspend}

-- a confirmed run, with a live runner or without
abbrev pub launch :
    Coordinator
    → String
    → ConsoleRun
    → ConfirmationResponse
    → ℕ
    → Bool
    → Coordinator × Result CoroutineProgress
launch s run_id run confirmation now false =
    and_finish
      (advance s run blocked (set_error_code (some "accepted_live_runner_required") ∷ []) now)
launch s run_id run confirmation now true =
    and_suspend (λ next. live_task run_id next confirmation) (advance s run executing [] now)

-- `approve`, after the approval service answered
abbrev pub execute :
    Coordinator
    → String
    → ConsoleRun
    → Result ConfirmationResponse
    → ℕ
    → Coordinator × Result CoroutineProgress
execute s run_id run (err e) now = (s, err e)
execute s run_id run (ok confirmation) now = launch s run_id run confirmation now s.has_live_runner

-- `approve`, up to its `await`, where the clock is read twice
unfoldable pub begin_approve :
    Coordinator → String → String → Bool → String → ℕ → ℕ → Coordinator × Result CoroutineProgress
begin_approve s run_id phrase acknowledged approval_id now soon = elim (find run_id s.runs) [
  | none ↦ (s, err value_error)
  | some run ↦
      if not (is_phase run.phase awaiting_approval)
      then (s, err value_error)
      else let (pending, answer) =
          Approvals.approve s.approvals run_id phrase acknowledged approval_id now in
        execute (record s { approvals = pending }) run_id run answer soon
]

-- the phase after an execution: `_INTERRUPTED_RESULTS` and `_BLOCKED_RESULTS`
abbrev pub result_phase : RunStatus → RunPhase
result_phase partially_applied = interrupted
result_phase indeterminate = interrupted
result_phase confirmation_rejected = blocked
result_phase failed_unchanged = blocked
result_phase unsupported = blocked
result_phase _ = completed

-- `status.value`
abbrev status_value : RunStatus → String
status_value no_change_required = "no_change_required"
status_value dry_run_preview_ready = "dry_run_preview_ready"
status_value confirmation_rejected = "confirmation_rejected"
status_value applied_ui_verified = "applied_ui_verified"
status_value applied_pending_propagation = "applied_pending_propagation"
status_value partially_applied = "partially_applied"
status_value failed_unchanged = "failed_unchanged"
status_value indeterminate = "indeterminate"
status_value unsupported = "unsupported"

abbrev status_code : RunResult → Option String
status_code result =
    if is_phase (result_phase result.status) completed
    then none
    else some (status_value result.status)

-- `result.error_code or ...`
abbrev pub result_code : RunResult → Option String → Option String
result_code result none = status_code result
result_code result (some code) = if is_blank code then status_code result else some code

abbrev pub finish_execution :
    Coordinator
    → ConsoleRun
    → Outcome RunResult
    → Option String
    → ℕ
    → Coordinator × Result ConsoleRun
finish_execution s current (returned result) source now =
    advance s current (result_phase result.status)
      (set_result (some result)
        ∷ set_error_code (result_code result result.error_code)
        ∷ set_source_run_id source
        ∷ [])
      now
finish_execution s current (raised failure) source now =
    advance s current interrupted (set_error_code (some (browser_code failure)) ∷ []) now

-- `approve`, after its `await`; `source` is the live runner's `last_run_id`
unfoldable pub end_approve :
    Coordinator → String → Outcome RunResult → Option String → ℕ → Coordinator × Result ConsoleRun
end_approve s run_id outcome source now =
    resume s run_id executing (λ current. finish_execution s current outcome source now)
