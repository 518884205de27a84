-- ===== src/Console/Authorized.antt =====
-- console/coordinator.py with application/approval_service.py: what the live runner is called with.
pub mod Calls
use mathlib.Core.List.{Memᴰ}
use google_workspace_gmail_a.Common.{
  ℕ, String, Bool, true, false, All, Option, none, some, List, [], ◌∷◌, ◌≡◌, refl, sym, ap, ◌∙◌,
  subst, inl, inr, find, Bool-cases, Option-cases, All-Memᴰ, Result, ok, err, value_error,
  if◌then◌else◌, not, if_cases,
}
use google_workspace_gmail_a.Schemas.Operations.{
  DryRunResult, preview_ready, planning, awaiting_approval, executing, blocked, preflight,
}
use google_workspace_gmail_a.Approvals.{PendingApproval, ConfirmationResponse, Pending}
use google_workspace_gmail_a.Approvals.Single.{IsGiven}
use google_workspace_gmail_a.Console.Runs.{ConsoleRun, is_phase}
use google_workspace_gmail_a.Console.Coordinator.{
  CoroutineProgress, Coordinator, Task, plan_task, preview_task, live_task, advance, advanced,
  set_error_code, set_preview, set_result,
}
use google_workspace_gmail_a.Console.Coordinator.Planning.{begin_plan}
use google_workspace_gmail_a.Console.Coordinator.Previewing.{
  begin_preview, open_preview, refuses_preview, and_finish, and_suspend,
}
use google_workspace_gmail_a.Console.Change.{IsKeyed, HasOwnKey, All-find}
use google_workspace_gmail_a.Console.Journal.{Journal}
use google_workspace_gmail_a.Console.Steps.{
  IsTaken, here, there, and_task, Step, Steps, started, created, plan_began, plan_ended,
  mode_chosen, preview_began, preview_ended, approval_read, run_cancelled, approve_began,
  approve_ended, listened, configured, stay, next, new_coordinator,
}
use google_workspace_gmail_a.Console.Kept.{Step-Change, Steps-IsKeyed, new_coordinator-IsKeyed}
use google_workspace_gmail_a.Console.Change.Approving.{
  Approving, refuses, blocks, launches, begin_approve-Approving,
}
use google_workspace_gmail_a.Console.Covered.{IsCovered, Change-IsCovered}
use google_workspace_gmail_a.Console.Authorized.Calls.{
  IsAuthorized, IsAuthorizedTask, Approving-tasks, begin_preview-tasks, begin_plan-task,
}

IsTaken-All :
    (P : Task → Type 0) {task : Task} {ts rest : List Task}
    → IsTaken task ts rest
    → All P ts
    → All P rest
IsTaken-All P here h = h.1
IsTaken-All P (there taken) h = (h.0, IsTaken-All P taken h.1)

module _ (upper : String → String) (ttl : ℕ) where
  Step-tasks :
      {s t : Coordinator} {ts us : List Task}
      → Step upper ttl s ts t us
      → IsCovered s
      → IsKeyed s.runs
      → All IsAuthorizedTask ts
      → All IsAuthorizedTask us
  Step-tasks (started id request_text mode now fresh) covered keyed h = h
  Step-tasks (created id request_text mode plan now fresh) covered keyed h = h
  Step-tasks {s} (plan_began id task e) covered keyed h = (begin_plan-task s id task e, h)
  Step-tasks (plan_ended id outcome now taken) covered keyed h =
      IsTaken-All IsAuthorizedTask taken h
  Step-tasks (mode_chosen id mode now) covered keyed h = h
  Step-tasks {s} {ts = ts} (preview_began id now) covered keyed h =
      begin_preview-tasks s ts id now h
  Step-tasks (preview_ended id run outcome now soon taken built) covered keyed h =
      IsTaken-All IsAuthorizedTask taken h
  Step-tasks (approval_read id now soon) covered keyed h = h
  Step-tasks (run_cancelled id now) covered keyed h = h
  Step-tasks {s} {ts = ts} (approve_began id phrase acknowledged approval_id now soon) covered keyed
        h =
      Approving-tasks s ts
        (begin_approve-Approving s id phrase acknowledged approval_id now soon keyed) covered keyed
        h
  Step-tasks (approve_ended id run confirmation outcome source now taken) covered keyed h =
      IsTaken-All IsAuthorizedTask taken h
  Step-tasks (listened id) covered keyed h = h
  Step-tasks (configured dry_run live_runner) covered keyed h = h

  Steps-tasks :
      {s : Coordinator} {ts : List Task} {t : Coordinator} {us : List Task}
      → Steps upper ttl s ts t us
      → IsCovered s
      → IsKeyed s.runs
      → All IsAuthorizedTask ts
      → IsCovered t × All IsAuthorizedTask us
  Steps-tasks stay covered keyed h = (covered, h)
  Steps-tasks (next before step) covered keyed h =
      let (earlier, tasks) = Steps-tasks before covered keyed h in
      let own = Steps-IsKeyed upper ttl before keyed in
      (
        Change-IsCovered upper ttl (Step-Change upper ttl step own) earlier,
        Step-tasks step earlier own tasks,
      )

  -- In every interleaving of the calls of a console that started with any runs and no approvals,
  -- whenever the live runner has been called with a run and a confirmation, that run was
  -- executing, it shows a preview that was ready, and the confirmation carries the plan hash, the
  -- state hash and the change set hash of exactly that preview.
  pub live_run-IsAuthorized :
      (initial_runs : List ConsoleRun) {dry_run live_runner : Bool} {journal : Option Journal}
      {s : Coordinator} {ts : List Task} (id : String) (run : ConsoleRun)
      (confirmation : ConfirmationResponse)
      → Steps upper ttl (new_coordinator initial_runs dry_run live_runner journal) [] s ts
      → Memᴰ (live_task id run confirmation) ts
      → IsAuthorized id run confirmation
  live_run-IsAuthorized initial_runs {ts = ts} id run confirmation steps called =
      All-Memᴰ IsAuthorizedTask ts
        ((Steps-tasks steps (λ i r a found waiting held. absurd (empty held))
          (new_coordinator-IsKeyed initial_runs) tt).1)
        called
    where
      empty : {a : PendingApproval} → none ≡ some a → ⊥
      empty h = cc
