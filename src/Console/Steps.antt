-- ===== src/Console/Steps.antt =====
-- console/coordinator.py: every interleaving of the calls of one console. A coroutine that is
-- suspended at its `await` is a task, and resumes after any calls of the others.
use google_workspace_gmail_a.Common.{
  ℕ, String, Bool, Option, none, List, [], ◌∷◌, ◌≡◌, TextDict, find, put, Result, ok, err,
}
use google_workspace_gmail_a.Schemas.Plan.{TaskPlan}
use google_workspace_gmail_a.Schemas.Operations.{RunMode, DryRunResult}
use google_workspace_gmail_a.Reporting.{RunResult}
use google_workspace_gmail_a.Approvals.{ConfirmationResponse}
use google_workspace_gmail_a.Console.Runs.{ConsoleRun}
use google_workspace_gmail_a.Console.Journal.{Journal}
use google_workspace_gmail_a.Console.Coordinator.{
  Coordinator, Task, plan_task, preview_task, live_task, Outcome, CoroutineProgress, finished,
  suspended, start, create_from_plan, listen, configure_execution,
}
use google_workspace_gmail_a.Console.Coordinator.Planning.{begin_plan, end_plan, promote_plan}
use google_workspace_gmail_a.Console.Coordinator.Previewing.{
  begin_preview, end_preview, pending_approval, cancel,
}
use google_workspace_gmail_a.Console.Coordinator.Executing.{begin_approve, end_approve}
use google_workspace_gmail_a.Console.Change.PutUp.{IsBuilt}

-- `{run.run_id: run for run in runs}`
abbrev pub runs_by_id : List ConsoleRun → TextDict ConsoleRun → TextDict ConsoleRun
runs_by_id [] indexed = indexed
runs_by_id (run ∷ runs) indexed = runs_by_id runs (put run.run_id run indexed)

-- `ConsoleCoordinator.__init__`
abbrev pub new_coordinator : List ConsoleRun → Bool → Bool → Option Journal → Coordinator
new_coordinator initial_runs dry_run live_runner journal = record {
  runs = runs_by_id initial_runs [];
  approvals = [];
  has_dry_run = dry_run;
  has_live_runner = live_runner;
  journal = journal;
  listeners = [];
}

-- The task is one of the first tasks, and the second are the others.
pub data IsTaken (task : Task) : List Task → List Task → Type 0 where
  here : {tasks : List Task} → IsTaken task (task ∷ tasks) tasks
  there :
      {other : Task} {tasks rest : List Task}
      → IsTaken task tasks rest
      → IsTaken task (other ∷ tasks) (other ∷ rest)

-- the tasks after the first part of a coroutine
abbrev pub and_task : Result CoroutineProgress → List Task → List Task
and_task (err e) tasks = tasks
and_task (ok (finished run)) tasks = tasks
and_task (ok (suspended task)) tasks = task ∷ tasks

-- One call, or one coroutine up to its `await` or after it. The id of a new run is a fresh UUID.
pub data Step (upper : String → String) (ttl : ℕ) (s : Coordinator) (ts : List Task)
    : Coordinator → List Task → Type 0 where
  started :
      (id request_text : String) (mode : RunMode) (now : ℕ)
      → find id s.runs ≡ none
      → Step upper ttl s ts (start s id request_text mode now).0 ts
  created :
      (id request_text : String) (mode : RunMode) (plan : TaskPlan) (now : ℕ)
      → find id s.runs ≡ none
      → Step upper ttl s ts (create_from_plan s id request_text mode plan now).0 ts
  plan_began :
      (id : String) (task : Task) → begin_plan s id ≡ ok task → Step upper ttl s ts s (task ∷ ts)
  plan_ended :
      {rest : List Task} (id : String) (outcome : Outcome TaskPlan) (now : ℕ)
      → IsTaken (plan_task id) ts rest
      → Step upper ttl s ts (end_plan s id outcome now).0 rest
  mode_chosen :
      (id : String) (mode : RunMode) (now : ℕ)
      → Step upper ttl s ts (promote_plan s id mode now).0 ts
  preview_began :
      (id : String) (now : ℕ)
      → Step upper ttl s ts (begin_preview s id now).0 (and_task (begin_preview s id now).1 ts)
  preview_ended :
      {rest : List Task} (id : String) (run : ConsoleRun) (outcome : Outcome DryRunResult)
      (now soon : ℕ)
      → IsTaken (preview_task id run) ts rest
      → IsBuilt outcome
      → Step upper ttl s ts (end_preview upper ttl s id run outcome now soon).0 rest
  approval_read :
      (id : String) (now soon : ℕ) → Step upper ttl s ts (pending_approval s id now soon).0 ts
  run_cancelled : (id : String) (now : ℕ) → Step upper ttl s ts (cancel s id now).0 ts
  approve_began :
      (id phrase : String) (acknowledged : Bool) (approval_id : String) (now soon : ℕ)
      → Step upper ttl s ts
          (begin_approve s id phrase acknowledged approval_id now soon).0
          (and_task (begin_approve s id phrase acknowledged approval_id now soon).1 ts)
  approve_ended :
      {rest : List Task} (id : String) (run : ConsoleRun) (confirmation : ConfirmationResponse)
      (outcome : Outcome RunResult) (source : Option String) (now : ℕ)
      → IsTaken (live_task id run confirmation) ts rest
      → Step upper ttl s ts (end_approve s id outcome source now).0 rest
  listened : (id : String) → Step upper ttl s ts (listen s id) ts
  configured :
      (dry_run live_runner : Bool)
      → Step upper ttl s ts (configure_execution s dry_run live_runner).0 ts

pub data Steps (upper : String → String) (ttl : ℕ) (s : Coordinator) (ts : List Task)
    : Coordinator → List Task → Type 0 where
  stay : Steps upper ttl s ts s ts
  next :
      {t u : Coordinator} {us vs : List Task}
      → Steps upper ttl s ts t us
      → Step upper ttl t us u vs
      → Steps upper ttl s ts u vs
