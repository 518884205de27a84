-- ===== src/Console/Coordinator.antt =====
-- console/coordinator.py: the operations of the run coordinator, one function for each part of a
-- coroutine between its `await`s. A call returns the coordinator as it is afterwards, also when it
-- raises. The planner, the preview service and the live runner are what an `await` answers; a
-- listener is the id of the run that it waits for. The times that `self._clock()` returns and the
-- ids of `self._identifiers` are arguments, and so is `str.upper`.
pub mod Planning
pub mod Previewing
pub mod Executing
use google_workspace_gmail_a.Common.{
  ℕ, String, Bool, true, false, not, ◌&&◌, ◌||◌, Option, none, some, List, [], ◌∷◌, ◌++◌, leb,
  if◌then◌else◌, strip, is_blank, ◌=s=◌, TextDict, find, put, Result, ok, err, value_error, any,
  select, sort_by, map, decided, ◌>>=◌, first,
}
use google_workspace_gmail_a.Schemas.Plan.{TaskPlan}
use google_workspace_gmail_a.Schemas.Operations.{
  RunMode, plan_only, live, RunPhase, planning, plan_ready, preflight, preview_shown,
  awaiting_approval, executing, completed, blocked, cancelled, interrupted, DryRunResult,
  DryRunStatus, preview_ready, dry_run_blocked, is_none,
}
use google_workspace_gmail_a.Reporting.{
  RunResult, RunStatus, no_change_required, dry_run_preview_ready, confirmation_rejected,
  applied_ui_verified, applied_pending_propagation, partially_applied, failed_unchanged,
  indeterminate, unsupported,
}
use google_workspace_gmail_a.Approvals.{
  PendingApproval, ConfirmationResponse, Pending, is_preview_ready,
}
use google_workspace_gmail_a.Approvals
use google_workspace_gmail_a.Console.Runs.{
  ConsoleRun, ConsoleRun-discrete, PhaseTransition, is_phase, is_mode, mem_phase, allows, is_active,
  build_run,
}
use google_workspace_gmail_a.Console.Journal.{Journal, save}

pub record Coordinator : Type 0 where
  pub runs : TextDict ConsoleRun
  pub approvals : Pending
  pub has_dry_run : Bool
  pub has_live_runner : Bool
  pub journal : Option Journal
  pub listeners : List String

-- a coroutine that is suspended at its `await`, with its local variables
pub data Task : Type 0 where
  plan_task : (run_id : String) → Task
  preview_task : (run_id : String) → (run : ConsoleRun) → Task
  live_task : (run_id : String) → (run : ConsoleRun) → ConfirmationResponse → Task

-- the exceptions that the coordinator tells apart: the others carry the name of their class
pub data Failure : Type 0 where
  planner_failure run_lock_unavailable : Failure
  other : String → Failure

-- what an `await` answers
pub data Outcome (T : Type 0) : Type 0 where
  returned : T → Outcome T
  raised : Failure → Outcome T

-- the coroutine ends without an `await`, or is suspended
pub data CoroutineProgress : Type 0 where
  finished : ConsoleRun → CoroutineProgress
  suspended : Task → CoroutineProgress

-- the keyword arguments of `_advance`
pub data Update : Type 0 where
  set_plan : Option TaskPlan → Update
  set_preview : Option DryRunResult → Update
  set_result : Option RunResult → Update
  set_error_code : Option String → Update
  set_source_run_id : Option String → Update

abbrev pub update : Update → ConsoleRun → ConsoleRun
update (set_plan plan) run = record run { plan = plan }
update (set_preview preview) run = record run { preview = preview }
update (set_result result) run = record run { result = result }
update (set_error_code code) run = record run { error_code = code }
update (set_source_run_id id) run = record run { source_run_id = id }

abbrev pub apply_updates : List Update → ConsoleRun → ConsoleRun
apply_updates [] run = run
apply_updates (u ∷ updates) run = apply_updates updates (update u run)

-- `updates.get("error_code")`
abbrev pub error_code_of : List Update → Option String
error_code_of [] = none
error_code_of (set_error_code code ∷ updates) = code
error_code_of (u ∷ updates) = error_code_of updates

-- `list_runs`: the newest first
unfoldable pub list_runs : Coordinator → List ConsoleRun
list_runs s = sort_by (λ a b. leb b.created_at a.created_at) (map (λ e. e.1) s.runs)

-- `active_browser_run`
unfoldable pub active_browser_run : Coordinator → Option ConsoleRun
active_browser_run s = first (λ run. is_active run.phase) (map (λ e. e.1) s.runs)

-- `_save`, where the journal's file takes the write
abbrev pub save_runs : Coordinator → Coordinator
save_runs s = elim s.journal [
  | none ↦ s
  | some journal ↦ record s { journal = some (save journal (list_runs s)) }
]

-- `_notify`
abbrev pub notify : String → Coordinator → Coordinator
notify run_id s = record s { listeners = select (λ id. not (id =s= run_id)) listeners }
  where
    open s use {listeners}

-- `wait_for_update`, up to its `await`
unfoldable pub listen : Coordinator → String → Coordinator
listen s run_id =
    if any (λ id. id =s= run_id) s.listeners
    then s
    else record s { listeners = listeners ++ run_id ∷ [] }
  where
    open s use {listeners}

-- `configure_execution`
unfoldable pub configure_execution : Coordinator → Bool → Bool → Coordinator × Result (Unit {0})
configure_execution s dry_run live_runner = elim (active_browser_run s) [
  | some run ↦ (s, err value_error)
  | none ↦ (record s { has_dry_run = dry_run; has_live_runner = live_runner }, ok tt)
]

-- `self._runs[run_id] = run; self._save()`
abbrev pub keep_run : Coordinator → String → ConsoleRun → Coordinator
keep_run s run_id run = save_runs (record s { runs = put run_id run runs })
  where
    open s use {runs}

-- a run that was built is kept
abbrev pub keep_built : Coordinator → Result ConsoleRun → Coordinator × Result ConsoleRun
keep_built s (err e) = (s, err e)
keep_built s (ok run) = (keep_run s run.run_id run, ok run)

abbrev pub new_run : String → String → RunMode → RunPhase → ℕ → Option TaskPlan → ConsoleRun
new_run run_id request_text mode phase now plan = record {
  run_id = run_id;
  request_text = strip request_text;
  mode = mode;
  phase = phase;
  created_at = now;
  updated_at = now;
  plan = plan;
  preview = none;
  result = none;
  error_code = none;
  source_run_id = none;
  history = record { phase = phase; moment = now; error_code = none } ∷ [];
}

-- `start`
unfoldable pub start : Coordinator → String → String → RunMode → ℕ → Coordinator × Result ConsoleRun
start s run_id request_text mode now =
    keep_built s (build_run (new_run run_id request_text mode planning now none))

-- `create_from_plan`
unfoldable pub create_from_plan :
    Coordinator → String → String → RunMode → TaskPlan → ℕ → Coordinator × Result ConsoleRun
create_from_plan s run_id request_text mode plan now =
    keep_built s (build_run (new_run run_id request_text mode plan_ready now (some plan)))

-- the run of `_advance`
abbrev pub advanced : ConsoleRun → RunPhase → List Update → ℕ → ConsoleRun
advanced run phase updates now = record (apply_updates updates run) {
  phase = phase;
  updated_at = now;
  history =
      history ++ record { phase = phase; moment = now; error_code = error_code_of updates } ∷ [];
}
  where
    open run use {history}

-- `_advance`
unfoldable pub advance :
    Coordinator → ConsoleRun → RunPhase → List Update → ℕ → Coordinator × Result ConsoleRun
advance s run phase updates now = elim (find run.run_id s.runs) [
  | none ↦ (s, err value_error)
  | some current ↦
      if not (decided (ConsoleRun-discrete current run)) || not (allows run.phase phase)
      then (s, err value_error)
      else let next = advanced run phase updates now in
        (notify run.run_id (keep_run s run.run_id next), ok next)
]
