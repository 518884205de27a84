-- ===== src/Console/Coordinator/Planning.antt =====
-- console/coordinator.py: the planning of a run, and its promotion to another mode.
use google_workspace_gmail_a.Common.{
  ℕ, String, not, ◌||◌, none, some, [], ◌∷◌, if◌then◌else◌, find, Result, ok, err, value_error,
}
use google_workspace_gmail_a.Schemas.Plan.{TaskPlan}
use google_workspace_gmail_a.Schemas.Operations.{
  RunMode, plan_only, RunPhase, planning, plan_ready, blocked, is_none,
}
use google_workspace_gmail_a.Console.Runs.{ConsoleRun, is_phase, is_mode}
use google_workspace_gmail_a.Console.Coordinator.{
  Coordinator, Task, plan_task, Failure, planner_failure, run_lock_unavailable, other, Outcome,
  returned, raised, set_plan, set_error_code, notify, keep_run, advance,
}

-- `plan`, up to its `await`
unfoldable pub begin_plan : Coordinator → String → Result Task
begin_plan s run_id = elim (find run_id s.runs) [
  | none ↦ err value_error
  | some run ↦ if not (is_phase run.phase planning) then err value_error else ok (plan_task run_id)
]

-- the name of an exception's class
abbrev pub failure_name : Failure → String
failure_name planner_failure = "PlannerFailure"
failure_name run_lock_unavailable = "RunLockUnavailable"
failure_name (other name) = name

abbrev pub planner_code : Failure → String
planner_code planner_failure = "planner_unavailable"
planner_code failure = failure_name failure

abbrev pub browser_code : Failure → String
browser_code run_lock_unavailable = "run_lock_unavailable"
browser_code failure = failure_name failure

abbrev pub finish_plan :
    Coordinator → ConsoleRun → Outcome TaskPlan → ℕ → Coordinator × Result ConsoleRun
finish_plan s current (returned plan) now =
    advance s current plan_ready (set_plan (some plan) ∷ []) now
finish_plan s current (raised failure) now =
    advance s current blocked (set_error_code (some (planner_code failure)) ∷ []) now

-- `current = self._require(run_id); if current.phase != phase: return current; ...`
abbrev pub resume :
    Coordinator
    → String
    → RunPhase
    → (ConsoleRun → Coordinator × Result ConsoleRun)
    → Coordinator × Result ConsoleRun
resume s run_id phase rest = elim (find run_id s.runs) [
  | none ↦ (s, err value_error)
  | some current ↦ if not (is_phase current.phase phase) then (s, ok current) else rest current
]

-- `plan`, after its `await`
unfoldable pub end_plan :
    Coordinator → String → Outcome TaskPlan → ℕ → Coordinator × Result ConsoleRun
end_plan s run_id outcome now =
    resume s run_id planning (λ current. finish_plan s current outcome now)

-- `promote_plan`, of the run that is there
abbrev pub promote :
    Coordinator → String → RunMode → ℕ → ConsoleRun → Coordinator × Result ConsoleRun
promote s run_id mode now run =
    if not (is_phase run.phase plan_ready) || (is_none run.plan || is_mode mode plan_only)
    then (s, err value_error)
    else if is_mode run.mode mode
    then (s, ok run)
    else let promoted = record run { mode = mode; updated_at = now } in
      (notify run_id (keep_run s run_id promoted), ok promoted)

-- `promote_plan`
unfoldable pub promote_plan : Coordinator → String → RunMode → ℕ → Coordinator × Result ConsoleRun
promote_plan s run_id mode now = elim (find run_id s.runs) [
  | none ↦ (s, err value_error)
  | some run ↦ promote s run_id mode now run
]
