-- ===== src/Console/Change/Planning.antt =====
-- console/coordinator.py: what planning a run, promoting it and registering one change.
use google_workspace_gmail_a.Common.{
  ℕ, String, Bool, true, false, ◌||◌, none, some, List, [], ◌∷◌, ◌≡◌, ◌≢◌, refl, sym, ap, ◌∙◌,
  subst, inl, inr, find, put, Bool-cases, Option-cases, Result, ok, err, arith,
}
use google_workspace_gmail_a.Schemas.Plan.{TaskPlan}
use google_workspace_gmail_a.Schemas.Operations.{
  RunMode, plan_only, RunPhase, planning, plan_ready, awaiting_approval, blocked, is_none,
}
use google_workspace_gmail_a.Console.Runs.{
  mem_phase, ConsoleRun, is_phase, is_phase_eq, is_mode, allows, is_active, build_run,
  build_run_same,
}
use google_workspace_gmail_a.Console.Coordinator.{
  Coordinator, Outcome, returned, raised, Update, set_plan, set_error_code, keep_run, keep_built,
  advance, new_run, start, create_from_plan, listen, configure_execution,
}
use google_workspace_gmail_a.Console.Coordinator.Planning.{
  resume, end_plan, finish_plan, promote, promote_plan, planner_code,
}
use google_workspace_gmail_a.Console.Change.{
  plan_targets, Change, unchanged, registered, promoted, HasOwnKey, IsKeyed, All-find, IsNew,
  advance-Change, runs-keep_run, approvals-keep_run,
}

-- A run that is found under a key is stored under its own id.
pub found_own :
    (s : Coordinator) (id : String) (run : ConsoleRun)
    → IsKeyed s.runs
    → find id s.runs ≡ some run
    → find run.run_id s.runs ≡ some run
found_own s id run keyed found =
    ap (λ key. find key s.runs) (All-find HasOwnKey id run s.runs keyed found) ∙ found

-- A resumed coroutine changes what its rest changes, where the run is still in its phase.
pub resume-Change :
    {phases : List RunPhase} (s : Coordinator) (id : String) (phase : RunPhase)
    (rest : ConsoleRun → Coordinator × Result ConsoleRun)
    → ((run : ConsoleRun)
        → find id s.runs ≡ some run
        → run.phase ≡ phase
        → Change phases s (rest run).0)
    → Change phases s (resume s id phase rest).0
resume-Change s id phase rest on_rest = elim (Option-cases (find id s.runs)) [
  | inl e ↦ rw (e, resume) (unchanged refl (inl refl))
  | inr (run, e) ↦
      rw (e, resume)
        (elim (Bool-cases (is_phase run.phase phase)) [
          | inl p ↦ rw p (on_rest run e (is_phase_eq run.phase phase p))
          | inr p ↦ rw p (unchanged refl (inl refl))
        ])
]

-- From planning, a run that is not put up for approval advances without the browser.
leave :
    (s : Coordinator) (id : String) (run : ConsoleRun) (phase : RunPhase) (updates : List Update)
    (now : ℕ)
    → IsKeyed s.runs
    → find id s.runs ≡ some run
    → run.phase ≡ planning
    → allows planning phase ≡ true
    → is_active phase ≡ false
    → phase ≢ awaiting_approval
    → mem_phase phase plan_targets ≡ true
    → Change plan_targets s (advance s run phase updates now).0
leave s id run phase updates now keyed found at_planning permitted quiet other member =
    advance-Change s s.approvals run phase updates now _ (inl refl) (found_own s id run keyed found)
      (rw at_planning permitted) (inl quiet) other member

pub end_plan-Change :
    (s : Coordinator) (id : String) (outcome : Outcome TaskPlan) (now : ℕ)
    → IsKeyed s.runs
    → Change plan_targets s (end_plan s id outcome now).0
unfolding end_plan
end_plan-Change s id outcome now keyed =
    resume-Change s id planning (λ run. finish_plan s run outcome now)
      (λ run found at_planning. finish outcome run found at_planning)
  where
    finish :
        (outcome : Outcome TaskPlan) (run : ConsoleRun)
        → find id s.runs ≡ some run
        → run.phase ≡ planning
        → Change plan_targets s (finish_plan s run outcome now).0
    finish (returned plan) run found at_planning =
        leave s id run plan_ready (set_plan (some plan) ∷ []) now keyed found at_planning refl refl
          (λ e. cc) refl
    finish (raised failure) run found at_planning =
        leave s id run blocked (set_error_code (some (planner_code failure)) ∷ []) now keyed found
          at_planning refl refl (λ e. cc) refl

keep_built-Change :
    (s : Coordinator) (r : ConsoleRun)
    → find r.run_id s.runs ≡ none
    → IsNew r
    → Change [] s (keep_built s (build_run r)).0
unfolding build_run
keep_built-Change s r fresh new = by_result (build_run r) (λ run e. build_run_same r run e)
  where
    by_result :
        (built : Result ConsoleRun)
        → ((run : ConsoleRun) → built ≡ ok run → run ≡ r)
        → Change [] s (keep_built s built).0
    by_result (err e) same = unchanged refl (inl refl)
    by_result (ok run) same =
        subst (λ x. Change [] s (keep_run s x.run_id x)) (sym (same run refl))
          (registered r fresh new (runs-keep_run s r.run_id r) (approvals-keep_run s r.run_id r))

pub start-Change :
    (s : Coordinator) (id request_text : String) (mode : RunMode) (now : ℕ)
    → find id s.runs ≡ none
    → Change [] s (start s id request_text mode now).0
unfolding start
start-Change s id request_text mode now fresh =
    keep_built-Change s (new_run id request_text mode planning now none) fresh
      (record { first_phase = inl refl; first_entry = (now, refl) })

pub create_from_plan-Change :
    (s : Coordinator) (id request_text : String) (mode : RunMode) (plan : TaskPlan) (now : ℕ)
    → find id s.runs ≡ none
    → Change [] s (create_from_plan s id request_text mode plan now).0
unfolding create_from_plan
create_from_plan-Change s id request_text mode plan now fresh =
    keep_built-Change s (new_run id request_text mode plan_ready now (some plan)) fresh
      (record { first_phase = inr refl; first_entry = (now, refl) })

pub promote_plan-Change :
    (s : Coordinator) (id : String) (mode : RunMode) (now : ℕ)
    → IsKeyed s.runs
    → Change [] s (promote_plan s id mode now).0
unfolding promote_plan
promote_plan-Change s id mode now keyed = elim (Option-cases (find id s.runs)) [
  | inl e ↦ rw (e, promote_plan) (unchanged refl (inl refl))
  | inr (run, e) ↦ rw (e, promote_plan) (held run e)
]
  where
    held :
        (run : ConsoleRun) → find id s.runs ≡ some run → Change [] s (promote s id mode now run).0
    held run found = elim (Bool-cases (is_phase run.phase plan_ready)) [
      | inr p ↦ rw p (unchanged refl (inl refl))
      | inl p ↦ rw p (elim (Bool-cases (is_none run.plan || is_mode mode plan_only)) [
        | inl q ↦ rw q (unchanged refl (inl refl))
        | inr q ↦ rw q (elim (Bool-cases (is_mode run.mode mode)) [
          | inl m ↦ rw m (unchanged refl (inl refl))
          | inr m ↦ rw m (
              promoted run mode now (found_own s id run keyed found)
                (is_phase_eq run.phase plan_ready p)
                (runs-keep_run s id (record run { mode = mode; updated_at = now })
                  ∙ ap (λ key. put key (record run { mode = mode; updated_at = now }) s.runs)
                      (sym (All-find HasOwnKey id run s.runs keyed found)))
                (approvals-keep_run s id (record run { mode = mode; updated_at = now })))
        ])
      ])
    ]

pub configure_execution-Change :
    (s : Coordinator) (dry_run live_runner : Bool)
    → Change [] s (configure_execution s dry_run live_runner).0
unfolding configure_execution
configure_execution-Change s dry_run live_runner = ground arith

pub listen-Change : (s : Coordinator) (id : String) → Change [] s (listen s id)
unfolding listen
listen-Change s id = ground arith
