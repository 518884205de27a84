-- ===== src/Console/Ended.antt =====
-- console/coordinator.py: the end of an execution.
use google_workspace_gmail_a.Common.{
  ℕ, String, Bool, true, false, not, Option, some, List, [], ◌∷◌, ◌≡◌, refl, sym, ap, ◌∙◌, subst,
  find, put, find-put_self, Result, ok, if◌then◌else◌,
}
use google_workspace_gmail_a.Schemas.Operations.{RunPhase, executing, interrupted}
use google_workspace_gmail_a.Reporting.{RunResult}
use google_workspace_gmail_a.Console.Runs.{ConsoleRun, is_phase, mem_phase, allows}
use google_workspace_gmail_a.Console.Journal.{is_terminal, terminal_phases}
use google_workspace_gmail_a.Console.Coordinator.{
  Coordinator, advance, advanced, Update, set_result, set_error_code, set_source_run_id, Outcome,
  returned, raised,
}
use google_workspace_gmail_a.Console.Coordinator.Planning.{resume, browser_code}
use google_workspace_gmail_a.Console.Coordinator.Executing.{
  end_approve, finish_execution, result_phase, result_code,
}
use google_workspace_gmail_a.Console.Change.{
  IsKeyed, HasOwnKey, All-find, advance_returns, runs-keep_run,
}
use google_workspace_gmail_a.Console.Change.Previewing.{result_phase_ends}
use google_workspace_gmail_a.Console.Change.Planning.{found_own}

-- What a coroutine that resumes for an executing run leaves: the run has ended, it is what the
-- call returns, and it is stored.
pub record IsEnded (id : String) (after : Coordinator × Result ConsoleRun) : Type 0 where
  pub run : ConsoleRun
  pub answer : after.1 ≡ ok run
  pub ended : is_terminal run ≡ true
  pub stored : find id after.0.runs ≡ some run

advance-IsEnded :
    (s : Coordinator) (id : String) (run : ConsoleRun) (phase : RunPhase) (updates : List Update)
    (now : ℕ)
    → IsKeyed s.runs
    → find id s.runs ≡ some run
    → run.phase ≡ executing
    → allows executing phase ≡ true
    → mem_phase phase terminal_phases ≡ true
    → IsEnded id (advance s run phase updates now)
advance-IsEnded s id run phase updates now keyed found running permitted ends =
    let own = All-find HasOwnKey id run s.runs keyed found in
    let at_own = found_own s id run keyed found in
    let next = advanced run phase updates now in
    subst (IsEnded id) (sym (advance_returns s run phase updates now at_own (rw running permitted)))
      (record {
        run = next;
        answer = refl;
        ended = ends;
        stored =
            ap (find id) (runs-keep_run s run.run_id next)
            ∙ ap (λ key. find id (put key next s.runs)) own
            ∙ find-put_self id next s.runs;
      })

-- Where every run is stored under its own id, whatever the live runner answers or raises, a run
-- that is executing ends: the call returns it in a terminal phase, and that is what the console
-- keeps.
pub end_approve-IsEnded :
    (s : Coordinator) (id : String) (run : ConsoleRun) (outcome : Outcome RunResult)
    (source : Option String) (now : ℕ)
    → IsKeyed s.runs
    → find id s.runs ≡ some run
    → run.phase ≡ executing
    → IsEnded id (end_approve s id outcome source now)
unfolding end_approve
end_approve-IsEnded s id run outcome source now keyed found running =
    rw (found, end_approve, resume) (resumed (is_phase run.phase executing) (rw running refl))
  where
    finish : (outcome : Outcome RunResult) → IsEnded id (finish_execution s run outcome source now)
    finish (returned result) =
        let (permitted, quiet, other, member, ends) = result_phase_ends result.status in
        advance-IsEnded s id run (result_phase result.status)
          (set_result (some result)
            ∷ set_error_code (result_code result result.error_code)
            ∷ set_source_run_id source
            ∷ [])
          now keyed found running permitted ends
    finish (raised failure) =
        advance-IsEnded s id run interrupted (set_error_code (some (browser_code failure)) ∷ []) now
          keyed found running refl refl

    resumed :
        (same : Bool)
        → same ≡ true
        → IsEnded id (if not same then (s, ok run) else finish_execution s run outcome source now)
    resumed true e = finish outcome
    resumed false e = cc
