-- ===== src/Console/Waiting.antt =====
-- console/coordinator.py: what an executing run waits for.
use mathlib.Core.List.{Memᴰ}
use google_workspace_gmail_a.Common.{
  ℕ, String, Bool, true, false, Option, some, List, [], ◌≡◌, ◌≢◌, refl, sym, ap, ◌∙◌, subst, inl,
  inr, ◌⊎◌, find, Result, ok, err,
}
use google_workspace_gmail_a.Schemas.Operations.{executing}
use google_workspace_gmail_a.Reporting.{RunResult}
use google_workspace_gmail_a.Approvals.{ConfirmationResponse}
use google_workspace_gmail_a.Console.Runs.{ConsoleRun, mem_phase, is_active}
use google_workspace_gmail_a.Console.Journal.{terminal_phases, Journal, restored, Envelope}
use google_workspace_gmail_a.Console.Coordinator.{
  Coordinator, Task, live_task, Outcome, CoroutineProgress, finished, suspended,
}
use google_workspace_gmail_a.Console.Coordinator.Previewing.{begin_preview}
use google_workspace_gmail_a.Console.Coordinator.Executing.{begin_approve, end_approve}
use google_workspace_gmail_a.Console.Change.{IsKeyed, All-find}
use google_workspace_gmail_a.Console.Steps.{
  IsTaken, here, there, and_task, Step, Steps, started, created, plan_began, plan_ended,
  mode_chosen, preview_began, preview_ended, approval_read, run_cancelled, approve_began,
  approve_ended, listened, configured, stay, next, new_coordinator, runs_by_id,
}
use google_workspace_gmail_a.Console.Slot.{IsQuiet, restored-IsQuiet}
use google_workspace_gmail_a.Console.Change.Approving.{begin_approve-Approving}
use google_workspace_gmail_a.Console.Kept.{
  new_coordinator-All, Step-Change, Steps-IsKeyed, targets, new_coordinator-IsKeyed,
}
use google_workspace_gmail_a.Console.Ended.{IsEnded, end_approve-IsEnded}
use google_workspace_gmail_a.Console.Executions.{Executes, HasTask, Change-back, Approving-Executes}

-- The task that is taken is this one, or this one stays.
IsTaken-Memᴰ :
    {task other : Task} {ts rest : List Task}
    → IsTaken task ts rest
    → Memᴰ other ts
    → (other ≡ task) ⊎ Memᴰ other rest
IsTaken-Memᴰ here (Memᴰ.head e) = inl e
IsTaken-Memᴰ here (Memᴰ.tail m) = inr m
IsTaken-Memᴰ (there taken) (Memᴰ.head e) = inr (Memᴰ.head e)
IsTaken-Memᴰ (there taken) (Memᴰ.tail m) = elim (IsTaken-Memᴰ taken m) [
  | inl e ↦ inl e
  | inr n ↦ inr (Memᴰ.tail n)
]

HasTask-rest :
    (id : String) {task : Task} {ts rest : List Task}
    → IsTaken task ts rest
    → ((run : ConsoleRun) (confirmation : ConfirmationResponse)
        → live_task id run confirmation ≢ task)
    → HasTask id ts
    → HasTask id rest
HasTask-rest id taken apart (run, confirmation, m) = elim (IsTaken-Memᴰ taken m) [
  | inl e ↦ absurd (apart run confirmation e)
  | inr n ↦ (run, confirmation, n)
]

HasTask-and_task :
    (id : String) (progress : Result CoroutineProgress) (ts : List Task)
    → HasTask id ts
    → HasTask id (and_task progress ts)
HasTask-and_task id (err e) ts has = has
HasTask-and_task id (ok (finished run)) ts has = has
HasTask-and_task id (ok (suspended task)) ts (run, confirmation, m) =
    (run, confirmation, Memᴰ.tail m)

-- After the live task of a run resumed, the run does not execute.
end_approve-leaves :
    (s : Coordinator) (id : String) (outcome : Outcome RunResult) (source : Option String) (now : ℕ)
    → IsKeyed s.runs
    → Executes id s.runs
    → Executes id (end_approve s id outcome source now).0.runs
    → ⊥
end_approve-leaves s id outcome source now keyed (run, found, running) (later, at_later, still) =
    let ended = end_approve-IsEnded s id run outcome source now keyed found running in
    let equal : some ended.run ≡ some later = sym ended.stored ∙ at_later in
    let same : ended.run ≡ later = cc in
    let clash : mem_phase executing terminal_phases ≡ true =
      ap (λ p. mem_phase p terminal_phases) (sym still ∙ ap (λ r. r.phase) (sym same))
      ∙ ended.ended in
    cc

module _ (upper : String → String) (ttl : ℕ) where
  -- the part of a step that is not about executions
  back :
      {s t : Coordinator} {ts us : List Task} (id : String) (step : Step upper ttl s ts t us)
      → IsKeyed s.runs
      → mem_phase executing (targets upper ttl step) ≡ false
      → Executes id t.runs
      → Executes id s.runs
  back id step keyed absent executes =
      Change-back id (Step-Change upper ttl step keyed) absent executes

  Step-HasTask :
      {s t : Coordinator} {ts us : List Task} (id : String)
      → Step upper ttl s ts t us
      → IsKeyed s.runs
      → (Executes id s.runs → HasTask id ts)
      → Executes id t.runs
      → HasTask id us
  Step-HasTask {ts = ts} id (started i request_text mode now fresh) keyed has executes =
      has (back {ts = ts} id (started i request_text mode now fresh) keyed refl executes)
  Step-HasTask {ts = ts} id (created i request_text mode plan now fresh) keyed has executes =
      has (back {ts = ts} id (created i request_text mode plan now fresh) keyed refl executes)
  Step-HasTask {ts = ts} id (plan_began i task e) keyed has executes =
      let (run, confirmation, m) = has executes in (run, confirmation, Memᴰ.tail m)
  Step-HasTask {ts = ts} id (plan_ended i outcome now taken) keyed has executes =
      HasTask-rest id taken (λ run confirmation e. cc)
        (has (back {ts = ts} id (plan_ended i outcome now taken) keyed refl executes))
  Step-HasTask {ts = ts} id (mode_chosen i mode now) keyed has executes =
      has (back {ts = ts} id (mode_chosen i mode now) keyed refl executes)
  Step-HasTask {s} {ts = ts} id (preview_began i now) keyed has executes =
      HasTask-and_task id (begin_preview s i now).1 ts
        (has (back {ts = ts} id (preview_began i now) keyed refl executes))
  Step-HasTask {ts = ts} id (preview_ended i run outcome now soon taken built) keyed has executes =
      HasTask-rest id taken (λ run confirmation e. cc)
        (has (
          back {ts = ts} id (preview_ended i run outcome now soon taken built) keyed refl executes))
  Step-HasTask {ts = ts} id (approval_read i now soon) keyed has executes =
      has (back {ts = ts} id (approval_read i now soon) keyed refl executes)
  Step-HasTask {ts = ts} id (run_cancelled i now) keyed has executes =
      has (back {ts = ts} id (run_cancelled i now) keyed refl executes)
  Step-HasTask {s} {ts = ts} id (approve_began i phrase acknowledged approval_id now soon) keyed has
        executes =
      elim (Approving-Executes s ts id
        (begin_approve-Approving s i phrase acknowledged approval_id now soon keyed) keyed
        executes) [
          | inl before ↦
              HasTask-and_task id (begin_approve s i phrase acknowledged approval_id now soon).1 ts
                (has before)
          | inr task ↦ task
        ]
  Step-HasTask {s} {ts = ts} id (approve_ended i run confirmation outcome source now taken) keyed
        has executes =
      let before =
        back {ts = ts} id (approve_ended i run confirmation outcome source now taken) keyed refl
          executes in
      HasTask-rest id taken
        (λ other given e.
          let same : id ≡ i = cc in
          end_approve-leaves s i outcome source now keyed
            (subst (λ k. Executes k s.runs) same before)
            (subst (λ k. Executes k (end_approve s i outcome source now).0.runs) same executes))
        (has before)
  Step-HasTask {ts = ts} id (listened i) keyed has executes =
      has (back {ts = ts} id (listened i) keyed refl executes)
  Step-HasTask {ts = ts} id (configured dry_run live_runner) keyed has executes =
      has (back {ts = ts} id (configured dry_run live_runner) keyed refl executes)

  Steps-HasTask :
      {s : Coordinator} {ts : List Task} {t : Coordinator} {us : List Task} (id : String)
      → Steps upper ttl s ts t us
      → IsKeyed s.runs
      → (Executes id s.runs → HasTask id ts)
      → Executes id t.runs
      → HasTask id us
  Steps-HasTask id stay keyed has executes = has executes
  Steps-HasTask id (next before step) keyed has executes =
      Step-HasTask id step (Steps-IsKeyed upper ttl before keyed)
        (Steps-HasTask id before keyed has) executes

  -- After a restart from any journal, in every interleaving of the calls, a run that is executing is
  -- not left behind: the coroutine that called the live runner for it is suspended, and whatever the
  -- live runner answers or raises, resuming it then ends the run. That the coroutine itself is
  -- cancelled is no step of the console here.
  pub executing-HasTask :
      (envelopes : List Envelope) (restart : ℕ) {dry_run live_runner : Bool}
      {journal : Option Journal} {s : Coordinator} {ts : List Task} (id : String) (run : ConsoleRun)
      (outcome : Outcome RunResult) (source : Option String) (now : ℕ)
      → Steps upper ttl
          (new_coordinator (restored restart envelopes) dry_run live_runner journal)
          []
          s
          ts
      → find id s.runs ≡ some run
      → run.phase ≡ executing
      → HasTask id ts × IsEnded id (end_approve s id outcome source now)
  executing-HasTask envelopes restart {s = s} id run outcome source now steps found running =
      let runs = restored restart envelopes in
      let keyed = new_coordinator-IsKeyed runs in
      (
        Steps-HasTask id steps keyed (λ executes. absurd (idle executes)) (run, found, running),
        end_approve-IsEnded s id run outcome source now (Steps-IsKeyed upper ttl steps keyed) found
            running,
      )
    where
      idle : Executes id (runs_by_id (restored restart envelopes) []) → ⊥
      idle (first, at_id, executing_first) =
          let calm =
            All-find (λ e. IsQuiet e.1) id first (runs_by_id (restored restart envelopes) [])
              (new_coordinator-All (λ e. IsQuiet e.1) (restored restart envelopes)
                (restored-IsQuiet restart envelopes))
              at_id in
          let clash : is_active executing ≡ false = ap is_active (sym executing_first) ∙ calm in cc
