-- ===== src/Console/Authorized/Calls.antt =====
-- console/coordinator.py: which live tasks the beginning of a coroutine can suspend.
use google_workspace_gmail_a.Common.{
  ℕ, String, Bool, true, false, All, Option, none, some, List, [], ◌∷◌, ◌≡◌, refl, sym, ap, ◌∙◌,
  subst, inl, inr, find, Bool-cases, Option-cases, Result, ok, err, value_error, if◌then◌else◌, not,
  if_cases,
}
use google_workspace_gmail_a.Schemas.Operations.{
  DryRunResult, preview_ready, planning, awaiting_approval, executing, blocked, preflight,
}
use google_workspace_gmail_a.Approvals.{ConfirmationResponse, Pending}
use google_workspace_gmail_a.Approvals.Single.{IsGiven}
use google_workspace_gmail_a.Console.Runs.{ConsoleRun, is_phase}
use google_workspace_gmail_a.Console.Coordinator.{
  CoroutineProgress, Coordinator, Task, plan_task, preview_task, live_task, advance, advanced,
  set_error_code, set_preview, set_result,
}
use google_workspace_gmail_a.Console.Coordinator.Planning.{begin_plan}
use google_workspace_gmail_a.Console.Coordinator.Previewing.{
  begin_preview, open_preview, refuses_preview, and_finish, and_suspend,
}
use google_workspace_gmail_a.Console.Change.{IsKeyed, HasOwnKey, All-find}
use google_workspace_gmail_a.Console.Steps.{and_task}
use google_workspace_gmail_a.Console.Change.Approving.{Approving, refuses, blocks, launches}
use google_workspace_gmail_a.Console.Covered.{IsCovered}

-- What a call of the live runner rests on: the run is its own and is executing, it shows a preview
-- that was ready, and the confirmation carries the hashes of that preview.
pub record IsAuthorized (id : String) (run : ConsoleRun) (confirmation : ConfirmationResponse)
    : Type 0 where
  pub own : run.run_id ≡ id
  pub phase : run.phase ≡ executing
  pub preview : DryRunResult
  pub shown : run.preview ≡ some preview
  pub ready : preview.status ≡ preview_ready
  pub plan : confirmation.plan_hash ≡ preview.plan_hash
  pub state : some confirmation.before_state_hash ≡ preview.before_state_hash
  pub change : some confirmation.change_set_hash ≡ preview.change_set_hash

abbrev pub IsAuthorizedTask : Task → Type 0
IsAuthorizedTask (live_task id run confirmation) = IsAuthorized id run confirmation
IsAuthorizedTask task = Unit

-- A given approval of a covered run authorizes its execution.
given-IsAuthorized :
    (s : Coordinator) (id phrase : String) (acknowledged : Bool) (approval_id : String)
    (now soon : ℕ) (run : ConsoleRun) (later : Pending) (confirmation : ConfirmationResponse)
    → IsCovered s
    → IsKeyed s.runs
    → find id s.runs ≡ some run
    → run.phase ≡ awaiting_approval
    → IsGiven s.approvals id phrase acknowledged approval_id now later confirmation
    → IsAuthorized id (advanced run executing [] soon) confirmation
given-IsAuthorized s id phrase acknowledged approval_id now soon run later confirmation covered
      keyed found waiting given =
    let (preview, shown, envelope) = covered id run given.approval found waiting given.held in
    record {
      own = All-find HasOwnKey id run s.runs keyed found;
      phase = refl;
      preview = preview;
      shown = shown;
      ready = envelope.status;
      plan = ap (λ r. r.plan_hash) given.answered ∙ envelope.plan;
      state = ap (λ r. some r.before_state_hash) given.answered ∙ envelope.state;
      change = ap (λ r. some r.change_set_hash) given.answered ∙ envelope.change;
    }

pub Approving-tasks :
    (s : Coordinator) (ts : List Task) {id phrase : String} {acknowledged : Bool}
    {approval_id : String} {now soon : ℕ} {call : Coordinator × Result CoroutineProgress}
    → Approving s id phrase acknowledged approval_id now soon call
    → IsCovered s
    → IsKeyed s.runs
    → All IsAuthorizedTask ts
    → All IsAuthorizedTask (and_task call.1 ts)
Approving-tasks s ts (refuses pending e kept) covered keyed h = h
Approving-tasks s ts (blocks pending run kept found waiting) covered keyed h = h
Approving-tasks s ts {id} {phrase} {acknowledged} {approval_id} {now} {soon}
      (launches pending run confirmation kept found waiting given) covered keyed h =
    (
      given-IsAuthorized s id phrase acknowledged approval_id now soon run pending confirmation
          covered keyed found waiting given,
      h,
    )

and_finish_tasks :
    (call : Coordinator × Result ConsoleRun) (ts : List Task) → and_task (and_finish call).1 ts ≡ ts
and_finish_tasks (t, err e) ts = refl
and_finish_tasks (t, ok run) ts = refl

pub begin_preview-tasks :
    (s : Coordinator) (ts : List Task) (id : String) (now : ℕ)
    → All IsAuthorizedTask ts
    → All IsAuthorizedTask (and_task (begin_preview s id now).1 ts)
unfolding begin_preview
begin_preview-tasks s ts id now h = elim (Option-cases (find id s.runs)) [
  | inl e ↦ rw (e, begin_preview) h
  | inr (run, e) ↦
      rw (e, begin_preview)
        (elim (Bool-cases (refuses_preview s id run)) [
          | inl p ↦ rw p h
          | inr p ↦ rw p (opened run s.has_dry_run)
        ])
]
  where
    suspending :
        (run : ConsoleRun) (call : Coordinator × Result ConsoleRun)
        → All IsAuthorizedTask (and_task (and_suspend (λ next. preview_task id run) call).1 ts)
    suspending run (t, err e) = h
    suspending run (t, ok later) = (tt, h)

    opened :
        (run : ConsoleRun) (available : Bool)
        → All IsAuthorizedTask (and_task (open_preview s id run now available).1 ts)
    opened run false =
        subst (All IsAuthorizedTask)
          (sym (
            and_finish_tasks
              (advance s run blocked (set_error_code (some "ui_contract_pack_required") ∷ []) now)
              ts))
          h
    opened run true = suspending run (
        advance s run preflight (set_preview none ∷ set_result none ∷ set_error_code none ∷ []) now)

pub begin_plan-task :
    (s : Coordinator) (id : String) (task : Task)
    → begin_plan s id ≡ ok task
    → IsAuthorizedTask task
unfolding begin_plan
begin_plan-task s id (plan_task other) e = tt
begin_plan-task s id (preview_task other run) e = tt
begin_plan-task s id (live_task other run confirmation) e = absurd (never (find id s.runs) e)
  where
    never :
        (found : Option ConsoleRun)
        → (elim found [
          | none ↦ err value_error
          | some run ↦
              if not (is_phase run.phase planning) then err value_error else ok (plan_task id)
        ])
          ≡ ok (live_task other run confirmation)
        → ⊥
    never none h = cc
    never (some r) h = elim (if_cases (not (is_phase r.phase planning)) h) [
      | inl (p, q) ↦ cc
      | inr (p, q) ↦ cc
    ]
