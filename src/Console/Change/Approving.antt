-- ===== src/Console/Change/Approving.antt =====
-- console/coordinator.py: every branch of the approval of a run.
use google_workspace_gmail_a.Common.{
  ℕ, String, Bool, true, false, some, List, [], ◌∷◌, ◌≡◌, refl, inl, inr, find, Bool-cases,
  Option-cases, Result, ok, err, value_error, Error,
}
use google_workspace_gmail_a.Schemas.Operations.{awaiting_approval, executing, blocked}
use google_workspace_gmail_a.Approvals
use google_workspace_gmail_a.Approvals.{Pending, ConfirmationResponse}
use google_workspace_gmail_a.Approvals.Once.{IsKept, approve-IsKept}
use google_workspace_gmail_a.Approvals.Single.{IsGiven, approve-IsGiven}
use google_workspace_gmail_a.Console.Runs.{ConsoleRun, is_phase, is_phase_eq}
use google_workspace_gmail_a.Console.Coordinator.{
  Coordinator, live_task, CoroutineProgress, finished, suspended, Update, set_error_code, advanced,
}
use google_workspace_gmail_a.Console.Coordinator.Executing.{launch, execute, begin_approve}
use google_workspace_gmail_a.Console.Change.{
  Change, unchanged, IsKeyed, advance_returns, moved_to, moved_to-Change, approve_targets,
}
use google_workspace_gmail_a.Console.Change.Planning.{found_own}

-- what blocks a run without a live runner
abbrev pub runner_required : List Update
runner_required = set_error_code (some "accepted_live_runner_required") ∷ []

-- What an approval can do up to its `await`: it raises, and at most drops an envelope; or it blocks
-- the run, since there is no live runner; or the run executes on the confirmation that was given.
pub data Approving (s : Coordinator) (id phrase : String) (acknowledged : Bool)
    (approval_id : String) (now soon : ℕ) : Coordinator × Result CoroutineProgress → Type 0 where
  refuses :
      (pending : Pending) (e : Error)
      → IsKept s.approvals pending
      → Approving s id phrase acknowledged approval_id now soon
          (record s { approvals = pending }, err e)
  blocks :
      (pending : Pending) (run : ConsoleRun)
      → IsKept s.approvals pending
      → find id s.runs ≡ some run
      → run.phase ≡ awaiting_approval
      → Approving s id phrase acknowledged approval_id now soon (
        moved_to s pending run blocked runner_required soon,
        ok (finished (advanced run blocked runner_required soon)),
      )
  launches :
      (pending : Pending) (run : ConsoleRun) (confirmation : ConfirmationResponse)
      → IsKept s.approvals pending
      → find id s.runs ≡ some run
      → run.phase ≡ awaiting_approval
      → IsGiven s.approvals id phrase acknowledged approval_id now pending confirmation
      → Approving s id phrase acknowledged approval_id now soon (
        moved_to s pending run executing [] soon,
        ok (suspended (live_task id (advanced run executing [] soon) confirmation)),
      )

pub begin_approve-Approving :
    (s : Coordinator) (id phrase : String) (acknowledged : Bool) (approval_id : String)
    (now soon : ℕ)
    → IsKeyed s.runs
    → Approving s id phrase acknowledged approval_id now soon
        (begin_approve s id phrase acknowledged approval_id now soon)
unfolding begin_approve
begin_approve-Approving s id phrase acknowledged approval_id now soon keyed =
    elim (Option-cases (find id s.runs)) [
      | inl e ↦ rw (e, begin_approve) (refuses s.approvals value_error (inl refl))
      | inr (run, e) ↦
          rw (e, begin_approve)
            (elim (Bool-cases (is_phase run.phase awaiting_approval)) [
              | inr p ↦ rw p (refuses s.approvals value_error (inl refl))
              | inl p ↦ rw p (
                  answered run e (is_phase_eq run.phase awaiting_approval p)
                    (Approvals.approve s.approvals id phrase acknowledged approval_id now) refl
                    (approve-IsKept s.approvals id phrase acknowledged approval_id now))
            ])
    ]
  where
    launched :
        (run : ConsoleRun)
        → find id s.runs ≡ some run
        → run.phase ≡ awaiting_approval
        → (pending : Pending) (confirmation : ConfirmationResponse) → IsKept s.approvals pending
        → IsGiven s.approvals id phrase acknowledged approval_id now pending confirmation
        → (available : Bool)
        → Approving s id phrase acknowledged approval_id now soon
            (launch (record s { approvals = pending }) id run confirmation soon available)
    launched run found waiting pending confirmation kept given false =
        rw
          (advance_returns (record s { approvals = pending }) run blocked runner_required soon
            (found_own s id run keyed found) (rw waiting refl))
          (blocks pending run kept found waiting)
    launched run found waiting pending confirmation kept given true =
        rw
          (advance_returns (record s { approvals = pending }) run executing [] soon
            (found_own s id run keyed found) (rw waiting refl))
          (launches pending run confirmation kept found waiting given)

    answered :
        (run : ConsoleRun)
        → find id s.runs ≡ some run
        → run.phase ≡ awaiting_approval
        → (call : Pending × Result ConfirmationResponse)
        → Approvals.approve s.approvals id phrase acknowledged approval_id now ≡ call
        → IsKept s.approvals call.0
        → Approving s id phrase acknowledged approval_id now soon
            (execute (record s { approvals = call.0 }) id run call.1 soon)
    answered run found waiting (pending, err e) given kept = refuses pending e kept
    answered run found waiting (pending, ok confirmation) given kept =
        launched run found waiting pending confirmation kept
          (approve-IsGiven s.approvals id phrase acknowledged approval_id now pending confirmation
            given)
          s.has_live_runner

Approving-Change :
    (s : Coordinator) {id phrase : String} {acknowledged : Bool} {approval_id : String}
    {now soon : ℕ} {call : Coordinator × Result CoroutineProgress}
    → Approving s id phrase acknowledged approval_id now soon call
    → IsKeyed s.runs
    → Change approve_targets s call.0
Approving-Change s (refuses pending e kept) keyed = unchanged refl kept
Approving-Change s {id} {soon = soon} (blocks pending run kept found waiting) keyed =
    moved_to-Change s pending run blocked runner_required soon _ kept
      (found_own s id run keyed found) (rw waiting refl) (inl refl) (λ e. cc) refl
Approving-Change s {id} {soon = soon} (launches pending run confirmation kept found waiting given)
      keyed =
    moved_to-Change s pending run executing [] soon _ kept (found_own s id run keyed found)
      (rw waiting refl) (inr (inl (rw waiting refl))) (λ e. cc) refl

pub begin_approve-Change :
    (s : Coordinator) (id phrase : String) (acknowledged : Bool) (approval_id : String)
    (now soon : ℕ)
    → IsKeyed s.runs
    → Change approve_targets s (begin_approve s id phrase acknowledged approval_id now soon).0
begin_approve-Change s id phrase acknowledged approval_id now soon keyed =
    Approving-Change s (begin_approve-Approving s id phrase acknowledged approval_id now soon keyed)
      keyed
