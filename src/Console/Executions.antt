-- ===== src/Console/Executions.antt =====
-- console/coordinator.py: which calls start an execution.
use mathlib.Core.List.{Memᴰ}
use google_workspace_gmail_a.Common.{
  ℕ, String, Bool, true, false, some, List, [], ◌≡◌, ◌≢◌, sym, ap, ◌∙◌, inl, inr, ◌⊎◌, find, put,
  find-put_self, find-put_other, Bool-cases, TextDict, eq_iff, ◌=s=◌, Result,
}
use google_workspace_gmail_a.Schemas.Operations.{RunPhase, awaiting_approval, executing, blocked}
use google_workspace_gmail_a.Approvals.{ConfirmationResponse}
use google_workspace_gmail_a.Console.Runs.{ConsoleRun, mem_phase}
use google_workspace_gmail_a.Console.Coordinator.{
  Coordinator, Task, live_task, advanced, CoroutineProgress,
}
use google_workspace_gmail_a.Console.Change.{
  Change, unchanged, registered, moved, promoted, awaited, IsKeyed, HasOwnKey, All-find, IsNew,
  runs-keep_run,
}
use google_workspace_gmail_a.Console.Steps.{and_task}
use google_workspace_gmail_a.Console.Change.Approving.{
  Approving, refuses, blocks, launches, runner_required,
}
use google_workspace_gmail_a.Console.Kept.{shown_updates}

-- A run under the id is executing.
abbrev pub Executes : String → TextDict ConsoleRun → Type 0
Executes id runs = (run : ConsoleRun) × (find id runs ≡ some run) × (run.phase ≡ executing)

-- The live task of the id is suspended.
abbrev pub HasTask : String → List Task → Type 0
HasTask id ts =
    (run : ConsoleRun) × (confirmation : ConfirmationResponse) × Memᴰ
      (live_task id run confirmation) ts

-- A run that is stored and is not executing starts no execution.
put_back :
    (runs : TextDict ConsoleRun) {later : TextDict ConsoleRun} (key : String) (new : ConsoleRun)
    (id : String)
    → later ≡ put key new runs
    → new.phase ≢ executing
    → Executes id later
    → Executes id runs
put_back runs key new id stored other (run, found, running) = elim (Bool-cases (key =s= id)) [
  | inl e ↦
      let equal : some new ≡ some run =
        sym (find-put_self key new runs)
        ∙ ap (λ k. find k (put key new runs)) ((eq_iff key id).0 e)
        ∙ ap (find id) (sym stored)
        ∙ found in
      let same : new ≡ run = cc in absurd (other (ap (λ r. r.phase) same ∙ running))
  | inr e ↦
      (run, sym (find-put_other id key new runs e) ∙ ap (find id) (sym stored) ∙ found, running)
]

new_other : (run : ConsoleRun) → IsNew run → run.phase ≢ executing
new_other run new = λ e. elim new.first_phase [
  | inl f ↦ let clash = sym f ∙ e in cc
  | inr f ↦ let clash = sym f ∙ e in cc
]

member_other :
    (phase : RunPhase) (phases : List RunPhase)
    → mem_phase phase phases ≡ true
    → mem_phase executing phases ≡ false
    → phase ≢ executing
member_other phase phases member absent =
    λ e. let clash = sym (ap (λ p. mem_phase p phases) (sym e) ∙ member) ∙ absent in cc

-- Only a transition to executing starts an execution.
pub Change-back :
    {phases : List RunPhase} {s t : Coordinator} (id : String)
    → Change phases s t
    → mem_phase executing phases ≡ false
    → Executes id t.runs
    → Executes id s.runs
Change-back id (unchanged runs kept) absent (run, found, running) =
    (run, ap (find id) (sym runs) ∙ found, running)
Change-back {s = s} id (registered run fresh new runs kept) absent executes =
    put_back s.runs run.run_id run id runs (new_other run new) executes
Change-back {phases} {s = s} id (moved run phase updates now m other member kept) absent executes =
    put_back s.runs run.run_id (advanced run phase updates now) id m.stored
      (member_other phase phases member absent) executes
Change-back {s = s} id (promoted run mode now found ready runs kept) absent executes =
    put_back s.runs run.run_id (record run { mode = mode; updated_at = now }) id runs
      (λ e. let clash = sym ready ∙ e in cc) executes
Change-back {s = s} id (awaited run preview now a shown m approvals envelope) absent executes =
    put_back s.runs run.run_id (advanced run awaiting_approval (shown_updates preview) now) id
      m.stored (λ e. cc) executes

-- An execution that an approval starts suspends its live task.
pub Approving-Executes :
    (s : Coordinator) (ts : List Task) {id phrase : String} {acknowledged : Bool}
    {approval_id : String} {now soon : ℕ} {call : Coordinator × Result CoroutineProgress}
    (j : String)
    → Approving s id phrase acknowledged approval_id now soon call
    → IsKeyed s.runs
    → Executes j call.0.runs
    → Executes j s.runs ⊎ HasTask j (and_task call.1 ts)
Approving-Executes s ts j (refuses pending e kept) keyed executes = inl executes
Approving-Executes s ts {soon = soon} j (blocks pending run kept found waiting) keyed executes =
    inl (
      put_back s.runs run.run_id (advanced run blocked runner_required soon) j
        (runs-keep_run (record s { approvals = pending }) run.run_id
          (advanced run blocked runner_required soon))
        (λ e. cc) executes)
Approving-Executes s ts {id} {soon = soon} j
      (launches pending run confirmation kept found waiting given) keyed (other, at_j, running) =
    elim (Bool-cases (run.run_id =s= j)) [
      | inl e ↦
          let same =
            sym ((eq_iff run.run_id j).0 e) ∙ All-find HasOwnKey id run s.runs keyed found in
          inr (
            advanced run executing [] soon,
            confirmation,
            Memᴰ.head (ap (λ i. live_task i (advanced run executing [] soon) confirmation) same),
          )
      | inr e ↦ inl (
        other,
        sym (find-put_other j run.run_id (advanced run executing [] soon) s.runs e)
            ∙ ap (find j) (
                sym (
                  runs-keep_run (record s { approvals = pending }) run.run_id
                    (advanced run executing [] soon)))
            ∙ at_j,
        running,
      )
    ]
