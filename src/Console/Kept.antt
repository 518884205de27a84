-- ===== src/Console/Kept.antt =====
-- console/coordinator.py: what every interleaving of the calls keeps of the runs.
use google_workspace_gmail_a.Common.{
  ℕ, String, true, All, some, List, [], ◌∷◌, ◌≡◌, refl, sym, subst, inl, TextDict, put,
}
use google_workspace_gmail_a.Schemas.Operations.{RunMode, RunPhase, awaiting_approval, DryRunResult}
use google_workspace_gmail_a.Console.Runs.{ConsoleRun, allows}
use google_workspace_gmail_a.Console.Coordinator.{
  Coordinator, Task, Update, update, set_plan, set_preview, set_result, set_error_code,
  set_source_run_id, apply_updates, advanced,
}
use google_workspace_gmail_a.Console.Change.{
  Change, unchanged, registered, moved, promoted, awaited, HasOwnKey, IsKeyed, plan_targets,
  preview_targets, preview_end_targets, expiry_targets, cancel_targets, approve_targets,
  approve_end_targets, All-put, All-find, IsNew,
}
use google_workspace_gmail_a.Console.Change.Planning.{
  end_plan-Change, start-Change, create_from_plan-Change, promote_plan-Change,
  configure_execution-Change, listen-Change,
}
use google_workspace_gmail_a.Console.Change.Previewing.{
  begin_preview-Change, pending_approval-Change, cancel-Change, end_approve-Change,
}
use google_workspace_gmail_a.Console.Change.Approving.{begin_approve-Change}
use google_workspace_gmail_a.Console.Change.PutUp.{end_preview-Change}
use google_workspace_gmail_a.Console.Steps.{
  runs_by_id, Step, Steps, started, created, plan_began, plan_ended, mode_chosen, preview_began,
  preview_ended, approval_read, run_cancelled, approve_began, approve_ended, listened, configured,
  stay, next,
}

-- Updates leave the id of a run.
pub run_id-apply_updates :
    (updates : List Update) (run : ConsoleRun) → (apply_updates updates run).run_id ≡ run.run_id
run_id-apply_updates [] run = refl
run_id-apply_updates (set_plan x ∷ updates) run =
    run_id-apply_updates updates (update (set_plan x) run)
run_id-apply_updates (set_preview x ∷ updates) run =
    run_id-apply_updates updates (update (set_preview x) run)
run_id-apply_updates (set_result x ∷ updates) run =
    run_id-apply_updates updates (update (set_result x) run)
run_id-apply_updates (set_error_code x ∷ updates) run =
    run_id-apply_updates updates (update (set_error_code x) run)
run_id-apply_updates (set_source_run_id x ∷ updates) run =
    run_id-apply_updates updates (update (set_source_run_id x) run)

abbrev pub shown_updates : DryRunResult → List Update
shown_updates preview = set_preview (some preview) ∷ set_error_code preview.reason_code ∷ []

-- A predicate of the runs that holds of new ones, and that transitions and promotions keep,
-- holds after a change.
pub Change-All {κ} :
    (P : String × ConsoleRun → Type κ) {phases : List RunPhase} {s t : Coordinator}
    → Change phases s t
    → All P s.runs
    → ((run : ConsoleRun) → IsNew run → P (run.run_id, run))
    → ((run : ConsoleRun) (phase : RunPhase) (updates : List Update) (now : ℕ)
        → allows run.phase phase ≡ true
        → P (run.run_id, run)
        → P (run.run_id, advanced run phase updates now))
    → ((run : ConsoleRun) (mode : RunMode) (now : ℕ)
        → P (run.run_id, run)
        → P (run.run_id, record run { mode = mode; updated_at = now }))
    → All P t.runs
Change-All P {s} (unchanged runs kept) h new move promote = subst (All P) (sym runs) h
Change-All P {s} (registered run fresh first runs kept) h new move promote =
    subst (All P) (sym runs) (All-put P run.run_id run s.runs h (new run first))
Change-All P {s} (moved run phase updates now m other member kept) h new move promote =
    subst (All P) (sym m.stored) (
      All-put P run.run_id (advanced run phase updates now) s.runs h
        (move run phase updates now m.permitted (All-find P run.run_id run s.runs h m.found)))
Change-All P {s} (promoted run mode now found ready runs kept) h new move promote =
    subst (All P) (sym runs) (
      All-put P run.run_id (record run { mode = mode; updated_at = now }) s.runs h
        (promote run mode now (All-find P run.run_id run s.runs h found)))
Change-All P {s} (awaited run preview now a shown m approvals envelope) h new move promote =
    subst (All P) (sym m.stored) (
      All-put P run.run_id (advanced run awaiting_approval (shown_updates preview) now) s.runs h (
        move run awaiting_approval (shown_updates preview) now m.permitted
          (All-find P run.run_id run s.runs h m.found)))

pub Change-IsKeyed :
    {phases : List RunPhase} {s t : Coordinator}
    → Change phases s t
    → IsKeyed s.runs
    → IsKeyed t.runs
Change-IsKeyed change keyed =
    Change-All HasOwnKey change keyed (λ run new. refl)
      (λ run phase updates now permitted own. run_id-apply_updates updates run)
      (λ run mode now own. refl)

runs_by_id-All {κ} :
    (P : String × ConsoleRun → Type κ) (runs : List ConsoleRun) (indexed : TextDict ConsoleRun)
    → All (λ run. P (run.run_id, run)) runs
    → All P indexed
    → All P (runs_by_id runs indexed)
runs_by_id-All P [] indexed h k = k
runs_by_id-All P (run ∷ runs) indexed h k =
    runs_by_id-All P runs (put run.run_id run indexed) h.1 (All-put P run.run_id run indexed k h.0)

own_keys : (runs : List ConsoleRun) → All (λ run. HasOwnKey (run.run_id, run)) runs
own_keys [] = tt
own_keys (run ∷ runs) = (refl, own_keys runs)

module _ (upper : String → String) (ttl : ℕ) where
  -- the phases that the transitions of a step lead to
  abbrev pub targets :
      {s t : Coordinator} {ts us : List Task} → Step upper ttl s ts t us → List RunPhase
  targets (plan_ended id outcome now taken) = plan_targets
  targets (preview_began id now) = preview_targets
  targets (preview_ended id run outcome now soon taken built) = preview_end_targets
  targets (approval_read id now soon) = expiry_targets
  targets (run_cancelled id now) = cancel_targets
  targets (approve_began id phrase acknowledged approval_id now soon) = approve_targets
  targets (approve_ended id run confirmation outcome source now taken) = approve_end_targets
  targets step = []

  pub Step-Change :
      {s t : Coordinator} {ts us : List Task} (step : Step upper ttl s ts t us)
      → IsKeyed s.runs
      → Change (targets step) s t
  Step-Change {s} (started id request_text mode now fresh) keyed =
      start-Change s id request_text mode now fresh
  Step-Change {s} (created id request_text mode plan now fresh) keyed =
      create_from_plan-Change s id request_text mode plan now fresh
  Step-Change (plan_began id task e) keyed = unchanged refl (inl refl)
  Step-Change {s} (plan_ended id outcome now taken) keyed = end_plan-Change s id outcome now keyed
  Step-Change {s} (mode_chosen id mode now) keyed = promote_plan-Change s id mode now keyed
  Step-Change {s} (preview_began id now) keyed = begin_preview-Change s id now keyed
  Step-Change {s} (preview_ended id run outcome now soon taken built) keyed =
      end_preview-Change upper ttl s id run outcome now soon keyed built
  Step-Change {s} (approval_read id now soon) keyed = pending_approval-Change s id now soon keyed
  Step-Change {s} (run_cancelled id now) keyed = cancel-Change s id now keyed
  Step-Change {s} (approve_began id phrase acknowledged approval_id now soon) keyed =
      begin_approve-Change s id phrase acknowledged approval_id now soon keyed
  Step-Change {s} (approve_ended id run confirmation outcome source now taken) keyed =
      end_approve-Change s id outcome source now keyed
  Step-Change {s} (listened id) keyed = listen-Change s id
  Step-Change {s} (configured dry_run live_runner) keyed =
      configure_execution-Change s dry_run live_runner

  pub Steps-IsKeyed :
      {s : Coordinator} {ts : List Task} {t : Coordinator} {us : List Task}
      → Steps upper ttl s ts t us
      → IsKeyed s.runs
      → IsKeyed t.runs
  Steps-IsKeyed stay keyed = keyed
  Steps-IsKeyed (next before step) keyed =
      let earlier = Steps-IsKeyed before keyed in Change-IsKeyed (Step-Change step earlier) earlier

pub new_coordinator-All {κ} :
    (P : String × ConsoleRun → Type κ) (runs : List ConsoleRun)
    → All (λ run. P (run.run_id, run)) runs
    → All P (runs_by_id runs [])
new_coordinator-All P runs h = runs_by_id-All P runs [] h tt

pub new_coordinator-IsKeyed : (runs : List ConsoleRun) → IsKeyed (runs_by_id runs [])
new_coordinator-IsKeyed runs = new_coordinator-All HasOwnKey runs (own_keys runs)
