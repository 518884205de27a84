-- ===== src/Console/Change.antt =====
-- console/coordinator.py: what one call can do to the runs and to the pending approvals.
pub mod Planning
pub mod Previewing
pub mod PutUp
pub mod Approving
use google_workspace_gmail_a.Common.{
  ℕ, String, Bool, true, false, not, ◌&&◌, ◌||◌, Option, none, some, List, [], ◌∷◌, ◌≡◌, ◌≢◌, refl,
  sym, ap, ◌∙◌, subst, inl, inr, ◌⊎◌, ◌=s=◌, TextDict, find, put, find-put_self, find-put_other,
  Bool-cases, Option-cases, Result, ok, err, value_error, Error, eq_iff, decided, if◌then◌else◌,
  arith, All, ok-injective, if_cases, eq_refl, any,
}
use google_workspace_gmail_a.Schemas.Plan.{TaskPlan}
use google_workspace_gmail_a.Schemas.Operations.{
  RunMode, RunPhase, preview_shown, executing, completed, blocked, cancelled, interrupted, planning,
  plan_ready, preflight, awaiting_approval, DryRunResult,
}
use google_workspace_gmail_a.Approvals.{Pending}
use google_workspace_gmail_a.Approvals.Once.{IsKept}
use google_workspace_gmail_a.Approvals.Backing.{IsEnvelopeOf}
use google_workspace_gmail_a.Approvals.{PendingApproval}
use google_workspace_gmail_a.Console.Runs.{
  ConsoleRun, ConsoleRun-discrete, PhaseTransition, allows, is_active, mem_phase,
}
use google_workspace_gmail_a.Console.Coordinator.{
  Coordinator, Update, set_preview, set_error_code, keep_run, notify, save_runs, advanced, advance,
}
use google_workspace_gmail_a.Console.Coordinator.Previewing.{has_conflict}

-- Every run stands under its own id.
abbrev pub HasOwnKey : String × ConsoleRun → Type 0
HasOwnKey (key, run) = run.run_id ≡ key

abbrev pub IsKeyed : TextDict ConsoleRun → Type 0
IsKeyed = All HasOwnKey

module _ {ℓ κ} {V : Type ℓ} (P : String × V → Type κ) where
  pub All-put : (k : String) (v : V) (d : TextDict V) → All P d → P (k, v) → All P (put k v d)
  All-put k v [] h p = (p, tt)
  All-put k v ((j, w) ∷ d) h p = elim (Bool-cases (j =s= k)) [
    | inl e ↦ let same = (eq_iff j k).0 e in rw e (subst (λ i. P (i, v)) (sym same) p, h.1)
    | inr e ↦ rw e (h.0, All-put k v d h.1 p)
  ]

  pub All-find : (k : String) (v : V) (d : TextDict V) → All P d → find k d ≡ some v → P (k, v)
  All-find k v [] h e = cc
  All-find k v ((j, w) ∷ d) h e = elim (Bool-cases (j =s= k)) [
    | inl p ↦
        let key = (eq_iff j k).0 p in
        let here : some w ≡ some v = rw p at e in
        let same : w ≡ v = cc in subst (λ x. P (k, x)) same (subst (λ i. P (i, w)) key h.0)
    | inr p ↦ All-find k v d h.1 (rw p at e)
  ]

-- The run is in a phase that a run can start in, and its history holds that alone.
pub record IsNew (run : ConsoleRun) : Type 0 where
  pub first_phase : (run.phase ≡ planning) ⊎ (run.phase ≡ plan_ready)
  pub first_entry :
      (now : ℕ) × (run.history ≡ record { phase = run.phase; moment = now; error_code = none } ∷ [])

-- the run takes the browser, and no other run has it
abbrev pub TakesSlot : TextDict ConsoleRun → ConsoleRun → RunPhase → Type 0
TakesSlot runs run phase =
    (is_active phase ≡ false)
    ⊎ ((is_active run.phase ≡ true) ⊎ (has_conflict run.run_id runs ≡ false))

-- A run that was in the console, and the phase that the table allows it.
pub record IsMoved (runs later : TextDict ConsoleRun) (run : ConsoleRun) (phase : RunPhase)
    (updates : List Update) (now : ℕ) : Type 0 where
  pub found : find run.run_id runs ≡ some run
  pub permitted : allows run.phase phase ≡ true
  pub slot : TakesSlot runs run phase
  pub stored : later ≡ put run.run_id (advanced run phase updates now) runs

-- What one call does, where its transitions lead to the given phases: nothing, a new run, a transition, a promotion, or a run put up for approval.
pub data Change (phases : List RunPhase) (s t : Coordinator) : Type 0 where
  unchanged : t.runs ≡ s.runs → IsKept s.approvals t.approvals → Change phases s t
  registered :
      (run : ConsoleRun)
      → find run.run_id s.runs ≡ none
      → IsNew run
      → t.runs ≡ put run.run_id run s.runs
      → t.approvals ≡ s.approvals
      → Change phases s t
  moved :
      (run : ConsoleRun) (phase : RunPhase) (updates : List Update) (now : ℕ)
      → IsMoved s.runs t.runs run phase updates now
      → phase ≢ awaiting_approval
      → mem_phase phase phases ≡ true
      → IsKept s.approvals t.approvals
      → Change phases s t
  promoted :
      (run : ConsoleRun) (mode : RunMode) (now : ℕ)
      → find run.run_id s.runs ≡ some run
      → run.phase ≡ plan_ready
      → t.runs ≡ put run.run_id (record run { mode = mode; updated_at = now }) s.runs
      → t.approvals ≡ s.approvals
      → Change phases s t
  awaited :
      (run : ConsoleRun) (preview : DryRunResult) (now : ℕ) (approval : PendingApproval)
      → run.phase ≡ preflight
      → IsMoved s.runs t.runs run awaiting_approval
          (set_preview (some preview) ∷ set_error_code preview.reason_code ∷ [])
          now
      → t.approvals ≡ put run.run_id approval s.approvals
      → IsEnvelopeOf preview approval
      → Change phases s t

-- The phases that the transitions of the calls lead to.
abbrev pub plan_targets : List RunPhase
plan_targets = plan_ready ∷ blocked ∷ []

abbrev pub preview_targets : List RunPhase
preview_targets = preflight ∷ blocked ∷ []

abbrev pub preview_end_targets : List RunPhase
preview_end_targets = preview_shown ∷ awaiting_approval ∷ blocked ∷ []

abbrev pub expiry_targets : List RunPhase
expiry_targets = plan_ready ∷ []

abbrev pub cancel_targets : List RunPhase
cancel_targets = cancelled ∷ []

abbrev pub approve_targets : List RunPhase
approve_targets = executing ∷ blocked ∷ []

abbrev pub approve_end_targets : List RunPhase
approve_end_targets = completed ∷ blocked ∷ interrupted ∷ []

-- `_save` and `_notify` leave the runs, the approvals and the services.
pub runs-keep_run :
    (s : Coordinator) (id : String) (r : ConsoleRun) → (keep_run s id r).runs ≡ put id r s.runs
runs-keep_run s id r = ground arith

pub approvals-keep_run :
    (s : Coordinator) (id : String) (r : ConsoleRun) → (keep_run s id r).approvals ≡ s.approvals
approvals-keep_run s id r = ground arith

decided_yes {ℓ} : {P : Type ℓ} (d : Dec P) → P → decided d ≡ true
decided_yes (yes h) p = refl
decided_yes (no n) p = absurd (n p)

-- A run that is stored as given advances if the table allows it.
pub advance_returns :
    (s : Coordinator) (run : ConsoleRun) (phase : RunPhase) (updates : List Update) (now : ℕ)
    → find run.run_id s.runs ≡ some run
    → allows run.phase phase ≡ true
    → advance s run phase updates now ≡ (
      notify run.run_id (keep_run s run.run_id (advanced run phase updates now)),
      ok (advanced run phase updates now),
    )
unfolding advance
advance_returns s run phase updates now found permitted =
    rw (found, advance, decided_yes (ConsoleRun-discrete run run) refl, permitted) refl

-- the console after a transition, where the envelopes are already those given
abbrev pub moved_to : Coordinator → Pending → ConsoleRun → RunPhase → List Update → ℕ → Coordinator
moved_to s pending run phase updates now =
    notify run.run_id
      (keep_run (record s { approvals = pending }) run.run_id (advanced run phase updates now))

-- A transition that the table allows is a change, whatever approvals it drops.
pub moved_to-Change :
    (s : Coordinator) (pending : Pending) (run : ConsoleRun) (phase : RunPhase)
    (updates : List Update) (now : ℕ) (phases : List RunPhase)
    → IsKept s.approvals pending
    → find run.run_id s.runs ≡ some run
    → allows run.phase phase ≡ true
    → TakesSlot s.runs run phase
    → phase ≢ awaiting_approval
    → mem_phase phase phases ≡ true
    → Change phases s (moved_to s pending run phase updates now)
moved_to-Change s pending run phase updates now phases kept found permitted slot other member =
    moved run phase updates now
      (record {
        found = found;
        permitted = permitted;
        slot = slot;
        stored =
            runs-keep_run (record s { approvals = pending }) run.run_id
              (advanced run phase updates now);
      })
      other member
      (subst (IsKept s.approvals)
        (sym (
          approvals-keep_run (record s { approvals = pending }) run.run_id
            (advanced run phase updates now)))
        kept)

pub advance-Change :
    (s : Coordinator) (pending : Pending) (run : ConsoleRun) (phase : RunPhase)
    (updates : List Update) (now : ℕ) (phases : List RunPhase)
    → IsKept s.approvals pending
    → find run.run_id s.runs ≡ some run
    → allows run.phase phase ≡ true
    → TakesSlot s.runs run phase
    → phase ≢ awaiting_approval
    → mem_phase phase phases ≡ true
    → Change phases s (advance (record s { approvals = pending }) run phase updates now).0
advance-Change s pending run phase updates now phases kept found permitted slot other member =
    subst (λ answer. Change phases s answer.0)
      (sym
        (advance_returns (record s { approvals = pending }) run phase updates now found permitted))
      (moved_to-Change s pending run phase updates now phases kept found permitted slot other
        member)
