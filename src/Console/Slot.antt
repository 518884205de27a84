-- ===== src/Console/Slot.antt =====
-- console/coordinator.py: the one browser that the runs of a console share.
mod Single
use google_workspace_gmail_a.Common.{
  ℕ, String, Bool, true, false, not, ◌&&◌, ◌||◌, All, Option, some, List, [], ◌∷◌, ◌≡◌, refl, sym,
  ap, ◌∙◌, subst, inl, inr, ◌⊎◌, find, put, find-put_self, find-put_other, Bool-cases, TextDict,
  eq_iff, eq_refl, =s=_symmetric, ◌=s=◌,
}
use google_workspace_gmail_a.Schemas.Operations.{
  RunPhase, planning, plan_ready, preflight, preview_shown, awaiting_approval, executing, verifying,
  completed, blocked, cancelled, interrupted,
}
use google_workspace_gmail_a.Console.Runs.{ConsoleRun, is_active}
use google_workspace_gmail_a.Console.Journal.Snapshot.{is_valid_snapshot}
use google_workspace_gmail_a.Console.Journal.{
  Envelope, snapshot, refused, foreign, Journal, restore_at, restore_run, restored,
}
use google_workspace_gmail_a.Console.Coordinator.{Coordinator, Task, Update, advanced}
use google_workspace_gmail_a.Console.Coordinator.Previewing.{has_conflict}
use google_workspace_gmail_a.Console.Change.{
  Change, unchanged, registered, moved, promoted, awaited, IsKeyed, All-find, IsMoved, IsNew,
}
use google_workspace_gmail_a.Console.Steps.{Steps, stay, next, runs_by_id, new_coordinator}
use google_workspace_gmail_a.Console.Kept.{
  Step-Change, Steps-IsKeyed, run_id-apply_updates, shown_updates, new_coordinator-All,
  new_coordinator-IsKeyed,
}
use google_workspace_gmail_a.Console.Slot.Single.{Fits, quiet, held, alone, IsOnly, put-IsOnly}

new_quiet : (run : ConsoleRun) → IsNew run → is_active run.phase ≡ false
new_quiet run new = elim new.first_phase [ inl e ↦ rw e refl | inr e ↦ rw e refl ]

IsMoved-IsOnly :
    {runs later : TextDict ConsoleRun} (run : ConsoleRun) (phase : RunPhase) (updates : List Update)
    (now : ℕ)
    → IsKeyed runs
    → IsOnly runs
    → IsMoved runs later run phase updates now
    → IsOnly later
IsMoved-IsOnly {runs} run phase updates now keyed only m =
    let own = run_id-apply_updates updates run in
    subst IsOnly (ap (λ key. put key (advanced run phase updates now) runs) own ∙ sym m.stored) (
      put-IsOnly runs (advanced run phase updates now) keyed only (elim m.slot [
        | inl q ↦ quiet q
        | inr (inl was) ↦ held run (ap (λ key. find key runs) own ∙ m.found) was
        | inr (inr clear) ↦ alone (ap (λ key. has_conflict key runs) own ∙ clear)
      ]))

Change-IsOnly :
    {phases : List RunPhase} {s t : Coordinator}
    → Change phases s t
    → IsKeyed s.runs
    → IsOnly s.runs
    → IsOnly t.runs
Change-IsOnly (unchanged runs kept) keyed only = subst IsOnly (sym runs) only
Change-IsOnly {s} (registered run fresh new runs kept) keyed only =
    subst IsOnly (sym runs) (put-IsOnly s.runs run keyed only (quiet (new_quiet run new)))
Change-IsOnly (moved run phase updates now m other member kept) keyed only =
    IsMoved-IsOnly run phase updates now keyed only m
Change-IsOnly {s} (promoted run mode now found ready runs kept) keyed only =
    subst IsOnly (sym runs) (
      put-IsOnly s.runs (record run { mode = mode; updated_at = now }) keyed only
        (quiet (rw ready refl)))
Change-IsOnly (awaited run preview now a shown m approvals envelope) keyed only =
    IsMoved-IsOnly run awaiting_approval (shown_updates preview) now keyed only m

-- A restart leaves no run in an active phase.
restore_at-quiet :
    (phase : RunPhase) (run : ConsoleRun) (now : ℕ)
    → run.phase ≡ phase
    → is_active (restore_at phase run now).phase ≡ false
restore_at-quiet planning run now e = refl
restore_at-quiet plan_ready run now e = rw e refl
restore_at-quiet preflight run now e = refl
restore_at-quiet preview_shown run now e = rw e refl
restore_at-quiet awaiting_approval run now e = refl
restore_at-quiet executing run now e = refl
restore_at-quiet verifying run now e = refl
restore_at-quiet completed run now e = rw e refl
restore_at-quiet blocked run now e = rw e refl
restore_at-quiet cancelled run now e = rw e refl
restore_at-quiet interrupted run now e = rw e refl

abbrev pub IsQuiet : ConsoleRun → Type 0
IsQuiet run = is_active run.phase ≡ false

pub restored-IsQuiet : (now : ℕ) (envelopes : List Envelope) → All IsQuiet (restored now envelopes)
unfolding restored restore_run
restored-IsQuiet now [] = tt
restored-IsQuiet now (snapshot run ∷ envelopes) = elim (Bool-cases (is_valid_snapshot run)) [
  | inl e ↦ rw e (restore_at-quiet run.phase run now refl, restored-IsQuiet now envelopes)
  | inr e ↦ rw e (restored-IsQuiet now envelopes)
]
restored-IsQuiet now (refused item ∷ envelopes) = restored-IsQuiet now envelopes
restored-IsQuiet now (foreign item ∷ envelopes) = restored-IsQuiet now envelopes

module _ (upper : String → String) (ttl : ℕ) where
  Steps-IsOnly :
      {s : Coordinator} {ts : List Task} {t : Coordinator} {us : List Task}
      → Steps upper ttl s ts t us
      → IsKeyed s.runs
      → IsOnly s.runs
      → IsOnly t.runs
  Steps-IsOnly stay keyed only = only
  Steps-IsOnly (next before step) keyed only =
      let earlier = Steps-IsKeyed upper ttl before keyed in
      Change-IsOnly (Step-Change upper ttl step earlier) earlier (Steps-IsOnly before keyed only)

  -- After a restart from any journal, whatever calls are made and however they interleave, while a
  -- run is in a phase that holds the browser's slot (preflight, awaiting approval, executing or
  -- verifying), no run under another id is in one.
  pub one_browser_run :
      (envelopes : List Envelope) (restart : ℕ) {dry_run live_runner : Bool}
      {journal : Option Journal} {s : Coordinator} {ts : List Task} (i j : String)
      (a b : ConsoleRun)
      → Steps upper ttl
          (new_coordinator (restored restart envelopes) dry_run live_runner journal)
          []
          s
          ts
      → find i s.runs ≡ some a
      → find j s.runs ≡ some b
      → is_active a.phase ≡ true
      → (i =s= j) ≡ false
      → is_active b.phase ≡ false
  one_browser_run envelopes restart i j a b steps at_i at_j active apart =
      let runs = restored restart envelopes in
      let only = Steps-IsOnly steps (new_coordinator-IsKeyed runs) none_active in
      elim (Bool-cases (is_active b.phase)) [
        | inl e ↦ absurd (clash (only i j a b at_i at_j active e))
        | inr e ↦ e
      ]
    where
      none_active : IsOnly (runs_by_id (restored restart envelopes) [])
      none_active i j a b at_i at_j active_a active_b =
          let calm =
            All-find (λ e. IsQuiet e.1) i a (runs_by_id (restored restart envelopes) [])
              (new_coordinator-All (λ e. IsQuiet e.1) (restored restart envelopes)
                (restored-IsQuiet restart envelopes))
              at_i in
          let clash = sym active_a ∙ calm in cc

      clash : i ≡ j → ⊥
      clash e = let same = sym (eq_refl i) ∙ ap (λ k. i =s= k) e ∙ apart in cc
