-- ===== src/Console/History.antt =====
-- console/coordinator.py and console/journal.py: the recorded history of a run, also across a
-- restart of the console.
use google_workspace_gmail_a.Common.{
  ℕ, String, Bool, true, All, Option, none, some, List, [], ◌∷◌, ◌++◌, ◌≡◌, refl, sym, subst, ◌⊎◌,
  find, Bool-cases, inl, inr,
}
use google_workspace_gmail_a.Schemas.Operations.{
  RunPhase, planning, plan_ready, preflight, preview_shown, awaiting_approval, executing, verifying,
  completed, blocked, cancelled, interrupted,
}
use google_workspace_gmail_a.Console.Runs.{ConsoleRun, PhaseTransition, allows}
use google_workspace_gmail_a.Console.Journal.Snapshot.{is_valid_snapshot}
use google_workspace_gmail_a.Console.Journal.{
  Envelope, snapshot, refused, foreign, Journal, restore_at, restore_run, restored,
}
use google_workspace_gmail_a.Console.Coordinator.{Coordinator, Task}
use google_workspace_gmail_a.Console.Change.{IsNew, IsKeyed, All-find}
use google_workspace_gmail_a.Console.Steps.{Steps, stay, next, new_coordinator}
use google_workspace_gmail_a.Console.Kept.{
  Change-All, Step-Change, Steps-IsKeyed, new_coordinator-All, new_coordinator-IsKeyed,
}

-- A history that begins with planning or with a plan, in which every phase is one that
-- `_ALLOWED_TRANSITIONS` gives the phase before it, and whose last phase is given.
pub data Follows : List PhaseTransition → RunPhase → Type 0 where
  begins :
      (phase : RunPhase) (now : ℕ)
      → (phase ≡ planning) ⊎ (phase ≡ plan_ready)
      → Follows (record { phase = phase; moment = now; error_code = none } ∷ []) phase
  then :
      {history : List PhaseTransition} {phase : RunPhase} (transition : PhaseTransition)
      → Follows history phase
      → allows phase transition.phase ≡ true
      → Follows (history ++ transition ∷ []) transition.phase

-- The history of a run leads to its phase.
abbrev pub HasHistory : ConsoleRun → Type 0
HasHistory run = Follows run.history run.phase

new-HasHistory : (run : ConsoleRun) → IsNew run → HasHistory run
new-HasHistory run new =
    subst (λ history. Follows history run.phase) (sym new.first_entry.1)
      (begins run.phase new.first_entry.0 new.first_phase)

-- A restart adds a transition of the table, or none.
restore_at-HasHistory :
    (phase : RunPhase) (run : ConsoleRun) (now : ℕ)
    → HasHistory run
    → run.phase ≡ phase
    → HasHistory (restore_at phase run now)
restore_at-HasHistory planning run now h e = then _ h (rw e refl)
restore_at-HasHistory preflight run now h e = then _ h (rw e refl)
restore_at-HasHistory awaiting_approval run now h e = then _ h (rw e refl)
restore_at-HasHistory executing run now h e = then _ h (rw e refl)
restore_at-HasHistory verifying run now h e = then _ h (rw e refl)
restore_at-HasHistory plan_ready run now h e = h
restore_at-HasHistory preview_shown run now h e = h
restore_at-HasHistory completed run now h e = h
restore_at-HasHistory blocked run now h e = h
restore_at-HasHistory cancelled run now h e = h
restore_at-HasHistory interrupted run now h e = h

-- the runs that the snapshots of a journal hold
abbrev pub snapshots : List Envelope → List ConsoleRun
snapshots [] = []
snapshots (snapshot run ∷ envelopes) = run ∷ snapshots envelopes
snapshots (envelope ∷ envelopes) = snapshots envelopes

restored-HasHistory :
    (now : ℕ) (envelopes : List Envelope)
    → All HasHistory (snapshots envelopes)
    → All HasHistory (restored now envelopes)
unfolding restored restore_run
restored-HasHistory now [] h = tt
restored-HasHistory now (snapshot run ∷ envelopes) h = elim (Bool-cases (is_valid_snapshot run)) [
  | inl e ↦
      rw e (restore_at-HasHistory run.phase run now h.0 refl, restored-HasHistory now envelopes h.1)
  | inr e ↦ rw e (restored-HasHistory now envelopes h.1)
]
restored-HasHistory now (refused item ∷ envelopes) h = restored-HasHistory now envelopes h
restored-HasHistory now (foreign item ∷ envelopes) h = restored-HasHistory now envelopes h

-- what is kept of an entry of the runs
abbrev Kept : String × ConsoleRun → Type 0
Kept (key, run) = HasHistory run

module _ (upper : String → String) (ttl : ℕ) where
  Steps-Kept :
      {s : Coordinator} {ts : List Task} {t : Coordinator} {us : List Task}
      → Steps upper ttl s ts t us
      → IsKeyed s.runs
      → All Kept s.runs
      → All Kept t.runs
  Steps-Kept stay keyed h = h
  Steps-Kept (next before step) keyed h =
      Change-All Kept (Step-Change upper ttl step (Steps-IsKeyed upper ttl before keyed))
        (Steps-Kept before keyed h) (λ run new. new-HasHistory run new)
        (λ run phase updates now permitted past. then _ past permitted) (λ run mode now past. past)

  -- A console that starts from a journal whose runs have a history, and runs any calls in any
  -- interleaving, keeps for every run a history that begins with planning or with a plan, in
  -- which every phase is allowed by the table after the one before it, and which ends with the
  -- phase of the run.
  pub Steps-HasHistory :
      (envelopes : List Envelope) (restart : ℕ) {dry_run live_runner : Bool}
      {journal : Option Journal} {s : Coordinator} {ts : List Task} (id : String) (run : ConsoleRun)
      → All HasHistory (snapshots envelopes)
      → Steps upper ttl
          (new_coordinator (restored restart envelopes) dry_run live_runner journal)
          []
          s
          ts
      → find id s.runs ≡ some run
      → HasHistory run
  Steps-HasHistory envelopes restart {s = s} id run past steps found =
      let runs = restored restart envelopes in
      All-find Kept id run s.runs
        (Steps-Kept steps (new_coordinator-IsKeyed runs)
          (new_coordinator-All Kept runs (restored-HasHistory restart envelopes past)))
        found
