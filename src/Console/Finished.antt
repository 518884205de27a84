-- ===== src/Console/Finished.antt =====
-- console/coordinator.py: runs that have ended.
use google_workspace_gmail_a.Common.{
  ℕ, String, true, false, some, List, ◌≡◌, refl, sym, ap, ◌∙◌, inl, inr, find, put, find-put_other,
  Bool-cases, TextDict, eq_iff, ◌=s=◌,
}
use google_workspace_gmail_a.Schemas.Operations.{
  RunPhase, planning, plan_ready, preflight, preview_shown, awaiting_approval, executing, verifying,
  completed, blocked, cancelled, interrupted,
}
use google_workspace_gmail_a.Console.Runs.{ConsoleRun, allows, mem_phase}
use google_workspace_gmail_a.Console.Journal.{terminal_phases, is_terminal}
use google_workspace_gmail_a.Console.Coordinator.{Coordinator, Task, advanced, Update}
use google_workspace_gmail_a.Console.Change.{
  Change, unchanged, registered, moved, promoted, awaited, IsKeyed, IsMoved,
}
use google_workspace_gmail_a.Console.Steps.{Steps, stay, next}
use google_workspace_gmail_a.Console.Kept.{Step-Change, Steps-IsKeyed, shown_updates}

-- The table gives a terminal phase no successor.
terminal_stuck : (p q : RunPhase) → mem_phase p terminal_phases ≡ true → allows p q ≡ false
terminal_stuck preview_shown q h = refl
terminal_stuck completed q h = refl
terminal_stuck blocked q h = refl
terminal_stuck cancelled q h = refl
terminal_stuck interrupted q h = refl
terminal_stuck planning q h = cc
terminal_stuck plan_ready q h = cc
terminal_stuck preflight q h = cc
terminal_stuck awaiting_approval q h = cc
terminal_stuck executing q h = cc
terminal_stuck verifying q h = cc

-- A run that is not the one found under another key stays where it is.
put_apart :
    (runs : TextDict ConsoleRun) {later : TextDict ConsoleRun} (id key : String)
    (new run : ConsoleRun)
    → find id runs ≡ some run
    → later ≡ put key new runs
    → (key =s= id) ≡ false
    → find id later ≡ some run
put_apart runs id key new run found stored apart =
    ap (find id) stored ∙ find-put_other id key new runs apart ∙ found

same_found :
    (runs : TextDict ConsoleRun) (id key : String) (old run : ConsoleRun)
    → find id runs ≡ some run
    → find key runs ≡ some old
    → (key =s= id) ≡ true
    → old ≡ run
same_found runs id key old run found at_key e =
    let equal : some old ≡ some run =
      sym at_key ∙ ap (λ k. find k runs) ((eq_iff key id).0 e) ∙ found in
    cc

moved_terminal :
    {runs later : TextDict ConsoleRun} (id : String) (run old : ConsoleRun) (phase : RunPhase)
    (updates : List Update) (now : ℕ)
    → find id runs ≡ some run
    → is_terminal run ≡ true
    → IsMoved runs later old phase updates now
    → find id later ≡ some run
moved_terminal {runs} id run old phase updates now found ended m =
    elim (Bool-cases (old.run_id =s= id)) [
      | inl e ↦
          let same = same_found runs id old.run_id old run found m.found e in
          let stuck = terminal_stuck run.phase phase ended in
          let clash = sym (ap (λ r. allows r.phase phase) same ∙ stuck) ∙ m.permitted in cc
      | inr e ↦ put_apart runs id old.run_id (advanced old phase updates now) run found m.stored e
    ]

Change-terminal :
    {phases : List RunPhase} {s t : Coordinator} (id : String) (run : ConsoleRun)
    → Change phases s t
    → find id s.runs ≡ some run
    → is_terminal run ≡ true
    → find id t.runs ≡ some run
Change-terminal id run (unchanged runs kept) found ended = ap (find id) runs ∙ found
Change-terminal {s} id run (registered new fresh first runs kept) found ended =
    elim (Bool-cases (new.run_id =s= id)) [
      | inl e ↦
          let clash = sym fresh ∙ ap (λ k. find k s.runs) ((eq_iff new.run_id id).0 e) ∙ found in cc
      | inr e ↦ put_apart s.runs id new.run_id new run found runs e
    ]
Change-terminal id run (moved old phase updates now m other member kept) found ended =
    moved_terminal id run old phase updates now found ended m
Change-terminal {s} id run (promoted old mode now at_old ready runs kept) found ended =
    elim (Bool-cases (old.run_id =s= id)) [
      | inl e ↦
          let same = same_found s.runs id old.run_id old run found at_old e in
          let clash : mem_phase plan_ready terminal_phases ≡ true =
            ap (λ p. mem_phase p terminal_phases) (sym ready ∙ ap (λ r. r.phase) same) ∙ ended in
          cc
      | inr e ↦
          put_apart s.runs id old.run_id (record old { mode = mode; updated_at = now }) run found
            runs e
    ]
Change-terminal id run (awaited old preview now a shown m approvals envelope) found ended =
    moved_terminal id run old awaiting_approval (shown_updates preview) now found ended m

-- Where every run is stored under its own id, once a run has ended, no call and no coroutine that
-- resumes changes anything of it, in any interleaving.
pub finished_for_good :
    (upper : String → String) (ttl : ℕ) {s : Coordinator} {ts : List Task} {t : Coordinator}
    {us : List Task} (id : String) (run : ConsoleRun)
    → Steps upper ttl s ts t us
    → IsKeyed s.runs
    → find id s.runs ≡ some run
    → is_terminal run ≡ true
    → find id t.runs ≡ some run
finished_for_good upper ttl id run stay keyed found ended = found
finished_for_good upper ttl id run (next before step) keyed found ended =
    Change-terminal id run (Step-Change upper ttl step (Steps-IsKeyed upper ttl before keyed))
      (finished_for_good upper ttl id run before keyed found ended) ended
