-- ===== src/Console/Journal.antt =====
-- console/journal.py: what the journal's file keeps of the runs of a console, and the runs that a
-- new console starts from. An envelope is what the file holds of one run: the dump of a run, which
-- is validated when it is loaded, an item that is not such a dump, or one of another schema version.
pub mod Snapshot
pub mod RoundTrip
pub mod Written
use google_workspace_gmail_a.Common.{
  ℕ, String, Bool, true, false, not, none, some, List, [], ◌∷◌, ◌++◌, map, select, take,
  if◌then◌else◌,
}
use google_workspace_gmail_a.Schemas.Operations.{
  RunPhase, planning, plan_ready, preflight, preview_shown, awaiting_approval, executing, verifying,
  completed, blocked, cancelled, interrupted,
}
use google_workspace_gmail_a.Console.Runs.{ConsoleRun, mem_phase}
use google_workspace_gmail_a.Console.Journal.Snapshot.{is_valid_snapshot}

-- `snapshot` is the dump of a run, as `save` writes it.
pub data Envelope : Type 0 where
  snapshot : ConsoleRun → Envelope
  refused : String → Envelope
  foreign : String → Envelope

-- what reading the file gives: an `OSError`, an error of its content, or the envelopes
pub data Stored : Type 0 where
  unavailable corrupt : Stored
  readable : List Envelope → Stored

-- `stored` is the file; the other two are the journal's fields.
pub record Journal : Type 0 where
  pub stored : Stored
  pub unknown : List Envelope
  pub writable : Bool

-- `_TERMINAL_PHASES`
abbrev pub terminal_phases : List RunPhase
terminal_phases = preview_shown ∷ completed ∷ blocked ∷ cancelled ∷ interrupted ∷ []

abbrev pub is_terminal : ConsoleRun → Bool
is_terminal run = mem_phase run.phase terminal_phases

-- `_TERMINAL_LIMIT`
abbrev pub terminal_limit : ℕ
terminal_limit = 100

-- the runs that `save` writes, in its order
unfoldable pub saved_runs : List ConsoleRun → List ConsoleRun
saved_runs runs =
    select (λ run. not (is_terminal run)) runs ++ take terminal_limit (select is_terminal runs)

-- `ConsoleRunJournal.save`
unfoldable pub save : Journal → List ConsoleRun → Journal
unfolding saved_runs
save journal runs =
    if not journal.writable
    then journal
    else record journal { stored = readable (unknown ++ map snapshot (saved_runs runs)) }
  where
    open journal use {unknown}

-- `_downgrade`, without the other updates
abbrev pub downgrade : ConsoleRun → RunPhase → String → ℕ → ConsoleRun
downgrade run phase error_code now = record run {
  phase = phase;
  updated_at = now;
  error_code = some error_code;
  history = history ++ record { phase = phase; moment = now; error_code = some error_code } ∷ [];
}
  where
    open run use {history}

-- the cases of `_restore_run`
abbrev pub restore_at : RunPhase → ConsoleRun → ℕ → ConsoleRun
restore_at planning run now = downgrade run blocked "console_restarted" now
restore_at preflight run now = downgrade run blocked "console_restarted" now
restore_at awaiting_approval run now = record (downgrade run plan_ready "approval_expired" now) {
  preview = none;
  result = none;
}
restore_at executing run now = downgrade run interrupted "console_restarted_execution_uncertain" now
restore_at verifying run now = downgrade run interrupted "console_restarted_execution_uncertain" now
restore_at phase run now = run

-- `_restore_run`
unfoldable pub restore_run : ConsoleRun → ℕ → ConsoleRun
restore_run run now = restore_at run.phase run now

-- `item.schema_version != "1"`
abbrev pub is_foreign : Envelope → Bool
is_foreign (foreign item) = true
is_foreign envelope = false

-- the loop of `load` over the envelopes: a snapshot that is not valid is skipped
unfoldable pub restored : ℕ → List Envelope → List ConsoleRun
unfolding restore_run is_valid_snapshot
restored now [] = []
restored now (snapshot run ∷ envelopes) =
    let rest = restored now envelopes in
    if is_valid_snapshot run then restore_run run now ∷ rest else rest
restored now (envelope ∷ envelopes) = restored now envelopes

-- `ConsoleRunJournal.load`
unfoldable pub load : Journal → ℕ → Journal × List ConsoleRun
unfolding restored
load journal now = elim journal.stored [
  | unavailable ↦ (record journal { writable = false }, [])
  | corrupt ↦ (record journal { writable = false }, [])
  | readable envelopes ↦
      (record journal { unknown = select is_foreign envelopes }, restored now envelopes)
]
