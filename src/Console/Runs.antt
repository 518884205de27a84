-- ===== src/Console/Runs.antt =====
-- schemas/operations.py and console/coordinator.py: a console run, the table of its phases, and
-- what pydantic requires of a run that is built. A time is a number of microseconds; that it is
-- timezone-aware is not modelled.
use native.Mathlib.Decide.{ℕ_discrete}
use google_workspace_gmail_a.Common.{
  ℕ, String, Bool, true, false, not, Option, List, [], ◌∷◌, ltb, mem_by, Result, ok, value_error,
  raise_if, ◌>>◌, ◌≡◌, sym, arith, >>-eq-ok, ok-injective,
}
use google_workspace_gmail_a.Schemas.Plan.{TaskPlan}
use google_workspace_gmail_a.Schemas.Operations.{
  RunMode, plan_only, dry_run, live, RunPhase, planning, plan_ready, preflight, preview_shown,
  awaiting_approval, executing, verifying, completed, blocked, cancelled, interrupted, DryRunResult,
  is_run_id, is_optional_run_id,
}
use google_workspace_gmail_a.Schemas.Resources.{is_within}
use google_workspace_gmail_a.Schemas.Equality.{String-discrete}
use google_workspace_gmail_a.Reporting.{RunResult}

pub record PhaseTransition : Type 0 where
  pub phase : RunPhase
  pub moment : ℕ
  pub error_code : Option String

pub record ConsoleRun : Type 0 where
  pub run_id : String
  pub request_text : String
  pub mode : RunMode
  pub phase : RunPhase
  pub created_at : ℕ
  pub updated_at : ℕ
  pub plan : Option TaskPlan
  pub preview : Option DryRunResult
  pub result : Option RunResult
  pub error_code : Option String
  pub source_run_id : Option String
  pub history : List PhaseTransition

-- `==` of two runs
unfoldable pub ConsoleRun-discrete : Discrete ConsoleRun
ConsoleRun-discrete = hlevel (ℕ_discrete, String-discrete)

-- `==` of two phases
abbrev pub is_phase : RunPhase → RunPhase → Bool
is_phase planning planning = true
is_phase plan_ready plan_ready = true
is_phase preflight preflight = true
is_phase preview_shown preview_shown = true
is_phase awaiting_approval awaiting_approval = true
is_phase executing executing = true
is_phase verifying verifying = true
is_phase completed completed = true
is_phase blocked blocked = true
is_phase cancelled cancelled = true
is_phase interrupted interrupted = true
is_phase p q = false

-- `==` of two modes
abbrev pub is_mode : RunMode → RunMode → Bool
is_mode plan_only plan_only = true
is_mode dry_run dry_run = true
is_mode live live = true
is_mode m n = false

-- `phase in phases`
abbrev pub mem_phase : RunPhase → List RunPhase → Bool
mem_phase = mem_by is_phase

-- `_ALLOWED_TRANSITIONS`
abbrev pub allowed_transitions : RunPhase → List RunPhase
allowed_transitions planning = plan_ready ∷ blocked ∷ cancelled ∷ []
allowed_transitions plan_ready = preflight ∷ blocked ∷ cancelled ∷ []
allowed_transitions preflight = preview_shown ∷ awaiting_approval ∷ blocked ∷ cancelled ∷ []
allowed_transitions awaiting_approval = plan_ready ∷ executing ∷ blocked ∷ cancelled ∷ []
allowed_transitions executing = verifying ∷ completed ∷ blocked ∷ interrupted ∷ []
allowed_transitions verifying = completed ∷ blocked ∷ interrupted ∷ []
allowed_transitions _ = []

-- `phase in _ALLOWED_TRANSITIONS[run.phase]`
abbrev pub allows : RunPhase → RunPhase → Bool
allows p q = mem_phase q (allowed_transitions p)

-- `_BROWSER_ACTIVE_PHASES`
abbrev pub browser_active_phases : List RunPhase
browser_active_phases = preflight ∷ awaiting_approval ∷ executing ∷ verifying ∷ []

abbrev pub is_active : RunPhase → Bool
is_active p = mem_phase p browser_active_phases

-- the patterns and the bounds of the fields, then the order of the times
unfoldable pub check_run : ConsoleRun → Result (Unit {0})
check_run r = do
  raise_if (not (is_run_id r.run_id)) value_error
  raise_if (not (is_within 1 2000 r.request_text)) value_error
  raise_if (not (is_optional_run_id r.source_run_id)) value_error
  raise_if (ltb r.updated_at r.created_at) value_error

-- `ConsoleRun(...)`
unfoldable pub build_run : ConsoleRun → Result ConsoleRun
unfolding check_run
build_run r = check_run r >> ok r

-- Building a run changes none of its fields.
pub build_run_same : (r run : ConsoleRun) → build_run r ≡ ok run → run ≡ r
unfolding build_run
build_run_same r run built =
    let inverted = >>-eq-ok (check_run r) _ built in sym (ok-injective inverted.2)

pub is_phase_eq : (p q : RunPhase) → is_phase p q ≡ true → p ≡ q
is_phase_eq p q h = ground arith
