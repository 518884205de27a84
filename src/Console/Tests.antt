-- ===== src/Console/Tests.antt =====
-- console/coordinator.py and console/journal.py at a concrete run: created from a plan, previewed,
-- approved and executed.
use native.Mathlib.Decide.{ℕ_discrete}
use mathlib.Core.List.{Memᴰ}
use google_workspace_gmail_a.Common.{
  String, true, false, none, some, List, [], ◌∷◌, ◌≡◌, refl, find, ok, err, value_error, strip,
  select, map,
}
use google_workspace_gmail_a.Schemas.Operations.{
  live, plan_ready, preflight, awaiting_approval, executing, completed, cancelled, DryRunResult,
  preview_ready, standard, validate_dry_run,
}
use google_workspace_gmail_a.Schemas.Equality.{
  String-discrete, ManagedBlockedSenderRule-discrete, ManagedAddressList-discrete,
}
use google_workspace_gmail_a.Reporting.{RunResult, applied_ui_verified}
use google_workspace_gmail_a.Approvals
use google_workspace_gmail_a.Approvals.{ConfirmationResponse}
use google_workspace_gmail_a.DesiredState.Tests.{observed, switch_off}
use google_workspace_gmail_a.Console.Runs.{
  ConsoleRun, ConsoleRun-discrete, build_run, check_run, is_active,
}
use google_workspace_gmail_a.Console.Journal.{
  foreign, readable, Journal, restored, restore_run, save, load, saved_runs,
}
use google_workspace_gmail_a.Console.Coordinator.{
  Coordinator, Task, preview_task, live_task, returned, advance, advanced, new_run,
  create_from_plan, set_preview, set_result, set_error_code, set_source_run_id,
}
use google_workspace_gmail_a.Console.Coordinator.Previewing.{begin_preview, end_preview, cancel}
use google_workspace_gmail_a.Console.Coordinator.Executing.{begin_approve, end_approve}
use google_workspace_gmail_a.Console.Change.{IsKeyed}
use google_workspace_gmail_a.Console.Steps.{
  Steps, IsTaken, here, stay, next, created, preview_began, preview_ended, approve_began, and_task,
  new_coordinator,
}
use google_workspace_gmail_a.Console.History.{HasHistory, Steps-HasHistory}
use google_workspace_gmail_a.Console.Slot.{one_browser_run}
use google_workspace_gmail_a.Console.Finished.{finished_for_good}
use google_workspace_gmail_a.Console.Authorized.Calls.{IsAuthorized}
use google_workspace_gmail_a.Console.Authorized.{live_run-IsAuthorized}
use google_workspace_gmail_a.Console.Ended.{IsEnded, end_approve-IsEnded}
use google_workspace_gmail_a.Console.Executions.{HasTask}
use google_workspace_gmail_a.Console.Waiting.{executing-HasTask}
use google_workspace_gmail_a.Console.Refused.{is_refused, IsRefused, begin_approve-IsRefused}
use google_workspace_gmail_a.Console.Journal.Snapshot.{is_valid_snapshot}
use google_workspace_gmail_a.Console.Journal.RoundTrip.{load-save}
use google_workspace_gmail_a.Console.Journal.Written.{IsSaved, save-IsSaved}

abbrev same : String → String
same s = s

abbrev id : String
id = "000000000000000000000000000000aa"

-- digests of the plan, the state before and the changes
abbrev digest_p : String
digest_p = "a1a1a1a1a1a1a1a1a1a1a1a1a1a1a1a1a1a1a1a1a1a1a1a1a1a1a1a1a1a1a1a1"

abbrev digest_b : String
digest_b = "b2b2b2b2b2b2b2b2b2b2b2b2b2b2b2b2b2b2b2b2b2b2b2b2b2b2b2b2b2b2b2b2"

abbrev digest_c : String
digest_c = "c3c3c3c3c3c3c3c3c3c3c3c3c3c3c3c3c3c3c3c3c3c3c3c3c3c3c3c3c3c3c3c3"

abbrev preview : DryRunResult
preview = record {
  status = preview_ready;
  plan = switch_off;
  current_state = some observed;
  desired_state = some observed;
  change_set = some (record {
    before_state = observed;
    expected_after = observed;
    rules_to_create = [];
    rules_to_update = [];
    rules_to_remove = [];
    address_lists_to_create = [];
    address_lists_to_update = [];
    address_lists_to_remove = [];
  });
  impact = some (record {
    level = standard;
    rules_created = 0;
    rules_updated = 1;
    rules_removed = 0;
    address_lists_created = 0;
    address_lists_updated = 0;
    address_lists_removed = 0;
    affected_entries = 1;
    root_ou_confirmed = true;
    ownership_verified = true;
  });
  plan_hash = digest_p;
  before_state_hash = some digest_b;
  change_set_hash = some digest_c;
  reason_code = none;
}

abbrev result : RunResult
result = record {
  status = applied_ui_verified;
  requested_changes = [];
  verified_changes = [];
  warnings = [];
  error_code = none;
  propagation_pending = false;
}

-- the run in its phases
abbrev run1 : ConsoleRun
run1 = new_run id "switch it off" live plan_ready 1 (some switch_off)

abbrev run2 : ConsoleRun
run2 = advanced run1 preflight (set_preview none ∷ set_result none ∷ set_error_code none ∷ []) 2

abbrev run3 : ConsoleRun
run3 = advanced run2 awaiting_approval (set_preview (some preview) ∷ set_error_code none ∷ []) 3

abbrev run4 : ConsoleRun
run4 = advanced run3 executing [] 4

-- the console after each call
abbrev s0 : Coordinator
s0 = new_coordinator (restored 0 []) true true none

abbrev s1 : Coordinator
s1 = (create_from_plan s0 id " switch it off " live switch_off 1).0

abbrev s2 : Coordinator
s2 = (begin_preview s1 id 2).0

abbrev ts2 : List Task
ts2 = and_task (begin_preview s1 id 2).1 []

abbrev s3 : Coordinator
s3 = (end_preview same 10 s2 id run1 (returned preview) 3 3).0

abbrev s4 : Coordinator
s4 = (begin_approve s3 id "APPLY 0000" true "approval-1" 4 4).0

abbrev ts4 : List Task
ts4 = and_task (begin_approve s3 id "APPLY 0000" true "approval-1" 4 4).1 []

abbrev s5 : Coordinator
s5 = (end_approve s4 id (returned result) none 5).0

-- The run is cancelled after its plan, and then its approval is looked for.
abbrev cancelled_run : ConsoleRun
cancelled_run = advanced run1 cancelled [] 2

abbrev c2 : Coordinator
c2 = (cancel s1 id 2).0

opens : Unit {0}
unfolding create_from_plan build_run check_run advance begin_preview end_preview begin_approve
    end_approve Approvals.issue Approvals.approve strip ConsoleRun-discrete String-discrete
    ℕ_discrete ManagedBlockedSenderRule-discrete ManagedAddressList-discrete restored
    validate_dry_run cancel Approvals.cancel
opens = tt

found1 : find id s1.runs ≡ some run1
unfolding opens
found1 = refl

found2 : find id s2.runs ≡ some run2
unfolding opens
found2 = refl

found3 : find id s3.runs ≡ some run3
unfolding opens
found3 = refl

found4 : find id s4.runs ≡ some run4
unfolding opens
found4 = refl

keyed2 : IsKeyed c2.runs
unfolding opens
keyed2 = (refl, tt)

keyed3 : IsKeyed s3.runs
unfolding opens
keyed3 = (refl, tt)

keyed4 : IsKeyed s4.runs
unfolding opens
keyed4 = (refl, tt)

-- After the execution the run has ended, and a second approval is refused.
ended5 :
    find id s5.runs
    ≡ some (
        advanced run4 completed
          (set_result (some result) ∷ set_error_code none ∷ set_source_run_id none ∷ [])
          5)
unfolding opens
ended5 = refl

approved_twice : (begin_approve s5 id "APPLY 0000" true "approval-1" 6 6).1 ≡ err value_error
unfolding opens
approved_twice = refl

-- A wrong phrase raises.
wrong_phrase : is_refused (begin_approve s3 id "apply" true "approval-1" 4 4).1 ≡ true
unfolding opens
wrong_phrase = refl

taken2 : IsTaken (preview_task id run1) ts2 []
unfolding opens
taken2 = here

called4 : (confirmation : ConfirmationResponse) × Memᴰ (live_task id run4 confirmation) ts4
unfolding opens
called4 = (
  Approvals.response_of (Approvals.envelope same 10 id preview 3 digest_b digest_c) "approval-1",
  Memᴰ.head refl,
)

built : validate_dry_run preview ≡ ok preview
unfolding opens
built = refl

steps4 : Steps same 10 s0 [] s4 ts4
unfolding restored
steps4 =
    next
      (next
        (next (next stay (created id " switch it off " live switch_off 1 refl))
          (preview_began id 2))
        (preview_ended id run1 (returned preview) 3 3 taken2 built))
      (approve_began id "APPLY 0000" true "approval-1" 4 4)

Steps-HasHistory_example : HasHistory run4
Steps-HasHistory_example = Steps-HasHistory same 10 [] 0 id run4 tt steps4 found4

-- While the first run executes, a second one is created.
abbrev id_b : String
id_b = "000000000000000000000000000000bb"

abbrev run_b : ConsoleRun
run_b = new_run id_b "switch it off" live plan_ready 5 (some switch_off)

abbrev s6 : Coordinator
s6 = (create_from_plan s4 id_b "switch it off" live switch_off 5).0

steps6 : Steps same 10 s0 [] s6 ts4
unfolding opens
steps6 = next steps4 (created id_b "switch it off" live switch_off 5 refl)

found_a : find id s6.runs ≡ some run4
unfolding opens
found_a = refl

found_b : find id_b s6.runs ≡ some run_b
unfolding opens
found_b = refl

one_browser_run_example : is_active run_b.phase ≡ false
one_browser_run_example =
    one_browser_run same 10 [] 0 id id_b run4 run_b steps6 found_a found_b refl refl

-- Its preview is refused.
refuses_second : is_refused (begin_preview s6 id_b 6).1 ≡ true
unfolding opens
refuses_second = refl

-- A run that is cancelled in preflight frees the slot while its coroutine is suspended: the preview
-- of another run then adds a second one.
abbrev p3 : Coordinator
p3 = (create_from_plan (cancel s2 id 3).0 id_b "switch it off" live switch_off 5).0

two_previews :
    and_task (begin_preview p3 id_b 6).1 ts2 ≡ preview_task id_b run_b ∷ preview_task id run1 ∷ []
unfolding opens
two_previews = refl

cancelled2 : find id c2.runs ≡ some cancelled_run
unfolding opens
cancelled2 = refl

steps3 : Steps same 10 c2 [] (begin_preview c2 id 3).0 (and_task (begin_preview c2 id 3).1 [])
steps3 = next stay (preview_began id 3)

finished_for_good_example : find id (begin_preview c2 id 3).0.runs ≡ some cancelled_run
finished_for_good_example = finished_for_good same 10 id cancelled_run steps3 keyed2 cancelled2 refl

live_run-IsAuthorized_example : IsAuthorized id run4 called4.0
live_run-IsAuthorized_example =
    live_run-IsAuthorized same 10 (restored 0 []) id run4 called4.0 steps4 called4.1

end_approve-IsEnded_example : IsEnded id (end_approve s4 id (returned result) none 5)
end_approve-IsEnded_example =
    end_approve-IsEnded s4 id run4 (returned result) none 5 keyed4 found4 refl

executing-HasTask_example : HasTask id ts4 × IsEnded id (end_approve s4 id (returned result) none 5)
executing-HasTask_example =
    executing-HasTask same 10 [] 0 id run4 (returned result) none 5 steps4 found4 refl

begin_approve-IsRefused_example : IsRefused s3 (begin_approve s3 id "apply" true "approval-1" 4 4).0
begin_approve-IsRefused_example =
    begin_approve-IsRefused s3 id "apply" true "approval-1" 4 4 keyed3 wrong_phrase

-- A journal with an item of another schema version.
abbrev journal : Journal
journal = record { stored = readable []; unknown = foreign "{}" ∷ []; writable = true }

-- A run that a clock step left with an update before its creation, and one that was cancelled.
abbrev early : ConsoleRun
early = record (advanced run1 preflight [] 0) { updated_at = 0 }

abbrev all_runs : List ConsoleRun
all_runs = cancelled_run ∷ early ∷ run2 ∷ run4 ∷ []

load-save_example : load (save journal all_runs) 9 ≡ (
  save journal all_runs,
  map (λ run. restore_run run 9) (select is_valid_snapshot (saved_runs all_runs)),
)
load-save_example = load-save journal all_runs 9 refl (refl, tt)

-- The early run is skipped.
loads :
    (load (save journal all_runs) 9).1
    ≡ restore_run run2 9 ∷ restore_run run4 9 ∷ cancelled_run ∷ []
unfolding opens load save is_valid_snapshot
loads = refl

save-IsSaved_example : IsSaved journal all_runs (save journal all_runs)
save-IsSaved_example = save-IsSaved journal all_runs refl
