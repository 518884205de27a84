-- ===== src/Console/Change/PutUp.antt =====
-- console/coordinator.py: a preview that ends, and the approval that is issued for it.
use google_workspace_gmail_a.Common.{
  ℕ, String, Bool, true, false, ◌&&◌, ◌||◌, Option, none, some, List, [], ◌∷◌, ◌≡◌, ◌≢◌, refl, sym,
  ap, ◌∙◌, subst, inl, inr, find, put, Bool-cases, Result, raise_if-eq-ok, ok, err, value_error,
  arith, >>-eq-ok,
}
use google_workspace_gmail_a.Schemas.Operations.{
  live, RunPhase, preview_shown, preflight, awaiting_approval, blocked, is_none, DryRunResult,
  preview_ready, validate_dry_run, lacks_evidence, check_dry_run, check_dry_run,
}
use google_workspace_gmail_a.Approvals
use google_workspace_gmail_a.Approvals.{
  Pending, PendingApproval, is_preview_ready, envelope, envelope_of,
}
use google_workspace_gmail_a.Approvals.Backing.{IsEnvelopeOf, ready_of, envelope_of-IsEnvelopeOf}
use google_workspace_gmail_a.Console.Runs.{
  mem_phase, ConsoleRun, is_mode, is_phase, is_active, allows,
}
use google_workspace_gmail_a.Console.Coordinator.{
  Coordinator, Outcome, returned, raised, set_preview, set_error_code, advance, advanced, notify,
  keep_run,
}
use google_workspace_gmail_a.Console.Coordinator.Planning.{browser_code}
use google_workspace_gmail_a.Console.Coordinator.Previewing.{
  finish_preview, put_up, is_blocked_preview, end_preview,
}
use google_workspace_gmail_a.Console.Change.{
  preview_end_targets, Change, awaited, HasOwnKey, IsKeyed, All-find, advance-Change,
  advance_returns, runs-keep_run, approvals-keep_run,
}
use google_workspace_gmail_a.Console.Change.Planning.{found_own, resume-Change}

-- A `DryRunResult` that was built passed its validator.
abbrev pub IsBuilt : Outcome DryRunResult → Type 0
IsBuilt (returned result) = validate_dry_run result ≡ ok result
IsBuilt (raised failure) = Unit

complete :
    (p : DryRunResult)
    → p.status ≡ preview_ready
    → validate_dry_run p ≡ ok p
    → lacks_evidence p ≡ false
unfolding validate_dry_run
complete p ready built =
    let checked = >>-eq-ok (check_dry_run p.status p) (ok p) built in
    raise_if-eq-ok (lacks_evidence p) value_error
      (subst (λ status. check_dry_run status p ≡ ok tt) ready checked.1)

is_some_of : {A : Type 0} (o : Option A) → is_none o ≡ false → (a : A) × (o ≡ some a)
is_some_of none h = cc
is_some_of (some a) h = (a, refl)

module _ (upper : String → String) (ttl : ℕ) where
  enveloped :
      (id : String) (p : DryRunResult) (now : ℕ) (b c : Option String) (before change : String)
      → is_preview_ready p ≡ true
      → is_none p.change_set ≡ false
      → b ≡ some before
      → c ≡ some change
      → envelope_of upper ttl id p now b c ≡ ok (envelope upper ttl id p now before change)
  enveloped id p now b c before change ready changed e f = rw (e, f, ready, changed) refl

  -- A complete preview that is ready is given an envelope with its hashes.
  pub issue_built :
      (id : String) (p : DryRunResult) (now : ℕ)
      → is_preview_ready p ≡ true
      → validate_dry_run p ≡ ok p
      → (a : PendingApproval) × ((pending : Pending)
          → Approvals.issue upper ttl pending id p now ≡ (put id a pending, ok a))
        × IsEnvelopeOf p a
  unfolding Approvals.issue
  issue_built id p now ready built =
      let lacking = complete p (ready_of p p.status refl ready) built in
      let (change_set, before_hash, change_hash) =
        parts (is_none p.current_state) (is_none p.desired_state) (is_none p.change_set)
          (is_none p.impact) (is_none p.before_state_hash) (is_none p.change_set_hash) lacking in
      let (before, e) = is_some_of p.before_state_hash before_hash in
      let (change, f) = is_some_of p.change_set_hash change_hash in
      let whole =
        enveloped id p now p.before_state_hash p.change_set_hash before change ready change_set e
          f in
      (
        envelope upper ttl id p now before change,
        (λ pending. ap (Approvals.keep upper ttl pending id) whole),
        envelope_of-IsEnvelopeOf upper ttl id p now p.before_state_hash p.change_set_hash
            (envelope upper ttl id p now before change) whole refl refl,
      )
    where
      parts :
          (a b c d e f : Bool)
          → (a || b || c || d || e || f) ≡ false
          → (c ≡ false) × (e ≡ false) × (f ≡ false)
      parts a b c d e f h = ground arith

  put_up_apart :
      {phases : List RunPhase} (s : Coordinator) (phase : RunPhase) (id : String)
      (result : DryRunResult) (now : ℕ)
      → is_phase phase awaiting_approval ≡ false
      → (call : Coordinator × Result ConsoleRun) → Change phases s call.0
      → Change phases s (put_up upper ttl phase id result now call).0
  put_up_apart s phase id result now apart (t, err e) change = change
  put_up_apart s phase id result now apart (t, ok run) change = rw apart change

  -- A preview that ends puts its run up for approval with its own envelope, or advances it.
  pub end_preview-Change :
      (s : Coordinator) (id : String) (started : ConsoleRun) (outcome : Outcome DryRunResult)
      (now soon : ℕ)
      → IsKeyed s.runs
      → IsBuilt outcome
      → Change preview_end_targets s (end_preview upper ttl s id started outcome now soon).0
  unfolding end_preview
  end_preview-Change s id started outcome now soon keyed built =
      resume-Change s id preflight
        (λ run. finish_preview upper ttl s id started.mode run outcome now soon)
        (λ run found shown. finish outcome built run found shown)
    where
      given :
          (result : DryRunResult) (run : ConsoleRun)
          → find id s.runs ≡ some run
          → run.phase ≡ preflight
          → validate_dry_run result ≡ ok result
          → is_preview_ready result ≡ true
          → Change preview_end_targets s
              (put_up upper ttl awaiting_approval id result soon (
                advance s run awaiting_approval
                  (set_preview (some result) ∷ set_error_code result.reason_code ∷ [])
                  now)).0
      given result run found shown built ready =
          let own = All-find HasOwnKey id run s.runs keyed found in
          let (a, issued, envelope) = issue_built id result soon ready built in
          let next =
            advanced run awaiting_approval
              (set_preview (some result) ∷ set_error_code result.reason_code ∷ []) now in
          let after = notify run.run_id (keep_run s run.run_id next) in
          rw
            (
              advance_returns s run awaiting_approval
                  (set_preview (some result) ∷ set_error_code result.reason_code ∷ []) now
                  (found_own s id run keyed found) (rw shown refl),
              issued after.approvals,
            )
            (awaited run result now a shown
              (record {
                found = found_own s id run keyed found;
                permitted = rw shown refl;
                slot = inr (inl (rw shown refl));
                stored = runs-keep_run s run.run_id next;
              })
              (ap (put id a) (approvals-keep_run s run.run_id next)
                ∙ ap (λ key. put key a s.approvals) (sym own))
              envelope)

      unput :
          (result : DryRunResult) (run : ConsoleRun)
          → find id s.runs ≡ some run
          → run.phase ≡ preflight
          → (phase : RunPhase) → allows preflight phase ≡ true
          → is_active phase ≡ false
          → is_phase phase awaiting_approval ≡ false
          → phase ≢ awaiting_approval
          → mem_phase phase preview_end_targets ≡ true
          → Change preview_end_targets s
              (put_up upper ttl phase id result soon (
                advance s run phase
                  (set_preview (some result) ∷ set_error_code result.reason_code ∷ [])
                  now)).0
      unput result run found shown phase permitted quiet apart other member =
          put_up_apart s phase id result soon apart
            (advance s run phase
              (set_preview (some result) ∷ set_error_code result.reason_code ∷ []) now)
            (advance-Change s s.approvals run phase
              (set_preview (some result) ∷ set_error_code result.reason_code ∷ []) now _ (inl refl)
              (found_own s id run keyed found) (rw shown permitted) (inl quiet) other member)

      finish :
          (outcome : Outcome DryRunResult)
          → IsBuilt outcome
          → (run : ConsoleRun) → find id s.runs ≡ some run
          → run.phase ≡ preflight
          → Change preview_end_targets s
              (finish_preview upper ttl s id started.mode run outcome now soon).0
      finish (raised failure) built run found shown =
          advance-Change s s.approvals run blocked
            (set_error_code (some (browser_code failure)) ∷ []) now _ (inl refl)
            (found_own s id run keyed found) (rw shown refl) (inl refl) (λ e. cc) refl
      finish (returned result) built run found shown =
          elim (Bool-cases (is_preview_ready result && is_mode started.mode live)) [
            | inl e ↦ rw e (given result run found shown built (both (is_preview_ready result) _ e))
            | inr e ↦ rw e (elim (Bool-cases (is_blocked_preview result)) [
              | inl f ↦ rw f (unput result run found shown blocked refl refl refl (λ g. cc) refl)
              | inr f ↦
                  rw f (unput result run found shown preview_shown refl refl refl (λ g. cc) refl)
            ])
          ]
        where
          both : (b c : Bool) → (b && c) ≡ true → b ≡ true
          both b c h = ground arith
