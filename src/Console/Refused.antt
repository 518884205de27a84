-- ===== src/Console/Refused.antt =====
-- console/coordinator.py: calls that raise.
use google_workspace_gmail_a.Common.{ℕ, String, Bool, true, false, ◌≡◌, refl, Result, ok, err}
use google_workspace_gmail_a.Approvals.Once.{IsKept}
use google_workspace_gmail_a.Console.Coordinator.{Coordinator, CoroutineProgress}
use google_workspace_gmail_a.Console.Coordinator.Executing.{begin_approve}
use google_workspace_gmail_a.Console.Change.Approving.{
  Approving, refuses, blocks, launches, begin_approve-Approving,
}
use google_workspace_gmail_a.Console.Change.{IsKeyed}

-- Nothing changes but that an envelope may be dropped.
pub record IsRefused (before after : Coordinator) : Type 0 where
  pub runs : after.runs ≡ before.runs
  pub approvals : IsKept before.approvals after.approvals
  pub journal : after.journal ≡ before.journal
  pub listeners : after.listeners ≡ before.listeners
  pub previewer : after.has_dry_run ≡ before.has_dry_run
  pub runner : after.has_live_runner ≡ before.has_live_runner

-- the error of a call, or nothing
abbrev pub is_refused : Result CoroutineProgress → Bool
is_refused (err e) = true
is_refused (ok progress) = false

Approving-IsRefused :
    (s : Coordinator) {id phrase : String} {acknowledged : Bool} {approval_id : String}
    {now soon : ℕ} {call : Coordinator × Result CoroutineProgress}
    → Approving s id phrase acknowledged approval_id now soon call
    → is_refused call.1 ≡ true
    → IsRefused s call.0
Approving-IsRefused s (refuses pending e kept) refused = record {
  runs = refl;
  approvals = kept;
  journal = refl;
  listeners = refl;
  previewer = refl;
  runner = refl;
}
Approving-IsRefused s (blocks pending run kept found waiting) refused = absurd (never refused)
  where
    never : false ≡ true → ⊥
    never e = cc
Approving-IsRefused s (launches pending run confirmation kept found waiting given) refused =
    absurd (never refused)
  where
    never : false ≡ true → ⊥
    never e = cc

-- Where every run is stored under its own id, an approval that raises, whatever the reason, leaves
-- every run, the journal, the listeners and the services as they are, and drops at most one
-- pending envelope.
pub begin_approve-IsRefused :
    (s : Coordinator) (id phrase : String) (acknowledged : Bool) (approval_id : String)
    (now soon : ℕ)
    → IsKeyed s.runs
    → is_refused (begin_approve s id phrase acknowledged approval_id now soon).1 ≡ true
    → IsRefused s (begin_approve s id phrase acknowledged approval_id now soon).0
begin_approve-IsRefused s id phrase acknowledged approval_id now soon keyed =
    Approving-IsRefused s
      (begin_approve-Approving s id phrase acknowledged approval_id now soon keyed)
