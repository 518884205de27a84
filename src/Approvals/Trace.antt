-- ===== src/Approvals/Trace.antt =====
-- Every sequence of calls of the approval service, from the empty one.
use google_workspace_gmail_a.Common.{
  ℕ, ◌+◌, ◌≤◌, String, Bool, Option, none, some, List, [], ◌∷◌, ◌≡◌, if◌then◌else◌, ◌=s=◌, find, ok,
  err, arith, Error,
}
use google_workspace_gmail_a.Schemas.Operations.{DryRunResult}
use google_workspace_gmail_a.Approvals.{
  PendingApproval, ConfirmationResponse, Pending, approve, get, cancel, issue,
}

-- What is recorded of a sequence, the last event first.
pub data Event : Type 0 where
  issued : (run_id : String) → DryRunResult → PendingApproval → Event
  approved : (run_id : String) → ConfirmationResponse → Event

-- The calls that lead to a state. A call that raises, `get` and `cancel` are not recorded.
pub data Reached (upper : String → String) (ttl : ℕ) : Pending → List Event → Type 0 where
  start : Reached upper ttl [] []
  issue_returns :
      {s s' : Pending} {t : List Event} (run_id : String) (preview : DryRunResult) (now : ℕ)
      (a : PendingApproval)
      → Reached upper ttl s t
      → issue upper ttl s run_id preview now ≡ (s', ok a)
      → Reached upper ttl s' (issued run_id preview a ∷ t)
  issue_raises :
      {s s' : Pending} {t : List Event} (run_id : String) (preview : DryRunResult) (now : ℕ)
      (e : Error)
      → Reached upper ttl s t
      → issue upper ttl s run_id preview now ≡ (s', err e)
      → Reached upper ttl s' t
  approve_returns :
      {s s' : Pending} {t : List Event} (run_id phrase : String) (acknowledged : Bool)
      (approval_id : String) (now : ℕ) (r : ConfirmationResponse)
      → Reached upper ttl s t
      → approve s run_id phrase acknowledged approval_id now ≡ (s', ok r)
      → Reached upper ttl s' (approved run_id r ∷ t)
  approve_raises :
      {s s' : Pending} {t : List Event} (run_id phrase : String) (acknowledged : Bool)
      (approval_id : String) (now : ℕ) (e : Error)
      → Reached upper ttl s t
      → approve s run_id phrase acknowledged approval_id now ≡ (s', err e)
      → Reached upper ttl s' t
  get_returns :
      {s s' : Pending} {t : List Event} (run_id : String) (now : ℕ) (a : Option PendingApproval)
      → Reached upper ttl s t
      → get s run_id now ≡ (s', a)
      → Reached upper ttl s' t
  cancel_returns :
      {s : Pending} {t : List Event} (run_id : String)
      → Reached upper ttl s t
      → Reached upper ttl (cancel s run_id) t

-- how many approvals the run was given
abbrev pub approvals_of : String → List Event → ℕ
approvals_of run_id [] = 0
approvals_of run_id (issued other preview a ∷ t) = approvals_of run_id t
approvals_of run_id (approved other r ∷ t) =
    (if other =s= run_id then 1 else 0) + approvals_of run_id t

-- how many previews of the run were put up for approval
abbrev pub issues_of : String → List Event → ℕ
issues_of run_id [] = 0
issues_of run_id (issued other preview a ∷ t) =
    (if other =s= run_id then 1 else 0) + issues_of run_id t
issues_of run_id (approved other r ∷ t) = issues_of run_id t

abbrev pub one_of : Option PendingApproval → ℕ
one_of none = 0
one_of (some a) = 1

pub one_of_le : (a : Option PendingApproval) → one_of a ≤ 1
one_of_le none = omega arith
one_of_le (some a) = omega arith

-- one pending envelope, or none
abbrev pub held : String → Pending → ℕ
held run_id s = one_of (find run_id s)
