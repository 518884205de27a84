-- ===== src/Approvals.antt =====
-- application/approval_service.py, with the requests and the response of schemas/hitl.py: the approvals
-- that one process keeps, and what each operation does to them. A call returns the approvals as
-- they are afterwards, also when it raises. `str.upper` is an argument: it is a Unicode table.
pub mod Single
pub mod Trace
pub mod Once
pub mod Backing
pub mod Fresh
pub mod Tests
use Prim.Native.String.{◌++◌ as concat}
use Prim.Native.String
use Prim.Native.Char.{code}
use google_workspace_gmail_a.Common.{
  ℕ, zero, suc, ◌+◌, String, Bool, true, false, not, ◌&&◌, ◌||◌, Option, none, some, leb,
  if◌then◌else◌, strip, ◌=s=◌, TextDict, find, put, drop, Result, ok, err, value_error, type_error,
}
use google_workspace_gmail_a.Schemas.Resources.{is_within}
use google_workspace_gmail_a.Schemas.State.{ChangeSet}
use google_workspace_gmail_a.Preflight.{LoginReason}
use google_workspace_gmail_a.Schemas.Operations.{DryRunResult, preview_ready, is_none}

pub record PendingApproval : Type 0 where
  pub run_id : String
  pub plan_hash : String
  pub before_state_hash : String
  pub change_set_hash : String
  pub phrase : String
  pub expires_at : ℕ

pub record ConfirmationResponse : Type 0 where
  pub approved : Bool
  pub approval_id : String
  pub plan_hash : String
  pub before_state_hash : String
  pub change_set_hash : String

-- `target_ou` has one admissible value.
pub record ConfirmationRequest : Type 0 where
  pub administrator_email : String
  pub workspace_domain : String
  pub plan_hash : String
  pub before_state_hash : String
  pub change_set_hash : String
  pub change_set : ChangeSet
  pub notice_affected_entry_count : ℕ
  pub audit_directory : String

pub record LoginRequest : Type 0 where
  pub reason : LoginReason
  pub expected_administrator_email : String

pub record ClarificationRequest : Type 0 where
  pub reason_code : String
  pub question : String

-- `self._pending`
abbrev pub Pending : Type 0
Pending = TextDict PendingApproval

-- `s[:n]`
abbrev pub take_text : ℕ → String → String
take_text zero s = String.[]
take_text (suc n) String.[] = String.[]
take_text (suc n) (String.◌∷◌ c s) = String.◌∷◌ c (take_text n s)

abbrev pub is_preview_ready : DryRunResult → Bool
is_preview_ready p = elim p.status [ preview_ready ↦ true | _ ↦ false ]

-- `str.isascii`
abbrev pub is_ascii : String → Bool
is_ascii String.[] = true
is_ascii (String.◌∷◌ c s) = leb (code c) 127 && is_ascii s

-- `hmac.compare_digest` of two texts: it refuses those that are not ASCII.
abbrev pub compare_digest : String → String → Result Bool
compare_digest s t = if is_ascii s && is_ascii t then ok (s =s= t) else err type_error

-- `ApprovalService.cancel`
unfoldable pub cancel : Pending → String → Pending
cancel pending run_id = drop run_id pending

-- `ApprovalService.get`
unfoldable pub get : Pending → String → ℕ → Pending × Option PendingApproval
get pending run_id now = elim (find run_id pending) [
  | none ↦ (pending, none)
  | some approval ↦
      if leb approval.expires_at now then (drop run_id pending, none) else (pending, some approval)
]

abbrev pub response_of : PendingApproval → String → ConfirmationResponse
response_of approval approval_id = record {
  approved = true;
  approval_id = approval_id;
  plan_hash = approval.plan_hash;
  before_state_hash = approval.before_state_hash;
  change_set_hash = approval.change_set_hash;
}

-- `ConfirmationResponse(...)`, with the bounds on the approval id
abbrev pub build_response : PendingApproval → String → Result ConfirmationResponse
build_response approval approval_id =
    if is_within 1 200 approval_id then ok (response_of approval approval_id) else err value_error

-- the answer of a phrase that was compared
abbrev pub answer :
    Pending
    → PendingApproval
    → String
    → String
    → Result Bool
    → Pending × Result ConfirmationResponse
answer pending approval run_id approval_id (err e) = (pending, err e)
answer pending approval run_id approval_id (ok false) = (pending, err value_error)
answer pending approval run_id approval_id (ok true) =
    (drop run_id pending, build_response approval approval_id)

-- `ApprovalService.approve`
unfoldable pub approve :
    Pending → String → String → Bool → String → ℕ → Pending × Result ConfirmationResponse
approve pending run_id phrase acknowledged approval_id now = elim (find run_id pending) [
  | none ↦ (drop run_id pending, err value_error)
  | some approval ↦
      if leb approval.expires_at now
      then (drop run_id pending, err value_error)
      else if not acknowledged
      then (pending, err value_error)
      else answer pending approval run_id approval_id
          (compare_digest (strip phrase) approval.phrase)
]

module _ (upper : String → String) (ttl : ℕ) where
  abbrev pub envelope : String → DryRunResult → ℕ → String → String → PendingApproval
  envelope run_id preview now before_state_hash change_set_hash = record {
    run_id = run_id;
    plan_hash = preview.plan_hash;
    before_state_hash = before_state_hash;
    change_set_hash = change_set_hash;
    phrase = concat "APPLY " (upper (take_text 4 run_id));
    expires_at = now + ttl;
  }

  -- the approval of a complete preview
  abbrev pub envelope_of :
      String → DryRunResult → ℕ → Option String → Option String → Result PendingApproval
  envelope_of run_id preview now (some before) (some change) =
      if not (is_preview_ready preview) || is_none preview.change_set
      then err value_error
      else ok (envelope run_id preview now before change)
  envelope_of run_id preview now none change = err value_error
  envelope_of run_id preview now (some before) none = err value_error

  -- keep the approval that was built
  abbrev pub keep : Pending → String → Result PendingApproval → Pending × Result PendingApproval
  keep pending run_id (err e) = (pending, err e)
  keep pending run_id (ok approval) = (put run_id approval pending, ok approval)

  -- `ApprovalService.issue`
  unfoldable pub issue : Pending → String → DryRunResult → ℕ → Pending × Result PendingApproval
  issue pending run_id preview now =
      keep pending run_id
        (envelope_of run_id preview now preview.before_state_hash preview.change_set_hash)
