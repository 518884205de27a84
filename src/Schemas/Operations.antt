-- ===== src/Schemas/Operations.antt =====
-- schemas/operations.py: previews, run phases, propagation records and contract packs. A time is a number of
-- microseconds; that it is timezone-aware is not modelled.
use Prim.Native.String
use Prim.Native.Char.{code}
use google_workspace_gmail_a.Common.{
  ℕ, String, Bool, true, false, not, ◌&&◌, ◌||◌, Option, none, some, List, [], ◌∷◌, ltb, leb, ◌==◌,
  is_empty, Result, ok, value_error, raise_if, ◌>>◌, is_blank,
}
use google_workspace_gmail_a.Schemas.Plan.{TaskPlan}
use google_workspace_gmail_a.Schemas.State.{BlockedSenderState, ChangeSet}

pub data RunMode : Type 0 where
  plan_only dry_run live : RunMode

-- `preview_shown` is the phase "preview_ready".
pub data RunPhase : Type 0 where
  planning plan_ready preflight preview_shown awaiting_approval executing verifying : RunPhase
  completed blocked cancelled interrupted : RunPhase

pub data ImpactLevel : Type 0 where
  standard broad destructive : ImpactLevel

pub record ImpactAssessment : Type 0 where
  pub level : ImpactLevel
  pub rules_created : ℕ
  pub rules_updated : ℕ
  pub rules_removed : ℕ
  pub address_lists_created : ℕ
  pub address_lists_updated : ℕ
  pub address_lists_removed : ℕ
  pub affected_entries : ℕ
  pub root_ou_confirmed : Bool
  pub ownership_verified : Bool

-- `dry_run_blocked` is the status "blocked".
pub data DryRunStatus : Type 0 where
  preview_ready no_change dry_run_blocked : DryRunStatus

pub record DryRunResult : Type 0 where
  pub status : DryRunStatus
  pub plan : TaskPlan
  pub current_state : Option BlockedSenderState
  pub desired_state : Option BlockedSenderState
  pub change_set : Option ChangeSet
  pub impact : Option ImpactAssessment
  pub plan_hash : String
  pub before_state_hash : Option String
  pub change_set_hash : Option String
  pub reason_code : Option String

abbrev pub is_none {ℓ} : {A : Type ℓ} → Option A → Bool
is_none none = true
is_none (some a) = false

abbrev has_code : Option String → Bool
has_code none = false
has_code (some code) = not (is_blank code)

-- some of the six pieces of evidence is missing
abbrev pub lacks_evidence : DryRunResult → Bool
lacks_evidence r =
    is_none r.current_state
    || is_none r.desired_state
    || is_none r.change_set
    || is_none r.impact
    || is_none r.before_state_hash
    || is_none r.change_set_hash

-- the tests of `require_status_evidence`, by the status
abbrev pub check_dry_run : DryRunStatus → DryRunResult → Result (Unit {0})
check_dry_run dry_run_blocked r = raise_if (not (has_code r.reason_code)) value_error
check_dry_run status r = raise_if (lacks_evidence r) value_error

-- `require_status_evidence`
unfoldable pub validate_dry_run : DryRunResult → Result DryRunResult
validate_dry_run r = check_dry_run r.status r >> ok r

pub data PropagationStatus : Type 0 where
  pending ui_reconfirmed mail_flow_verified expired failed : PropagationStatus

pub record PropagationRecord : Type 0 where
  pub run_id : String
  pub status : PropagationStatus
  pub created_at : ℕ
  pub updated_at : ℕ
  pub due_at : ℕ
  pub ui_recheck_run_id : Option String
  pub mail_flow_audit_run_id : Option String
  pub note : Option String

-- `[0-9a-f]*`
abbrev pub is_hex : String → Bool
is_hex String.[] = true
is_hex (String.◌∷◌ c s) =
    ((leb 48 (code c) && leb (code c) 57) || (leb 97 (code c) && leb (code c) 102)) && is_hex s

-- `^[0-9a-f]{32}$`
abbrev pub is_run_id : String → Bool
is_run_id s = String.count s == 32 && is_hex s

-- `Sha256Digest`: `^[0-9a-f]{64}$`
abbrev pub is_digest : String → Bool
is_digest s = String.count s == 64 && is_hex s

abbrev pub is_optional_run_id : Option String → Bool
is_optional_run_id none = true
is_optional_run_id (some s) = is_run_id s

abbrev is_note_short : Option String → Bool
is_note_short none = true
is_note_short (some text) = leb (String.count text) 500

abbrev pub is_status : PropagationStatus → PropagationStatus → Bool
is_status pending pending = true
is_status ui_reconfirmed ui_reconfirmed = true
is_status mail_flow_verified mail_flow_verified = true
is_status expired expired = true
is_status failed failed = true
is_status s t = false

-- the patterns and the bound of the fields, then the tests of `require_valid_timeline`
unfoldable pub check_propagation : PropagationRecord → Result (Unit {0})
check_propagation r = do
  raise_if (not (is_run_id r.run_id)) value_error
  raise_if (not (is_optional_run_id r.ui_recheck_run_id)) value_error
  raise_if (not (is_optional_run_id r.mail_flow_audit_run_id)) value_error
  raise_if (not (is_note_short r.note)) value_error
  raise_if (ltb r.updated_at r.created_at || ltb r.due_at r.created_at) value_error
  raise_if (is_status r.status mail_flow_verified && is_none r.mail_flow_audit_run_id) value_error
  raise_if (is_status r.status ui_reconfirmed && is_none r.ui_recheck_run_id) value_error
  raise_if
      (is_status r.status pending
        && (not (is_none r.ui_recheck_run_id) || not (is_none r.mail_flow_audit_run_id)))
      value_error
  raise_if (not (is_status r.status mail_flow_verified) && not (is_none r.mail_flow_audit_run_id))
      value_error

-- `require_valid_timeline`, after the patterns and the bound of the fields
unfoldable pub validate_propagation : PropagationRecord → Result PropagationRecord
validate_propagation r = check_propagation r >> ok r

pub data ContractStatus : Type 0 where
  draft fixture_validated read_live_validated write_live_validated accepted : ContractStatus

pub record UiContractPack : Type 0 where
  pub contract_id : ℕ
  pub created_at : ℕ
  pub status : ContractStatus
  pub fixture_hashes : List String
  pub contract_names : List String
  pub accepted_digest : Option String

abbrev is_accepted : ContractStatus → Bool
is_accepted accepted = true
is_accepted status = false

abbrev are_digests : List String → Bool
are_digests [] = true
are_digests (hash ∷ hashes) = is_digest hash && are_digests hashes

abbrev is_optional_digest : Option String → Bool
is_optional_digest none = true
is_optional_digest (some hash) = is_digest hash

-- `require_acceptance_evidence`, after the patterns of the fields
unfoldable pub validate_contract_pack : UiContractPack → Result UiContractPack
validate_contract_pack p = do
  raise_if (not (are_digests p.fixture_hashes && is_optional_digest p.accepted_digest)) value_error
  raise_if
      (is_accepted p.status
        && (is_empty p.fixture_hashes || is_empty p.contract_names || is_none p.accepted_digest))
      value_error
  raise_if (not (is_accepted p.status) && not (is_none p.accepted_digest)) value_error
  ok p

pub data OwnershipStatus : Type 0 where
  healthy missing_in_ui registry_missing relationship_changed : OwnershipStatus
  partial_creation unmanaged : OwnershipStatus

pub record OwnershipHealth : Type 0 where
  pub ownership_id : Option ℕ
  pub resource_name : String
  pub status : OwnershipStatus
  pub detail : String
  pub recoverable_from_audit : Bool
