-- ===== src/Reconciliation/Tests.antt =====
-- domain/reconciliation.py at concrete states, with fixed texts for ids and resources.
use google_workspace_gmail_a.Common.{ℕ, String, true, some, List, [], ◌∷◌}
use google_workspace_gmail_a.Schemas.Resources.{ManagedAddressList, ManagedBlockedSenderRule}
use google_workspace_gmail_a.Schemas.State.{BlockedSenderState}
use google_workspace_gmail_a.Hashing.{Json, text}
use google_workspace_gmail_a.Reconciliation.{ReconciliationContext, reconcile_mutation}
use google_workspace_gmail_a.Reconciliation.Retry.{Decides, reconcile_mutation-retry_iff}
use google_workspace_gmail_a.DesiredState.Tests.{rule1, observed}

abbrev same : String → String
same s = s

abbrev str_id : ℕ → String
str_id id = "id"

abbrev dump_rule : ManagedBlockedSenderRule → String
dump_rule r = r.display_name

abbrev dump_list : ManagedAddressList → String
dump_list l = l.display_name

abbrev repr : List String → String
repr names = "names"

abbrev dump_state : BlockedSenderState → Json
dump_state s = text s.target_ou

abbrev context : ReconciliationContext
context = record {
  retry_count = 0;
  operation_is_idempotent = true;
  ownership_confirmed = true;
  root_ou_confirmed = true;
  confirmation_valid = true;
}

abbrev desired : BlockedSenderState
desired = record observed { rules = rule1 ∷ [] }

reconcile_mutation-retry_iff_example :
    Decides str_id dump_rule dump_list repr same same dump_state observed desired observed context (
      reconcile_mutation str_id dump_rule dump_list repr same same dump_state observed desired
        (some observed)
        context)
reconcile_mutation-retry_iff_example =
    reconcile_mutation-retry_iff str_id dump_rule dump_list repr same same dump_state observed
      desired observed context
