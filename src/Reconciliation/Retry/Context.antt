-- ===== src/Reconciliation/Retry/Context.antt =====
-- domain/reconciliation.py: the context in which a mutation may be tried again.
use google_workspace_gmail_a.Common.{Bool, true, ◌&&◌, ◌==◌, ◌≡◌, ◌↔◌, ==_iff, arith}
use google_workspace_gmail_a.Reconciliation.{ReconciliationContext, retry_preconditions_hold}

-- Everything that the code asks of the context: the first try of an idempotent operation, whose
-- ownership, root unit and confirmation hold.
pub record IsRetryContext (c : ReconciliationContext) : Type 0 where
  pub first_retry : c.retry_count ≡ 0
  pub idempotent : c.operation_is_idempotent ≡ true
  pub owned : c.ownership_confirmed ≡ true
  pub root : c.root_ou_confirmed ≡ true
  pub confirmed : c.confirmation_valid ≡ true

pub context_iff :
    (c : ReconciliationContext) → (retry_preconditions_hold c ≡ true) ↔ IsRetryContext c
context_iff c = (to_context, of_context)
  where
    parts :
        (a b d e f : Bool)
        → (a && b && d && e && f) ≡ true
        → (a ≡ true) × (b ≡ true) × (d ≡ true) × (e ≡ true) × (f ≡ true)
    parts a b d e f h = ground arith

    to_context : retry_preconditions_hold c ≡ true → IsRetryContext c
    to_context h =
        let (count, idempotent, owned, root, confirmed) =
          parts (c.retry_count == 0) c.operation_is_idempotent c.ownership_confirmed
            c.root_ou_confirmed c.confirmation_valid h in
        record {
          first_retry = (==_iff c.retry_count 0).0 count;
          idempotent = idempotent;
          owned = owned;
          root = root;
          confirmed = confirmed;
        }

    of_context : IsRetryContext c → retry_preconditions_hold c ≡ true
    of_context h =
        let count = (==_iff c.retry_count 0).1 h.first_retry in
        joined _ _ _ _ _ count h.idempotent h.owned h.root h.confirmed
      where
        joined :
            (a b d e f : Bool)
            → a ≡ true
            → b ≡ true
            → d ≡ true
            → e ≡ true
            → f ≡ true
            → (a && b && d && e && f) ≡ true
        joined a b d e f p q r s t = ground arith
