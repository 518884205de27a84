-- ===== src/Diff/Changes.antt =====
-- domain/diff.py: when a change set writes nothing.
use google_workspace_gmail_a.Common.{
  ℕ, Bool, true, false, not, Option, none, some, List, [], ◌∷◌, ◌≡◌, refl, sym, ap, ◌∙◌, Dict,
  contains, lookup, All, All-map_imp, Option-cases, inl, inr, index_by, is_empty, ◌↔◌, any,
  lookup_of_contains, arith,
}
use google_workspace_gmail_a.Comparison.{ids_only_in, gather, ids_changed, differ}
use google_workspace_gmail_a.Comparison.Laws.{ids_only_in-All, ids_changed-All, contains_of_lookup}
use google_workspace_gmail_a.Comparison.Agreement.{IsSilent-agrees, agrees-IsSilent}
use google_workspace_gmail_a.Schemas.State.{BlockedSenderState, has_mutations}
use google_workspace_gmail_a.Schemas.Resources.{ManagedBlockedSenderRule, ManagedAddressList}
use google_workspace_gmail_a.Schemas.Equality.{
  ManagedAddressList-discrete, ManagedBlockedSenderRule-discrete,
}
use google_workspace_gmail_a.Diff.{Partition, partition, calculate_change_set}

-- None of the three tuples has an item.
abbrev IsStill {ℓ} : {R : Type ℓ} → Partition R → Type ℓ
IsStill p = (p.created ≡ []) × (p.updated ≡ []) × (p.removed ≡ [])

module _ {ℓ} {R : Type ℓ} where
  nil_of_is_empty : (xs : List R) → not (is_empty xs) ≡ false → xs ≡ []
  nil_of_is_empty [] h = refl
  nil_of_is_empty (x ∷ xs) h = cc

  gather-cons :
      (d : Dict R) (k : ℕ) (ks : List ℕ) (v : R) → lookup k d ≡ some v → gather d (k ∷ ks) ≡ [] → ⊥
  gather-cons d k ks v e h = let shown = sym (cons_of d k ks v e) ∙ h in cc
    where
      cons_of :
          (d : Dict R) (k : ℕ) (ks : List ℕ) (v : R)
          → lookup k d ≡ some v
          → gather d (k ∷ ks) ≡ v ∷ gather d ks
      cons_of d k ks v e = rw (gather, e)

  gather-nil :
      (d : Dict R) (ks : List ℕ) → All (λ k. contains k d ≡ true) ks → gather d ks ≡ [] → ks ≡ []
  gather-nil d [] a h = refl
  gather-nil d (k ∷ ks) a h =
      let (v, e) = lookup_of_contains k d a.0 in absurd (gather-cons d k ks v e h)

  module _ (equal : Discrete R) where
    contains_of_differ :
        (a b : Dict R) (k : ℕ) → differ equal (lookup k a) (lookup k b) ≡ true → contains k b ≡ true
    contains_of_differ a b k h = elim (Option-cases (lookup k b)) [
      | inl p ↦ absurd (never (lookup k a) (ap (differ equal (lookup k a)) (sym p) ∙ h))
      | inr (w, p) ↦ contains_of_lookup k w b p
    ]
      where
        never : (x : Option R) → differ equal x none ≡ true → ⊥
        never none e = cc
        never (some v) e = cc

    module _ (identity : R → ℕ) (current desired : List R) where
      abbrev c : Dict R
      c = index_by identity current

      abbrev w : Dict R
      w = index_by identity desired

      IsStill-agrees :
          IsStill (partition equal identity current desired) → (k : ℕ) → lookup k c ≡ lookup k w
      unfolding partition
      IsStill-agrees (created, updated, removed) = IsSilent-agrees equal c w (record {
        left =
            gather-nil c (ids_only_in c w)
              (All-map_imp _ _ (ids_only_in c w) (λ k p. p.0) (ids_only_in-All c w)) removed;
        right =
            gather-nil w (ids_only_in w c)
              (All-map_imp _ _ (ids_only_in w c) (λ k p. p.0) (ids_only_in-All w c)) created;
        changed =
            gather-nil w (ids_changed equal c w)
              (All-map_imp _ _ (ids_changed equal c w) (contains_of_differ c w)
                (ids_changed-All equal c w))
              updated;
      })

      agrees-IsStill :
          ((k : ℕ) → lookup k c ≡ lookup k w) → IsStill (partition equal identity current desired)
      unfolding partition
      agrees-IsStill h =
          let silent = agrees-IsSilent equal c w h in
          (ap (gather w) silent.right, ap (gather w) silent.changed, ap (gather c) silent.left)

abbrev rule_of_id : BlockedSenderState → ℕ → Option ManagedBlockedSenderRule
rule_of_id s k = lookup k (index_by (λ r. r.ownership_id) s.rules)

abbrev list_of_id : BlockedSenderState → ℕ → Option ManagedAddressList
list_of_id s k = lookup k (index_by (λ l. l.ownership_id) s.address_lists)

-- Two states hold the same rule and the same address list, or none, under every id.
pub record IsSameContent (s t : BlockedSenderState) : Type 0 where
  pub rules : (k : ℕ) → rule_of_id s k ≡ rule_of_id t k
  pub lists : (k : ℕ) → list_of_id s k ≡ list_of_id t k

abbrev rules_of : BlockedSenderState → BlockedSenderState → Partition ManagedBlockedSenderRule
rules_of current desired =
    partition ManagedBlockedSenderRule-discrete (λ r. r.ownership_id) current.rules desired.rules

abbrev lists_of : BlockedSenderState → BlockedSenderState → Partition ManagedAddressList
lists_of current desired =
    partition ManagedAddressList-discrete (λ l. l.ownership_id) current.address_lists
      desired.address_lists

six_false :
    (p q r s t u : Bool)
    → any (λ x. x) (p ∷ q ∷ r ∷ s ∷ t ∷ u ∷ []) ≡ false
    → (p ≡ false) × (q ≡ false) × (r ≡ false) × (s ≡ false) × (t ≡ false) × (u ≡ false)
six_false p q r s t u h = ground arith

-- The change set between two states has no mutation exactly when they hold the same rule and
-- the same address list, or none, under every ownership id.
pub has_mutations-calculate_change_set :
    (current desired : BlockedSenderState)
    → (has_mutations (calculate_change_set current desired) ≡ false) ↔ IsSameContent current desired
unfolding has_mutations calculate_change_set
has_mutations-calculate_change_set current desired = (same, still)
  where
    same :
        has_mutations (calculate_change_set current desired) ≡ false → IsSameContent current desired
    same h =
        let (rc, ru, rr, lc, lu, lr) = six_false _ _ _ _ _ _ h in
        record {
          rules =
              IsStill-agrees ManagedBlockedSenderRule-discrete (λ r. r.ownership_id) current.rules
                desired.rules
                (
                  nil_of_is_empty (rules_of current desired).created rc,
                  nil_of_is_empty (rules_of current desired).updated ru,
                  nil_of_is_empty (rules_of current desired).removed rr,
                );
          lists =
              IsStill-agrees ManagedAddressList-discrete (λ l. l.ownership_id) current.address_lists
                desired.address_lists
                (
                  nil_of_is_empty (lists_of current desired).created lc,
                  nil_of_is_empty (lists_of current desired).updated lu,
                  nil_of_is_empty (lists_of current desired).removed lr,
                );
        }

    still :
        IsSameContent current desired → has_mutations (calculate_change_set current desired) ≡ false
    still h =
        let (rc, ru, rr) =
          agrees-IsStill ManagedBlockedSenderRule-discrete (λ r. r.ownership_id) current.rules
            desired.rules h.rules in
        let (lc, lu, lr) =
          agrees-IsStill ManagedAddressList-discrete (λ l. l.ownership_id) current.address_lists
            desired.address_lists h.lists in
        rw (rc, ru, rr, lc, lu, lr)
