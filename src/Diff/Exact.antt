-- ===== src/Diff/Exact.antt =====
-- domain/diff.py: the effect of a partition on the current resources.
use mathlib.Core.List.{Memᴰ}
use google_workspace_gmail_a.Common.{
  ℕ, true, false, none, some, List, [], ◌≡◌, ◌≢◌, sym, ap, ◌∙◌, Dict, contains, lookup, IsDict,
  IsKeyed, lookup-IsKeyed, All, All-map_imp, Option-cases, inl, inr, index_by, index_onto-IsDict,
  index_onto-IsKeyed, All-self, lookup_of_not_contains, lookup_self,
}
use google_workspace_gmail_a.Comparison.{ids_only_in, gather, ids_changed}
use google_workspace_gmail_a.Comparison.Laws.{
  contains_of_lookup, not_contains_of_lookup, Memᴰ-ids_only_in, ids_only_in-All, Memᴰ-ids_changed,
}
use google_workspace_gmail_a.Diff.{partition}
use google_workspace_gmail_a.Diff.Patch.{
  insert_all, erase_all, patch, AreWanted, insert_all-agrees, insert_all-settles, gather-Memᴰ,
  gather-All, erase_all-none, erase_all-settles, erase_all-keeps,
}

module _ {ℓ} {R : Type ℓ} (equal : Discrete R) (identity : R → ℕ) where
  index_by-IsDict : (xs : List R) → IsDict (index_by identity xs)
  index_by-IsDict xs = index_onto-IsDict identity [] xs tt

  index_by-IsKeyed : (xs : List R) → IsKeyed identity (index_by identity xs)
  index_by-IsKeyed xs = index_onto-IsKeyed identity [] xs tt

  gather-AreWanted :
      (d : Dict R) (k : ℕ) (ks : List ℕ) → IsKeyed identity d → AreWanted identity d k (gather d ks)
  gather-AreWanted d k ks h =
      gather-All identity (λ v. lookup (identity v) d ≡ some v) d ks h
        (All-map_imp (λ j. Memᴰ j ks) _ ks (λ j m v e. lookup_self identity j v d h e)
          (All-self ks))

  module _ (c w : Dict R) (k : ℕ) (cd : IsDict c) (ck : IsKeyed identity c)
      (wk : IsKeyed identity w) where
    abbrev Settled : Type ℓ
    Settled =
        lookup k (
          insert_all identity (gather w (ids_only_in w c)) (
            insert_all identity (gather w (ids_changed equal c w))
              (erase_all identity (gather c (ids_only_in c w)) c)))
        ≡ lookup k w

    -- When the deletions settle the id, the writes leave it so.
    by_deletion :
        lookup k (erase_all identity (gather c (ids_only_in c w)) c) ≡ lookup k w → Settled
    by_deletion h =
        insert_all-agrees identity w k (gather w (ids_only_in w c)) _
          (gather-AreWanted w k (ids_only_in w c) wk)
          (insert_all-agrees identity w k (gather w (ids_changed equal c w)) _
            (gather-AreWanted w k (ids_changed equal c w) wk) h)

    absent : lookup k w ≡ none → Settled
    absent q = elim (Option-cases (lookup k c)) [
      | inl p ↦ by_deletion (erase_all-none identity k (gather c (ids_only_in c w)) c cd p ∙ sym q)
      | inr (v, p) ↦ by_deletion (
          ap (λ i. lookup i (erase_all identity (gather c (ids_only_in c w)) c))
            (sym (lookup-IsKeyed identity k v c ck p))
          ∙ erase_all-settles identity v (gather c (ids_only_in c w)) c cd (
              gather-Memᴰ identity k v c (ids_only_in c w)
                (Memᴰ-ids_only_in k c w (contains_of_lookup k v c p) (not_contains_of_lookup k w q))
                p)
          ∙ sym q)
    ]

    -- What is wanted is not deleted.
    deletions_other :
        (u : R) → lookup k w ≡ some u → All (λ v. k ≢ identity v) (gather c (ids_only_in c w))
    deletions_other u q =
        gather-All identity (λ v. k ≢ identity v) c (ids_only_in c w) ck
          (All-map_imp _ _ (ids_only_in c w) differs (ids_only_in-All c w))
      where
        differs :
            (j : ℕ)
            → (contains j c ≡ true) × (contains j w ≡ false)
            → (v : R) → lookup j c ≡ some v
            → k ≢ identity v
        differs j (h, g) v e same =
            let at = lookup_of_not_contains j w g in
            let key = lookup-IsKeyed identity j v c ck e in
            let clash = sym q ∙ ap (λ i. lookup i w) (same ∙ key) ∙ at in cc

    present : (u : R) → lookup k w ≡ some u → Settled
    present u q = elim (Option-cases (lookup k c)) [
      | inl p ↦
          insert_all-settles identity w k u (gather w (ids_only_in w c)) _
            (gather-AreWanted w k (ids_only_in w c) wk) (lookup-IsKeyed identity k u w wk q)
            (gather-Memᴰ identity k u w (ids_only_in w c)
              (Memᴰ-ids_only_in k w c (contains_of_lookup k u w q) (not_contains_of_lookup k c p))
              q)
      | inr (v, p) ↦ elim (equal v u) [
        | yes e ↦ by_deletion (
            erase_all-keeps identity k (gather c (ids_only_in c w)) c (deletions_other u q)
            ∙ p
            ∙ ap some e
            ∙ sym q)
        | no ne ↦
            insert_all-agrees identity w k (gather w (ids_only_in w c)) _
              (gather-AreWanted w k (ids_only_in w c) wk)
              (insert_all-settles identity w k u (gather w (ids_changed equal c w)) _
                (gather-AreWanted w k (ids_changed equal c w) wk)
                (lookup-IsKeyed identity k u w wk q)
                (gather-Memᴰ identity k u w (ids_changed equal c w)
                  (Memᴰ-ids_changed equal k v u c w p q ne) q))
      ]
    ]

    settled : Settled
    settled = elim (Option-cases (lookup k w)) [ inl q ↦ absent q | inr (u, q) ↦ present u q ]

  -- Deleting the removed resources of `_partition` from the current ones, then writing the
  -- updated and the created ones, gives exactly the desired resource, or none, for every id.
  pub patch-partition :
      (current desired : List R) (k : ℕ)
      → lookup k
          (patch identity (partition equal identity current desired) (index_by identity current))
        ≡ lookup k (index_by identity desired)
  unfolding partition
  patch-partition current desired k =
      settled (index_by identity current) (index_by identity desired) k (index_by-IsDict current)
        (index_by-IsKeyed current) (index_by-IsKeyed desired)
