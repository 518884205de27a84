-- ===== src/Diff/Patch.antt =====
-- What a writer that follows the partition of domain/diff.py does with a dictionary.
use mathlib.Core.List.{Memᴰ}
use google_workspace_gmail_a.Common.{
  ℕ, none, some, List, [], ◌∷◌, ◌≡◌, ◌≢◌, refl, sym, ap, ◌∙◌, subst, Dict, lookup, insert, erase,
  IsDict, IsKeyed, lookup-insert, lookup-insert_self, lookup-erase, All, Option-cases, Bool-cases,
  inl, inr, ◌==◌, erase-IsDict, lookup-erase_self, lookup-erase_ne, arith,
}
use google_workspace_gmail_a.Comparison.{gather}
use google_workspace_gmail_a.Diff.{Partition}

module _ {ℓ} {R : Type ℓ} (identity : R → ℕ) where
  -- Write each of the resources under its id.
  abbrev pub insert_all : List R → Dict R → Dict R
  insert_all [] d = d
  insert_all (v ∷ vs) d = insert_all vs (insert (identity v) v d)

  -- Delete each of the resources.
  abbrev pub erase_all : List R → Dict R → Dict R
  erase_all [] d = d
  erase_all (v ∷ vs) d = erase_all vs (erase (identity v) d)

  -- What a writer does with a partition.
  abbrev pub patch : Partition R → Dict R → Dict R
  patch p d = insert_all p.created (insert_all p.updated (erase_all p.removed d))

  module _ (wanted : Dict R) (k : ℕ) where
    -- Every resource is the wanted one of its id.
    abbrev pub AreWanted : List R → Type ℓ
    AreWanted vs = All (λ v. lookup (identity v) wanted ≡ some v) vs

    insert-wanted :
        (v : R) (d : Dict R)
        → lookup (identity v) wanted ≡ some v
        → lookup k d ≡ lookup k wanted
        → lookup k (insert (identity v) v d) ≡ lookup k wanted
    insert-wanted v d at h = elim (Bool-cases (identity v == k)) [
      | inl e ↦
          lookup-insert k (identity v) v d
          ∙ rw e (sym at ∙ ap (λ i. lookup i wanted) (ground arith))
      | inr e ↦ lookup-insert k (identity v) v d ∙ rw e h
    ]

    -- Where the id is settled, wanted writes leave it so.
    pub insert_all-agrees :
        (vs : List R) (d : Dict R)
        → AreWanted vs
        → lookup k d ≡ lookup k wanted
        → lookup k (insert_all vs d) ≡ lookup k wanted
    insert_all-agrees [] d a h = h
    insert_all-agrees (v ∷ vs) d a h =
        insert_all-agrees vs (insert (identity v) v d) a.1 (insert-wanted v d a.0 h)

    -- A wanted write settles its id.
    pub insert_all-settles :
        (v : R) (vs : List R) (d : Dict R)
        → AreWanted vs
        → identity v ≡ k
        → Memᴰ v vs
        → lookup k (insert_all vs d) ≡ lookup k wanted
    insert_all-settles v [] d a e m = elim m [ ]
    insert_all-settles v (w ∷ vs) d a e (Memᴰ.head same) =
        insert_all-agrees vs (insert (identity w) w d) a.1
          (settled (identity w) (ap identity (sym same) ∙ e) a.0)
      where
        settled :
            (i : ℕ) → i ≡ k → lookup i wanted ≡ some w → lookup k (insert i w d) ≡ lookup k wanted
        settled i p at =
            ap (λ j. lookup j (insert i w d)) (sym p)
            ∙ lookup-insert_self i w d
            ∙ sym at
            ∙ ap (λ j. lookup j wanted) p
    insert_all-settles v (w ∷ vs) d a e (Memᴰ.tail m) =
        insert_all-settles v vs (insert (identity w) w d) a.1 e m

  erase-none : (k j : ℕ) (d : Dict R) → IsDict d → lookup k d ≡ none → lookup k (erase j d) ≡ none
  erase-none k j d h e = elim (Bool-cases (j == k)) [
    | inl p ↦ lookup-erase k j d h ∙ rw p
    | inr p ↦ lookup-erase k j d h ∙ rw p e
  ]

  pub erase_all-none :
      (k : ℕ) (vs : List R) (d : Dict R)
      → IsDict d
      → lookup k d ≡ none
      → lookup k (erase_all vs d) ≡ none
  erase_all-none k [] d h e = e
  erase_all-none k (v ∷ vs) d h e =
      erase_all-none k vs (erase (identity v) d) (erase-IsDict (identity v) d h)
        (erase-none k (identity v) d h e)

  pub erase_all-settles :
      (v : R) (vs : List R) (d : Dict R)
      → IsDict d
      → Memᴰ v vs
      → lookup (identity v) (erase_all vs d) ≡ none
  erase_all-settles v [] d h m = elim m [ ]
  erase_all-settles v (w ∷ vs) d h (Memᴰ.head e) =
      erase_all-none (identity v) vs (erase (identity w) d) (erase-IsDict (identity w) d h)
        (rw e (lookup-erase_self (identity w) d h))
  erase_all-settles v (w ∷ vs) d h (Memᴰ.tail m) =
      erase_all-settles v vs (erase (identity w) d) (erase-IsDict (identity w) d h) m

  pub erase_all-keeps :
      (k : ℕ) (vs : List R) (d : Dict R)
      → All (λ v. k ≢ identity v) vs
      → lookup k (erase_all vs d) ≡ lookup k d
  erase_all-keeps k [] d h = refl
  erase_all-keeps k (v ∷ vs) d h =
      erase_all-keeps k vs (erase (identity v) d) h.1 ∙ lookup-erase_ne k (identity v) d h.0

  gather-none :
      (d : Dict R) (j : ℕ) (ks : List ℕ) → lookup j d ≡ none → gather d (j ∷ ks) ≡ gather d ks
  gather-none d j ks e = rw (gather, e)

  gather-some :
      (d : Dict R) (j : ℕ) (ks : List ℕ) (v : R)
      → lookup j d ≡ some v
      → gather d (j ∷ ks) ≡ v ∷ gather d ks
  gather-some d j ks v e = rw (gather, e)

  pub gather-Memᴰ :
      (k : ℕ) (v : R) (d : Dict R) (ks : List ℕ)
      → Memᴰ k ks
      → lookup k d ≡ some v
      → Memᴰ v (gather d ks)
  gather-Memᴰ k v d [] m e = elim m [ ]
  gather-Memᴰ k v d (j ∷ ks) (Memᴰ.head p) e =
      subst (Memᴰ v) (sym (gather-some d j ks v (ap (λ i. lookup i d) (sym p) ∙ e)))
        (Memᴰ.head refl)
  gather-Memᴰ k v d (j ∷ ks) (Memᴰ.tail m) e = elim (Option-cases (lookup j d)) [
    | inl p ↦ subst (Memᴰ v) (sym (gather-none d j ks p)) (gather-Memᴰ k v d ks m e)
    | inr (w, p) ↦
        subst (Memᴰ v) (sym (gather-some d j ks w p)) (Memᴰ.tail (gather-Memᴰ k v d ks m e))
  ]

  pub gather-All {κ} :
      (P : R → Type κ) (d : Dict R) (ks : List ℕ)
      → IsKeyed identity d
      → All (λ k. (v : R) → lookup k d ≡ some v → P v) ks
      → All P (gather d ks)
  gather-All P d [] h a = tt
  gather-All P d (j ∷ ks) h a = elim (Option-cases (lookup j d)) [
    | inl p ↦ subst (All P) (sym (gather-none d j ks p)) (gather-All P d ks h a.1)
    | inr (w, p) ↦ subst (All P) (sym (gather-some d j ks w p)) (a.0 w p, gather-All P d ks h a.1)
  ]
