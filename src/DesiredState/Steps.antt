-- ===== src/DesiredState/Steps.antt =====
-- What the actions may do to a dictionary of managed resources, as a step relation: an
-- independent description against which domain/desired_state.py is checked.
use google_workspace_gmail_a.Common.{
  ℕ, none, some, [], ◌∷◌, ◌==◌, ◌≡◌, refl, inl, inr, arith, Dict, lookup, insert, erase, IsDict,
  IsKeyed, All, lookup-insert, lookup-erase_ne, insert-IsKeyed, erase-IsKeyed, insert-IsDict,
  erase-IsDict, Bool-cases, values, All-map_imp,
}

module _ {V : Type 0} (identity : V → ℕ) (Owned : V → Type 0) (May : ℕ → Dict V → Type 0) where
  -- `May id d` says when a resource may be created under `id`.
  pub data Step : Dict V → Dict V → Type 0 where
    create : {d : Dict V} (v : V) → May (identity v) d → Step d (insert (identity v) v d)
    edit :
        {d : Dict V} (old new : V)
        → lookup (identity old) d ≡ some old
        → Owned old
        → identity new ≡ identity old
        → Step d (insert (identity old) new d)
    remove :
        {d : Dict V} (old : V)
        → lookup (identity old) d ≡ some old
        → Owned old
        → Step d (erase (identity old) d)

  pub data Reach : Dict V → Dict V → Type 0 where
    here : {d : Dict V} → Reach d d
    next : {d e f : Dict V} → Step d e → Reach e f → Reach d f

  pub Reach-trans : {d e f : Dict V} → Reach d e → Reach e f → Reach d f
  Reach-trans here r = r
  Reach-trans (next s q) r = next s (Reach-trans q r)

  pub once : {d e : Dict V} → Step d e → Reach d e
  once s = next s here

  -- A working dictionary holds each key once, and each value under its own identity.
  pub record IsValid (d : Dict V) : Type 0 where
    pub dict : IsDict d
    pub keyed : IsKeyed identity d

  pub Step-IsValid : {d e : Dict V} → Step d e → IsValid d → IsValid e
  Step-IsValid (create {d} v m) h = record {
    dict = insert-IsDict (identity v) v d h.dict;
    keyed = insert-IsKeyed identity (identity v) v d refl h.keyed;
  }
  Step-IsValid (edit {d} old new found o e) h = record {
    dict = insert-IsDict (identity old) new d h.dict;
    keyed = insert-IsKeyed identity (identity old) new d e h.keyed;
  }
  Step-IsValid (remove {d} old found o) h = record {
    dict = erase-IsDict (identity old) d h.dict;
    keyed = erase-IsKeyed identity (identity old) d h.keyed;
  }

  pub Reach-IsValid : {d e : Dict V} → Reach d e → IsValid d → IsValid e
  Reach-IsValid here h = h
  Reach-IsValid (next s r) h = Reach-IsValid r (Step-IsValid s h)

  module _ (k : ℕ) (v : V) (unowned : Owned v → ⊥) where
    -- Under `k` nothing may be created as long as `v` is there.
    abbrev pub IsTaken : Type 0
    IsTaken = (d : Dict V) → lookup k d ≡ some v → May k d → ⊥

    edited :
        (d : Dict V) (old new : V)
        → lookup k d ≡ some v
        → lookup (identity old) d ≡ some old
        → Owned old
        → lookup k (insert (identity old) new d) ≡ some v
    edited d old new at found o = elim (Bool-cases (identity old == k)) [
      | inl e ↦ absurd (unowned (subst_owned old (ground arith) o))
      | inr e ↦ rw (lookup-insert k (identity old) new d, e) at
    ]
      where
        subst_owned : (u : V) → u ≡ v → Owned u → Owned v
        subst_owned u p q = rw p at q

    pub Step-kept : {d e : Dict V} → IsTaken → Step d e → lookup k d ≡ some v → lookup k e ≡ some v
    Step-kept taken (create {d} u m) at = elim (Bool-cases (identity u == k)) [
      | inl e ↦ absurd (taken d at (moved (identity u) (ground arith) m))
      | inr e ↦ rw (lookup-insert k (identity u) u d, e) at
    ]
      where
        moved : (j : ℕ) → j ≡ k → May j d → May k d
        moved j p q = rw p at q
    Step-kept taken (edit {d} old new found o e) at = edited d old new at found o
    Step-kept taken (remove {d} old found o) at = elim (Bool-cases (identity old == k)) [
      | inl e ↦ absurd (unowned (owner old (ground arith) o))
      | inr e ↦ rw (lookup-erase_ne k (identity old) d (ground arith)) at
    ]
      where
        owner : (u : V) → u ≡ v → Owned u → Owned v
        owner u p q = rw p at q

    pub Reach-kept :
        {d e : Dict V} → IsTaken → Reach d e → lookup k d ≡ some v → lookup k e ≡ some v
    Reach-kept taken here at = at
    Reach-kept taken (next s r) at = Reach-kept taken r (Step-kept taken s at)

-- In a valid dictionary every value is found under its identity.
module _ {V : Type 0} (identity : V → ℕ) where
  found_behind :
      (j : ℕ) (w : V) (d : Dict V)
      → lookup j d ≡ none
      → (v : V) → lookup (identity v) d ≡ some v
      → lookup (identity v) ((j, w) ∷ d) ≡ some v
  found_behind j w d absent v at = elim (Bool-cases (j == identity v)) [
    | inl e ↦ absurd (clash (identity v) (ground arith) at)
    | inr e ↦ rw e at
  ]
    where
      clash : (i : ℕ) → j ≡ i → lookup i d ≡ some v → ⊥
      clash i p q = let r : lookup j d ≡ some v = rw p q in cc

  pub values-lookup :
      (d : Dict V)
      → IsDict d
      → IsKeyed identity d
      → All (λ v. lookup (identity v) d ≡ some v) (values d)
  values-lookup [] h k = tt
  values-lookup ((j, w) ∷ d) h k = (
    ground arith,
    All-map_imp (λ v. lookup (identity v) d ≡ some v) _ (values d) (found_behind j w d h.0)
        (values-lookup d h.1 k.1),
  )
