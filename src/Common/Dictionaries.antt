-- ===== src/Common/Dictionaries.antt =====
-- A Python dict keyed by numbers (the UUIDs of managed resources), in insertion order.
use Prim.Native.Nat.{ℕ}
use mathlib.Core.Path.{◌≡◌, refl, ◌∙◌, ap, sym}
use mathlib.Core.Logic.{◌≢◌, inl, inr}
use mathlib.Core.Bool.{Bool, true, false, ◌||◌}
use mathlib.Core.Option.{Option, none, some}
use mathlib.Core.List.{List, [], ◌∷◌}
use native.Mathlib.Omega.{arith}
use google_workspace_gmail_a.Common.Tests.{◌==◌, if◌then◌else◌, Bool-cases}
use google_workspace_gmail_a.Common.Lists.{All}

abbrev pub Dict {ℓ} : Type ℓ → Type ℓ
Dict V = List (ℕ × V)

module _ {ℓ} {V : Type ℓ} where
  -- `d.keys()`
  abbrev pub keys : Dict V → List ℕ
  keys [] = []
  keys ((j, v) ∷ d) = j ∷ keys d

  -- `d.values()`
  abbrev pub values : Dict V → List V
  values [] = []
  values ((j, v) ∷ d) = v ∷ values d

  -- `k in d`
  abbrev pub contains : ℕ → Dict V → Bool
  contains k [] = false
  contains k ((j, v) ∷ d) = j == k || contains k d

  -- `del d[k]` of a key that is there
  abbrev pub erase : ℕ → Dict V → Dict V
  erase k [] = []
  erase k ((j, w) ∷ d) = if j == k then d else (j, w) ∷ erase k d

  -- `d.get(k)`
  abbrev pub lookup : ℕ → Dict V → Option V
  lookup k [] = none
  lookup k ((j, v) ∷ d) = if j == k then some v else lookup k d

  -- `d[k] = v`: in place, or at the end
  abbrev pub insert : ℕ → V → Dict V → Dict V
  insert k v [] = (k, v) ∷ []
  insert k v ((j, w) ∷ d) = if j == k then (j, v) ∷ d else (j, w) ∷ insert k v d

  -- Keys occur once.
  abbrev pub IsDict : Dict V → Type ℓ
  IsDict [] = Unit
  IsDict ((j, v) ∷ d) = (lookup j d ≡ none) × IsDict d

  pub lookup-insert :
      (j k : ℕ) (v : V) (d : Dict V)
      → lookup j (insert k v d) ≡ (if k == j then some v else lookup j d)
  lookup-insert j k v [] = refl
  lookup-insert j k v ((i, w) ∷ d) = ground (arith, lookup-insert j k v d)

  pub lookup-insert_self : (k : ℕ) (v : V) (d : Dict V) → lookup k (insert k v d) ≡ some v
  lookup-insert_self k v d =
      let same : (k == k) ≡ true = ground arith in lookup-insert k k v d ∙ rw same

  pub lookup-insert_ne :
      (other k : ℕ) (v : V) (d : Dict V) → other ≢ k → lookup other (insert k v d) ≡ lookup other d
  lookup-insert_ne j k v d h =
      let other : (k == j) ≡ false = ground arith in lookup-insert j k v d ∙ rw other

  pub lookup-erase_ne : (j k : ℕ) (d : Dict V) → j ≢ k → lookup j (erase k d) ≡ lookup j d
  lookup-erase_ne j k [] h = refl
  lookup-erase_ne j k ((i, w) ∷ d) h = ground (arith, lookup-erase_ne j k d h)

  pub lookup-erase_self : (k : ℕ) (d : Dict V) → IsDict d → lookup k (erase k d) ≡ none
  lookup-erase_self k [] h = refl
  lookup-erase_self k ((i, w) ∷ d) h = ground (arith, lookup-erase_self k d h.1)

  pub insert-IsDict : (k : ℕ) (v : V) (d : Dict V) → IsDict d → IsDict (insert k v d)
  insert-IsDict k v [] h = (refl, tt)
  insert-IsDict k v ((i, w) ∷ d) h = ground (arith, insert-IsDict k v d h.1, lookup-insert i k v d)

  pub erase-IsDict : (k : ℕ) (d : Dict V) → IsDict d → IsDict (erase k d)
  erase-IsDict k [] h = tt
  erase-IsDict k ((i, w) ∷ d) h = elim (Bool-cases (i == k)) [
    | inl e ↦ rw e h.1
    | inr e ↦ rw e (lookup-erase_ne i k d (ground arith) ∙ h.0, erase-IsDict k d h.1)
  ]

module _ {ℓ} {V : Type ℓ} where
  pub lookup_of_contains :
      (k : ℕ) (d : Dict V) → contains k d ≡ true → (v : V) × (lookup k d ≡ some v)
  lookup_of_contains k [] h = cc
  lookup_of_contains k ((j, w) ∷ d) h = elim (Bool-cases (j == k)) [
    | inl e ↦ (w, rw e)
    | inr e ↦ rw e (lookup_of_contains k d (rw e at h))
  ]

  pub lookup_of_not_contains : (k : ℕ) (d : Dict V) → contains k d ≡ false → lookup k d ≡ none
  lookup_of_not_contains k [] h = refl
  lookup_of_not_contains k ((j, w) ∷ d) h = ground (arith, lookup_of_not_contains k d)

  pub lookup-erase :
      (j k : ℕ) (d : Dict V)
      → IsDict d
      → lookup j (erase k d) ≡ (if k == j then none else lookup j d)
  lookup-erase j k [] h = ground arith
  lookup-erase j k ((i, w) ∷ d) h = elim (Bool-cases (i == k)) [
    | inl e ↦ elim (Bool-cases (k == j)) [
      | inl f ↦ let same : i ≡ j = ground arith in rw (e, f) (rw same at h.0)
      | inr f ↦ rw (e, f) (sym (skip e f))
    ]
    | inr e ↦ ground (arith, lookup-erase j k d h.1)
  ]
    where
      skip :
          (i == k) ≡ true → (k == j) ≡ false → (if i == j then some w else lookup j d) ≡ lookup j d
      skip e f = let other : (i == j) ≡ false = ground arith in rw other

-- `{identity(item): item for item in items}`: a later item replaces an earlier one in place.
module _ {ℓ} {V : Type ℓ} (identity : V → ℕ) where
  abbrev pub index_onto : Dict V → List V → Dict V
  index_onto d [] = d
  index_onto d (x ∷ xs) = index_onto (insert (identity x) x d) xs

  abbrev pub index_by : List V → Dict V
  index_by xs = index_onto [] xs

  -- Every value stands under its own identity.
  abbrev pub IsKeyed : Dict V → Type 0
  IsKeyed d = All (λ e. e.0 ≡ identity e.1) d

  pub lookup-IsKeyed :
      (k : ℕ) (v : V) (d : Dict V) → IsKeyed d → lookup k d ≡ some v → identity v ≡ k
  lookup-IsKeyed k v [] h e = cc
  lookup-IsKeyed k v ((j, w) ∷ d) h e = elim (Bool-cases (j == k)) [
    | inl p ↦
        let here : some w ≡ some v = rw p at e in
        let same : w ≡ v = cc in
        let key : j ≡ k = ground arith in ap identity (sym same) ∙ sym h.0 ∙ key
    | inr p ↦ lookup-IsKeyed k v d h.1 (rw p at e)
  ]

  -- A key that is found is in the dictionary.
  pub lookup_self :
      (k : ℕ) (v : V) (d : Dict V)
      → IsKeyed d
      → lookup k d ≡ some v
      → lookup (identity v) d ≡ some v
  lookup_self k v d h e = rw (lookup-IsKeyed k v d h e) e

  pub insert-IsKeyed :
      (id : ℕ) (v : V) (d : Dict V) → identity v ≡ id → IsKeyed d → IsKeyed (insert id v d)
  insert-IsKeyed id v [] e h = (sym e, tt)
  insert-IsKeyed id v ((j, w) ∷ d) e h = ground (arith, insert-IsKeyed id v d e h.1)

  pub erase-IsKeyed : (id : ℕ) (d : Dict V) → IsKeyed d → IsKeyed (erase id d)
  erase-IsKeyed id [] h = tt
  erase-IsKeyed id ((j, w) ∷ d) h = ground (arith, erase-IsKeyed id d h.1)

  pub index_onto-IsDict : (d : Dict V) (xs : List V) → IsDict d → IsDict (index_onto d xs)
  index_onto-IsDict d [] h = h
  index_onto-IsDict d (x ∷ xs) h =
      index_onto-IsDict (insert (identity x) x d) xs (insert-IsDict (identity x) x d h)

  pub index_onto-IsKeyed : (d : Dict V) (xs : List V) → IsKeyed d → IsKeyed (index_onto d xs)
  index_onto-IsKeyed d [] h = h
  index_onto-IsKeyed d (x ∷ xs) h =
      index_onto-IsKeyed (insert (identity x) x d) xs (insert-IsKeyed (identity x) x d refl h)
