-- ===== src/Common/Membership.antt =====
-- Membership in sorted lists, in the values of a dictionary, and in an index of a list.
use Prim.Native.Nat.{ℕ}
use mathlib.Core.Path.{◌≡◌, refl, sym, ◌∙◌}
use mathlib.Core.Logic.{◌⊎◌, inl, inr}
use mathlib.Core.Bool.{Bool, true, false, ◌||◌}
use mathlib.Core.Option.{Option, none, some}
use mathlib.Core.List.{List, [], ◌∷◌, map, Memᴰ}
use native.Mathlib.Omega.{arith}
use google_workspace_gmail_a.Common.Tests.{◌==◌, if◌then◌else◌, Bool-cases, if_cases}
use google_workspace_gmail_a.Common.Lists.{All, All-map_imp, select}
use google_workspace_gmail_a.Common.Duplicates.{mem_by, DistinctBy}
use google_workspace_gmail_a.Common.Sorting.{insert_by, sort_by, All-sort_by}
use google_workspace_gmail_a.Common.Dictionaries.{
  Dict, lookup, insert, values, index_onto, index_by, lookup-insert,
}

pub All-Memᴰ {ℓ κ} :
    {A : Type ℓ} (P : A → Type κ) {x : A} (xs : List A) → All P xs → Memᴰ x xs → P x
All-Memᴰ P [] h m = elim m [ ]
All-Memᴰ P (y ∷ xs) h (Memᴰ.head e) = rw e (h.0)
All-Memᴰ P (y ∷ xs) h (Memᴰ.tail m) = All-Memᴰ P xs h.1 m

module _ {ℓ} {A : Type ℓ} (le : A → A → Bool) where
  Memᴰ-insert_by_self : (x : A) (ys : List A) → Memᴰ x (insert_by le x ys)
  Memᴰ-insert_by_self x [] = Memᴰ.head refl
  Memᴰ-insert_by_self x (y ∷ ys) = elim (Bool-cases (le x y)) [
    | inl e ↦ rw e (Memᴰ.head refl)
    | inr e ↦ rw e (Memᴰ.tail (Memᴰ-insert_by_self x ys))
  ]

  deeper : (z y : A) (xs ys : List A) → (Memᴰ z xs → Memᴰ z ys) → Memᴰ z (y ∷ xs) → Memᴰ z (y ∷ ys)
  deeper z y xs ys f (Memᴰ.head e) = Memᴰ.head e
  deeper z y xs ys f (Memᴰ.tail m) = Memᴰ.tail (f m)

  Memᴰ-insert_by : (z x : A) (ys : List A) → Memᴰ z ys → Memᴰ z (insert_by le x ys)
  Memᴰ-insert_by z x [] m = elim m [ ]
  Memᴰ-insert_by z x (y ∷ ys) m = elim (Bool-cases (le x y)) [
    | inl e ↦ rw e (Memᴰ.tail m)
    | inr e ↦ rw e (deeper z y ys (insert_by le x ys) (Memᴰ-insert_by z x ys) m)
  ]

  -- Sorting keeps every item.
  pub Memᴰ-sort_by : (z : A) (xs : List A) → Memᴰ z xs → Memᴰ z (sort_by le xs)
  Memᴰ-sort_by z [] m = elim m [ ]
  Memᴰ-sort_by z (x ∷ xs) (Memᴰ.head e) = rw e (Memᴰ-insert_by_self x (sort_by le xs))
  Memᴰ-sort_by z (x ∷ xs) (Memᴰ.tail m) = Memᴰ-insert_by z x (sort_by le xs) (Memᴰ-sort_by z xs m)

pub All-self {ℓ} : {A : Type ℓ} (xs : List A) → All (λ z. Memᴰ z xs) xs
All-self [] = tt
All-self (x ∷ xs) =
    (Memᴰ.head refl, All-map_imp (λ z. Memᴰ z xs) _ xs (λ z m. Memᴰ.tail m) (All-self xs))

-- Sorting adds no item.
pub sort_by-Memᴰ {ℓ} :
    {A : Type ℓ} (le : A → A → Bool) (z : A) (xs : List A) → Memᴰ z (sort_by le xs) → Memᴰ z xs
sort_by-Memᴰ le z xs m =
    All-Memᴰ (λ y. Memᴰ y xs) (sort_by le xs) (All-sort_by le (λ y. Memᴰ y xs) xs (All-self xs)) m

module _ {ℓ} {V : Type ℓ} where
  pub values-Memᴰ : (k : ℕ) (v : V) (d : Dict V) → lookup k d ≡ some v → Memᴰ v (values d)
  values-Memᴰ k v [] h = cc
  values-Memᴰ k v ((j, w) ∷ d) h = elim (if_cases (j == k) h) [
    | inl (_, e) ↦ Memᴰ.head (found w e)
    | inr (_, e) ↦ Memᴰ.tail (values-Memᴰ k v d e)
  ]
    where
      found : (u : V) → some u ≡ some v → v ≡ u
      found u e = cc

-- What a list of items with distinct identities looks like as a dictionary.
module _ {ℓ} {V : Type ℓ} (identity : V → ℕ) where
  lookup-index_onto_other :
      (k : ℕ) (d : Dict V) (xs : List V)
      → mem_by ◌==◌ k (map identity xs) ≡ false
      → lookup k (index_onto identity d xs) ≡ lookup k d
  lookup-index_onto_other k d [] h = refl
  lookup-index_onto_other k d (x ∷ xs) h =
      let here = or_false (k == identity x) (mem_by ◌==◌ k (map identity xs)) h in
      lookup-index_onto_other k (insert (identity x) x d) xs here.1
      ∙ lookup-insert k (identity x) x d
      ∙ miss (identity x) here.0
    where
      or_false : (a b : Bool) → (a || b) ≡ false → (a ≡ false) × (b ≡ false)
      or_false a b e = ground arith

      miss : (i : ℕ) → (k == i) ≡ false → (if i == k then some x else lookup k d) ≡ lookup k d
      miss i e = let other : (i == k) ≡ false = ground arith in rw other

  lookup-index_onto :
      (d : Dict V) (x : V) (xs : List V)
      → DistinctBy ◌==◌ (map identity xs)
      → Memᴰ x xs
      → lookup (identity x) (index_onto identity d xs) ≡ some x
  lookup-index_onto d x [] h m = elim m [ ]
  lookup-index_onto d x (y ∷ xs) h (Memᴰ.head e) = rw e (
      lookup-index_onto_other (identity y) (insert (identity y) y d) xs h.0
      ∙ lookup-insert (identity y) (identity y) y d
      ∙ hit (identity y))
    where
      hit : (i : ℕ) → (if i == i then some y else lookup i d) ≡ some y
      hit i = let same : (i == i) ≡ true = ground arith in rw same
  lookup-index_onto d x (y ∷ xs) h (Memᴰ.tail m) =
      lookup-index_onto (insert (identity y) y d) x xs h.1 m

  -- Every item is found under its identity.
  pub lookup-index_by :
      (x : V) (xs : List V)
      → DistinctBy ◌==◌ (map identity xs)
      → Memᴰ x xs
      → lookup (identity x) (index_by identity xs) ≡ some x
  lookup-index_by x xs h m = lookup-index_onto [] x xs h m

  index_onto-Memᴰ :
      (k : ℕ) (v : V) (d : Dict V) (xs : List V)
      → lookup k (index_onto identity d xs) ≡ some v
      → Memᴰ v xs ⊎ (lookup k d ≡ some v)
  index_onto-Memᴰ k v d [] h = inr h
  index_onto-Memᴰ k v d (x ∷ xs) h = later (index_onto-Memᴰ k v (insert (identity x) x d) xs h)
    where
      found : some x ≡ some v → v ≡ x
      found e = cc

      later :
          Memᴰ v xs ⊎ (lookup k (insert (identity x) x d) ≡ some v)
          → Memᴰ v (x ∷ xs) ⊎ (lookup k d ≡ some v)
      later (inl m) = inl (Memᴰ.tail m)
      later (inr e) =
          elim (if_cases (identity x == k) (sym (lookup-insert k (identity x) x d) ∙ e)) [
            | inl (_, p) ↦ inl (Memᴰ.head (found p))
            | inr (_, p) ↦ inr p
          ]

  -- What is found is an item of the list.
  pub index_by-Memᴰ :
      (k : ℕ) (v : V) (xs : List V) → lookup k (index_by identity xs) ≡ some v → Memᴰ v xs
  index_by-Memᴰ k v xs h = elim (index_onto-Memᴰ k v [] xs h) [
    | inl m ↦ m
    | inr e ↦ absurd (missing e)
  ]
    where
      missing : ◌≡◌ {A = Option V} none (some v) → ⊥
      missing e = cc

pub Memᴰ-select {ℓ} :
    {A : Type ℓ} (test : A → Bool) (z : A) (xs : List A)
    → test z ≡ true
    → Memᴰ z xs
    → Memᴰ z (select test xs)
Memᴰ-select test z [] h m = elim m [ ]
Memᴰ-select test z (x ∷ xs) h (Memᴰ.head e) = rw (← e, h) (Memᴰ.head refl)
Memᴰ-select test z (x ∷ xs) h (Memᴰ.tail m) = elim (Bool-cases (test x)) [
  | inl e ↦ rw e (Memᴰ.tail (Memᴰ-select test z xs h m))
  | inr e ↦ rw e (Memᴰ-select test z xs h m)
]
