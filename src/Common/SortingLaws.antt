-- ===== src/Common/SortingLaws.antt =====
-- A stable sort by a total order is sorted, and keeps the items distinct.
use mathlib.Core.Path.{◌≡◌, refl, ◌∙◌, ap}
use mathlib.Core.Logic.{inl, inr}
use mathlib.Core.Bool.{Bool, true, false, ◌||◌}
use mathlib.Core.List.{List, [], ◌∷◌, ◌++◌, map}
use native.Mathlib.Omega.{arith}
use google_workspace_gmail_a.Common.Tests.{Bool-cases}
use google_workspace_gmail_a.Common.Lists.{All, All-map_imp}
use google_workspace_gmail_a.Common.Duplicates.{mem_by, DistinctBy}
use google_workspace_gmail_a.Common.Sorting.{insert_by, sort_by, IsSorted, All-insert_by}

module _ {ℓ} {A : Type ℓ} (le : A → A → Bool) (total : (x y : A) → le x y ≡ false → le y x ≡ true)
    (trans : (x y z : A) → le x y ≡ true → le y z ≡ true → le x z ≡ true) where
  insert_by-IsSorted : (x : A) (ys : List A) → IsSorted le ys → IsSorted le (insert_by le x ys)
  insert_by-IsSorted x [] h = (tt, tt)
  insert_by-IsSorted x (y ∷ ys) h = elim (Bool-cases (le x y)) [
    | inl e ↦ rw e (
      (e, All-map_imp (λ z. le y z ≡ true) (λ z. le x z ≡ true) ys (λ z p. trans x y z e p) h.0),
      h,
    )
    | inr e ↦
        rw e (
          All-insert_by le (λ z. le y z ≡ true) x ys (total x y e) h.0,
          insert_by-IsSorted x ys h.1,
        )
  ]

  -- The result is in order.
  pub sort_by-IsSorted : (xs : List A) → IsSorted le (sort_by le xs)
  sort_by-IsSorted [] = tt
  sort_by-IsSorted (x ∷ xs) = insert_by-IsSorted x (sort_by le xs) (sort_by-IsSorted xs)

module _ {ℓ} {A : Type ℓ} (le : A → A → Bool) where
  insert_by_front : (x : A) (ys : List A) → All (λ y. le x y ≡ true) ys → insert_by le x ys ≡ x ∷ ys
  insert_by_front x [] h = refl
  insert_by_front x (y ∷ ys) h = rw h.0 refl

  -- A list that is in order stays as it is.
  pub sort_by-eq_self : (xs : List A) → IsSorted le xs → sort_by le xs ≡ xs
  sort_by-eq_self [] h = refl
  sort_by-eq_self (x ∷ xs) h =
      ap (insert_by le x) (sort_by-eq_self xs h.1) ∙ insert_by_front x xs h.0

module _ {ℓ κ} {A : Type ℓ} {K : Type κ} (same : K → K → Bool)
    (symmetric : (a b : K) → same a b ≡ same b a) (key : A → K) (le : A → A → Bool)
    (more : List K) where
  abbrev pub keyed : List A → List K
  keyed xs = map key xs ++ more

  or_swap : (a b c : Bool) → (a || (b || c)) ≡ (b || (a || c))
  or_swap a b c = ground arith

  mem_by-insert_by :
      (k : K) (x : A) (ys : List A)
      → mem_by same k (keyed (insert_by le x ys)) ≡ (same k (key x) || mem_by same k (keyed ys))
  mem_by-insert_by k x [] = refl
  mem_by-insert_by k x (y ∷ ys) = elim (Bool-cases (le x y)) [
    | inl e ↦ rw e
    | inr e ↦ rw e (
        ap (λ b. same k (key y) || b) (mem_by-insert_by k x ys)
        ∙ or_swap (same k (key y)) (same k (key x)) (mem_by same k (keyed ys)))
  ]

  pub mem_by-sort_by :
      (k : K) (xs : List A) → mem_by same k (keyed (sort_by le xs)) ≡ mem_by same k (keyed xs)
  mem_by-sort_by k [] = refl
  mem_by-sort_by k (x ∷ xs) =
      mem_by-insert_by k x (sort_by le xs) ∙ ap (λ b. same k (key x) || b) (mem_by-sort_by k xs)

  or_false : (a b : Bool) → (a || b) ≡ false → (a ≡ false) × (b ≡ false)
  or_false a b h = ground arith

  both_false : (a b : Bool) → a ≡ false → b ≡ false → (a || b) ≡ false
  both_false a b p q = ground arith

  DistinctBy-insert_by :
      (x : A) (ys : List A)
      → mem_by same (key x) (keyed ys) ≡ false
      → DistinctBy same (keyed ys)
      → DistinctBy same (keyed (insert_by le x ys))
  DistinctBy-insert_by x [] h d = (h, d)
  DistinctBy-insert_by x (y ∷ ys) h d = elim (Bool-cases (le x y)) [
    | inl e ↦ rw e (h, d)
    | inr e ↦
        let (apart, new) = or_false (same (key x) (key y)) (mem_by same (key x) (keyed ys)) h in
        rw e (
          mem_by-insert_by (key y) x ys
              ∙ both_false (same (key y) (key x)) (mem_by same (key y) (keyed ys))
                  (symmetric (key y) (key x) ∙ apart) d.0,
          DistinctBy-insert_by x ys new d.1,
        )
  ]

  -- Sorting keeps the keys distinct, from one another and from those of `more`.
  pub DistinctBy-sort_by :
      (xs : List A) → DistinctBy same (keyed xs) → DistinctBy same (keyed (sort_by le xs))
  DistinctBy-sort_by [] d = d
  DistinctBy-sort_by (x ∷ xs) d =
      DistinctBy-insert_by x (sort_by le xs) (mem_by-sort_by (key x) xs ∙ d.0)
        (DistinctBy-sort_by xs d.1)
