-- ===== src/Common/Duplicates.antt =====
-- `len(xs) != len(set(xs))`, the source's test for a repeated item, and what it decides.
use Prim.Native.Nat.{◌≤◌}
use mathlib.Core.Path.{◌≡◌, refl}
use mathlib.Core.Logic.{◌↔◌, inl, inr}
use mathlib.Core.Bool.{Bool, false, not, ◌||◌}
use mathlib.Core.List.{List, [], ◌∷◌}
use native.Mathlib.Omega.{arith}
use google_workspace_gmail_a.Common.Tests.{◌==◌, if◌then◌else◌, Bool-cases}
use google_workspace_gmail_a.Common.Lists.{length}

module _ {ℓ} {A : Type ℓ} (same : A → A → Bool) where
  -- `x in xs`
  abbrev pub mem_by : A → List A → Bool
  mem_by x [] = false
  mem_by x (y ∷ ys) = same x y || mem_by x ys

  -- `set(xs)`, each item kept at its last place
  abbrev pub set_by : List A → List A
  set_by [] = []
  set_by (x ∷ xs) = if mem_by x xs then set_by xs else x ∷ set_by xs

  abbrev pub repeats_by : List A → Bool
  repeats_by xs = not (length xs == length (set_by xs))

  -- No item occurs twice.
  abbrev pub DistinctBy : List A → Type 0
  DistinctBy [] = Unit
  DistinctBy (x ∷ xs) = (mem_by x xs ≡ false) × DistinctBy xs

  length-set_by_le : (xs : List A) → length (set_by xs) ≤ length xs
  length-set_by_le [] = omega arith
  length-set_by_le (x ∷ xs) = ground (arith, length-set_by_le xs)

  DistinctBy-of_length : (xs : List A) → length xs ≡ length (set_by xs) → DistinctBy xs
  DistinctBy-of_length [] h = tt
  DistinctBy-of_length (x ∷ xs) h = elim (Bool-cases (mem_by x xs)) [
    | inl e ↦ absurd (ground (arith, length-set_by_le xs))
    | inr e ↦ (e, DistinctBy-of_length xs (ground arith))
  ]

  length-set_by-of_DistinctBy : (xs : List A) → DistinctBy xs → length xs ≡ length (set_by xs)
  length-set_by-of_DistinctBy [] h = refl
  length-set_by-of_DistinctBy (x ∷ xs) h = ground (arith, length-set_by-of_DistinctBy xs h.1)

  -- Comparing the two lengths finds exactly the lists that repeat an item.
  pub repeats_by_iff : (xs : List A) → (repeats_by xs ≡ false) ↔ DistinctBy xs
  repeats_by_iff xs = (
    λ h. DistinctBy-of_length xs (ground arith),
    λ d. ground (arith, length-set_by-of_DistinctBy xs d),
  )
