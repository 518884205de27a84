-- ===== src/Comparison/Agreement.antt =====
-- When the comparison of two dictionaries lists no id.
use mathlib.Core.List.{Memᴰ}
use google_workspace_gmail_a.Common.{
  ℕ, true, false, Option, none, some, List, [], ◌∷◌, ◌≡◌, refl, sym, ap, ◌∙◌, subst, Dict, contains,
  lookup, lookup_of_contains, lookup_of_not_contains, All, All-map_imp, Option-cases, inl, inr,
  decided, not,
}
use google_workspace_gmail_a.Comparison.{ids_only_in, differ, ids_changed}
use google_workspace_gmail_a.Comparison.Laws.{
  contains_of_lookup, not_contains_of_lookup, Memᴰ-ids_only_in, ids_only_in-All, Memᴰ-ids_changed,
  ids_changed-All,
}

nothing_in_nil : {A : Type 0} {x : A} {xs : List A} → xs ≡ [] → Memᴰ x xs → ⊥
nothing_in_nil {A} {x} e m = none_there (subst (Memᴰ x) e m)
  where
    none_there : Memᴰ {A = A} x [] → ⊥
    none_there h = elim h [ ]

nil_of_All : {A : Type 0} (xs : List A) → All (λ x. ⊥) xs → xs ≡ []
nil_of_All [] h = refl
nil_of_All (x ∷ xs) h = absurd h.0

-- No id is listed.
pub record IsSilent {ℓ} {V : Type ℓ} (equal : Discrete V) (a b : Dict V) : Type 0 where
  pub left : ids_only_in a b ≡ []
  pub right : ids_only_in b a ≡ []
  pub changed : ids_changed equal a b ≡ []

module _ {ℓ} {V : Type ℓ} (equal : Discrete V) (a b : Dict V) where
  agree_both :
      (k : ℕ) (v w : V)
      → ids_changed equal a b ≡ []
      → lookup k a ≡ some v
      → lookup k b ≡ some w
      → lookup k a ≡ lookup k b
  agree_both k v w h p q = elim (equal v w) [
    | yes e ↦ p ∙ ap some e ∙ sym q
    | no ne ↦ absurd (nothing_in_nil h (Memᴰ-ids_changed equal k v w a b p q ne))
  ]

  pub IsSilent-agrees : IsSilent equal a b → (k : ℕ) → lookup k a ≡ lookup k b
  IsSilent-agrees h k = elim (Option-cases (lookup k a)) [
    | inl p ↦ elim (Option-cases (lookup k b)) [
      | inl q ↦ p ∙ sym q
      | inr (w, q) ↦ absurd (
          nothing_in_nil h.right
            (Memᴰ-ids_only_in k b a (contains_of_lookup k w b q) (not_contains_of_lookup k a p)))
    ]
    | inr (v, p) ↦ elim (Option-cases (lookup k b)) [
      | inl q ↦ absurd (
          nothing_in_nil h.left
            (Memᴰ-ids_only_in k a b (contains_of_lookup k v a p) (not_contains_of_lookup k b q)))
      | inr (w, q) ↦ agree_both k v w h.changed p q
    ]
  ]

  apart :
      (c d : Dict V) (k : ℕ)
      → lookup k c ≡ lookup k d
      → (contains k c ≡ true) × (contains k d ≡ false)
      → ⊥
  apart c d k same (p, q) =
      let (v, at) = lookup_of_contains k c p in
      let clash = sym at ∙ same ∙ lookup_of_not_contains k d q in cc

  differ_none : (x : Option V) → differ equal x x ≡ true → ⊥
  differ_none none h = cc
  differ_none (some v) h =
      elim (equal v v) as (λ d. not (decided d) ≡ true → ⊥) [
        | yes e ↦ λ p. cc
        | no ne ↦ λ p. ne refl
      ]
        h

  pub agrees-IsSilent : ((k : ℕ) → lookup k a ≡ lookup k b) → IsSilent equal a b
  agrees-IsSilent h = record {
    left = nil_of_All (ids_only_in a b) (
        All-map_imp _ (λ k. ⊥) (ids_only_in a b) (λ k p. apart a b k (h k) p)
          (ids_only_in-All a b));
    right = nil_of_All (ids_only_in b a) (
        All-map_imp _ (λ k. ⊥) (ids_only_in b a) (λ k p. apart b a k (sym (h k)) p)
          (ids_only_in-All b a));
    changed = nil_of_All (ids_changed equal a b) (
        All-map_imp _ (λ k. ⊥) (ids_changed equal a b)
          (λ k p. differ_none (lookup k b) (ap (λ x. differ equal x (lookup k b)) (sym (h k)) ∙ p))
          (ids_changed-All equal a b));
  }
