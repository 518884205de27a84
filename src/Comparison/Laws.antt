-- ===== src/Comparison/Laws.antt =====
-- What the comparison of two dictionaries finds.
use mathlib.Core.List.{Memᴰ}
use google_workspace_gmail_a.Common.{
  ℕ, Bool, true, false, not, ◌||◌, none, some, List, [], ◌∷◌, ◌≡◌, ◌≢◌, sym, ap, ◌∙◌, leb, select,
  Dict, keys, contains, lookup, lookup_of_contains, lookup_of_not_contains, decided, ◌==◌,
  Bool-cases, inl, inr, arith, All, All-select, All-select_test, All-sort_by, Memᴰ-sort_by,
  Memᴰ-select, All-map_imp,
}
use google_workspace_gmail_a.Comparison.{ids_only_in, ids_in_both, differ, differ_at, ids_changed}

module _ {ℓ} {V : Type ℓ} where
  Memᴰ-keys : (k : ℕ) (d : Dict V) → contains k d ≡ true → Memᴰ k (keys d)
  Memᴰ-keys k [] h = cc
  Memᴰ-keys k ((j, v) ∷ d) h = elim (Bool-cases (j == k)) [
    | inl e ↦ Memᴰ.head (ground arith)
    | inr e ↦ Memᴰ.tail (Memᴰ-keys k d (rw e at h))
  ]

  keys-contains : (d : Dict V) → All (λ k. contains k d ≡ true) (keys d)
  keys-contains [] = tt
  keys-contains ((j, v) ∷ d) = (
    ground arith,
    All-map_imp (λ k. contains k d ≡ true) _ (keys d) (λ k h. rw h (or_true (j == k)))
        (keys-contains d),
  )
    where
      or_true : (b : Bool) → (b || true) ≡ true
      or_true b = ground arith

  pub contains_of_lookup : (k : ℕ) (v : V) (d : Dict V) → lookup k d ≡ some v → contains k d ≡ true
  contains_of_lookup k v d h = elim (Bool-cases (contains k d)) [
    | inl e ↦ e
    | inr e ↦ let clash = sym (lookup_of_not_contains k d e) ∙ h in cc
  ]

  pub not_contains_of_lookup : (k : ℕ) (d : Dict V) → lookup k d ≡ none → contains k d ≡ false
  not_contains_of_lookup k d h = elim (Bool-cases (contains k d)) [
    | inl e ↦ let (v, at) = lookup_of_contains k d e in let clash = sym at ∙ h in cc
    | inr e ↦ e
  ]

  -- An id that only the first dictionary has is listed, and nothing else is.
  pub Memᴰ-ids_only_in :
      (k : ℕ) (a b : Dict V) → contains k a ≡ true → contains k b ≡ false → Memᴰ k (ids_only_in a b)
  Memᴰ-ids_only_in k a b p q =
      Memᴰ-sort_by leb k _
        (Memᴰ-select (λ j. not (contains j b)) k (keys a) (rw q) (Memᴰ-keys k a p))

  pub ids_only_in-All :
      (a b : Dict V) → All (λ k. (contains k a ≡ true) × (contains k b ≡ false)) (ids_only_in a b)
  ids_only_in-All a b =
      All-sort_by leb (λ k. (contains k a ≡ true) × (contains k b ≡ false)) _
        (All-both (select (λ k. not (contains k b)) (keys a))
          (All-select (λ k. contains k a ≡ true) (λ k. not (contains k b)) (keys a)
            (keys-contains a))
          (All-select_test (λ k. not (contains k b)) (keys a)))
    where
      not_true : (c : Bool) → not c ≡ true → c ≡ false
      not_true c h = ground arith

      All-both :
          (ks : List ℕ)
          → All (λ k. contains k a ≡ true) ks
          → All (λ k. not (contains k b) ≡ true) ks
          → All (λ k. (contains k a ≡ true) × (contains k b ≡ false)) ks
      All-both [] p q = tt
      All-both (k ∷ ks) p q = ((p.0, not_true (contains k b) q.0), All-both ks p.1 q.1)

module _ {ℓ} {V : Type ℓ} (equal : Discrete V) where
  differ_same : (v w : V) → differ equal (some v) (some w) ≡ false → v ≡ w
  differ_same v w h =
      elim (equal v w) as (λ d. not (decided d) ≡ false → v ≡ w) [ yes e ↦ λ p. e | no e ↦ λ p. cc ]
        h

  -- An id under which both dictionaries hold different resources is listed.
  pub Memᴰ-ids_changed :
      (k : ℕ) (v w : V) (a b : Dict V)
      → lookup k a ≡ some v
      → lookup k b ≡ some w
      → v ≢ w
      → Memᴰ k (ids_changed equal a b)
  Memᴰ-ids_changed k v w a b p q ne =
      Memᴰ-select (differ_at equal a b) k (ids_in_both a b)
        (elim (Bool-cases (differ_at equal a b k)) [
          | inl e ↦ e
          | inr e ↦ absurd (ne (differ_same v w (same_test e)))
        ])
        (Memᴰ-sort_by leb k _ (
          Memᴰ-select (λ j. contains j b) k (keys a) (contains_of_lookup k w b q)
            (Memᴰ-keys k a (contains_of_lookup k v a p))))
    where
      same_test : differ_at equal a b k ≡ false → differ equal (some v) (some w) ≡ false
      same_test e =
          ap (λ x. differ equal x (some w)) (sym p) ∙ ap (differ equal (lookup k a)) (sym q) ∙ e

  pub ids_changed-All :
      (a b : Dict V) → All (λ k. differ_at equal a b k ≡ true) (ids_changed equal a b)
  ids_changed-All a b = All-select_test (differ_at equal a b) (ids_in_both a b)
