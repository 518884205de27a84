-- ===== src/Verification/Differences.antt =====
-- When the lists of differences in domain/verification.py are empty.
use google_workspace_gmail_a.Common.{
  ℕ, String, Bool, true, false, ◌&&◌, List, [], ◌∷◌, ◌++◌, ◌≡◌, refl, sym, ap, ◌∙◌, map, sort_by,
  leb_text, set_by, ◌=s=◌, inl, inr, Distinct, eq_iff, eq_refl, arith, ◌↔◌, lookup, index_by,
  select, All, All-self, All-map_imp, ltb, mem_by, insert_by, ◌≤◌, if_cases,
}
use google_workspace_gmail_a.Comparison.{ids_only_in, ids_changed}
use google_workspace_gmail_a.Comparison.Agreement.{IsSilent-agrees, agrees-IsSilent}
use google_workspace_gmail_a.Verification.{
  count_name, duplicate_names, same_texts, resource_differences, missing_at, unexpected_at,
  changed_at,
}
use google_workspace_gmail_a.Verification.Names.{count-Distinct, Distinct-of_count}

pub append_nil {ℓ} : {A : Type ℓ} (xs ys : List A) → xs ++ ys ≡ [] → (xs ≡ []) × (ys ≡ [])
append_nil [] ys h = (refl, h)
append_nil (x ∷ xs) ys h = cc

module _ {ℓ} {A : Type ℓ} where
  map-nil {κ} : {B : Type κ} (f : A → B) (xs : List A) → map f xs ≡ [] → xs ≡ []
  map-nil f [] h = refl
  map-nil f (x ∷ xs) h = cc

  three_nil {κ} :
      {B : Type κ} (f g h : A → B) (xs ys zs : List A)
      → map f xs ++ map g ys ++ map h zs ≡ []
      → (xs ≡ []) × (ys ≡ []) × (zs ≡ [])
  three_nil f g h xs ys zs e =
      let (both, r) = append_nil (map f xs ++ map g ys) (map h zs) e in
      let (p, q) = append_nil (map f xs) (map g ys) both in
      (map-nil f xs p, map-nil g ys q, map-nil h zs r)

  insert_by-nil : (le : A → A → Bool) (x : A) (xs : List A) → insert_by le x xs ≡ [] → ⊥
  insert_by-nil le x [] h = cc
  insert_by-nil le x (y ∷ ys) h = elim (if_cases (le x y) h) [ inl (_, e) ↦ cc | inr (_, e) ↦ cc ]

  sort_by-nil : (le : A → A → Bool) (xs : List A) → sort_by le xs ≡ [] → xs ≡ []
  sort_by-nil le [] h = refl
  sort_by-nil le (x ∷ xs) h = absurd (insert_by-nil le x (sort_by le xs) h)

  set_by-nil : (same : A → A → Bool) (xs : List A) → set_by same xs ≡ [] → xs ≡ []
  set_by-nil same [] h = refl
  set_by-nil same (x ∷ xs) h = elim (if_cases (mem_by same x xs) h) [
    | inl (m, e) ↦ absurd (missing (ap (mem_by same x) (set_by-nil same xs e)) m)
    | inr (_, e) ↦ cc
  ]
    where
      missing : {b : Bool} → b ≡ false → b ≡ true → ⊥
      missing p q = cc

  select-nil : (test : A → Bool) (xs : List A) → select test xs ≡ [] → All (λ x. test x ≡ false) xs
  select-nil test [] h = tt
  select-nil test (x ∷ xs) h = elim (if_cases (test x) h) [
    | inl (_, e) ↦ cc
    | inr (p, e) ↦ (p, select-nil test xs e)
  ]

  select_none : (test : A → Bool) (xs : List A) → All (λ x. test x ≡ false) xs → select test xs ≡ []
  select_none test [] h = refl
  select_none test (x ∷ xs) h = rw (h.0, select_none test xs h.1)

-- No name is reported as repeated exactly when the names are distinct.
pub duplicate_names_iff : (names : List String) → (duplicate_names names ≡ []) ↔ Distinct names
duplicate_names_iff names = (distinct, silent)
  where
    low : (n : ℕ) → ltb 1 n ≡ false → n ≤ 1
    low n h = ground arith

    high : (n : ℕ) → n ≤ 1 → ltb 1 n ≡ false
    high n h = ground arith

    distinct : duplicate_names names ≡ [] → Distinct names
    distinct h = Distinct-of_count names (
        All-map_imp _ _ names (λ z p. low (count_name z names) p)
          (select-nil (λ z. ltb 1 (count_name z names)) names
            (set_by-nil ◌=s=◌ _ (sort_by-nil leb_text _ h))))

    silent : Distinct names → duplicate_names names ≡ []
    silent d =
        ap (λ xs. sort_by leb_text (set_by ◌=s=◌ xs))
          (select_none (λ z. ltb 1 (count_name z names)) names
            (All-map_imp _ _ names (λ z m. high (count_name z names) (count-Distinct z names d))
              (All-self names)))

pub same_texts_iff : (ss ts : List String) → (same_texts ss ts ≡ true) ↔ (ss ≡ ts)
same_texts_iff ss ts = (equal ss ts, λ e. ap (same_texts ss) (sym e) ∙ same ss)
  where
    both : (a b : Bool) → (a && b) ≡ true → (a ≡ true) × (b ≡ true)
    both a b h = ground arith

    cons : (s t : String) (xs ys : List String) → s ≡ t → xs ≡ ys → s ∷ xs ≡ t ∷ ys
    cons s t xs ys p q = cc

    equal : (ss ts : List String) → same_texts ss ts ≡ true → ss ≡ ts
    equal [] [] h = refl
    equal [] (t ∷ ts) h = cc
    equal (s ∷ ss) [] h = cc
    equal (s ∷ ss) (t ∷ ts) h =
        let parts = both (s =s= t) (same_texts ss ts) h in
        cons s t ss ts ((eq_iff s t).0 parts.0) (equal ss ts parts.1)

    same : (ss : List String) → same_texts ss ss ≡ true
    same [] = refl
    same (s ∷ ss) = let here : (s =s= s) ≡ true = eq_refl s in rw (here, same ss)

module _ {ℓ} {R : Type ℓ} (str_id : ℕ → String) (equal : Discrete R) (identity : R → ℕ)
    (dump : R → String) (path : String) (desired observed : List R) where
  -- No difference is listed exactly when the same resource, or none, stands under every id.
  pub resource_differences_nil :
      resource_differences str_id equal identity dump path desired observed ≡ []
      → (k : ℕ) → lookup k (index_by identity desired) ≡ lookup k (index_by identity observed)
  unfolding resource_differences
  resource_differences_nil h =
      let d = index_by identity desired in
      let o = index_by identity observed in
      let shown =
        three_nil (missing_at str_id path) (unexpected_at str_id path)
          (changed_at str_id dump path d o) (ids_only_in d o) (ids_only_in o d)
          (ids_changed equal d o) h in
      IsSilent-agrees equal d o (record { left = shown.0; right = shown.1; changed = shown.2 })

  pub resource_differences_none :
      ((k : ℕ) → lookup k (index_by identity desired) ≡ lookup k (index_by identity observed))
      → resource_differences str_id equal identity dump path desired observed ≡ []
  unfolding resource_differences
  resource_differences_none h =
      let silent =
        agrees-IsSilent equal (index_by identity desired) (index_by identity observed) h in
      rw (silent.left, silent.right, silent.changed)
