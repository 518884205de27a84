-- ===== src/Common/Reordering.antt =====
-- Sorting a list by texts that differ from item to item: the order of the list does not matter.
use Prim.Native.String.{String}
use mathlib.Core.Path.{◌≡◌, refl, sym, ap, ◌∙◌, subst}
use mathlib.Core.Logic.{inl, inr}
use mathlib.Core.Bool.{Bool, true, false, ◌||◌}
use mathlib.Core.List.{List, [], ◌∷◌, map, Permᴰ}
use native.Mathlib.Omega.{arith}
use text.Mathlib.TextEquality.{eq_iff}
use google_workspace_gmail_a.Common.Tests.{Bool-cases}
use google_workspace_gmail_a.Common.Text.{◌=s=◌, leb_text, mem_text, Distinct}
use google_workspace_gmail_a.Common.Sorting.{insert_by, sort_by}
use google_workspace_gmail_a.Common.TextDictionaries.{=s=_symmetric}
use google_workspace_gmail_a.Common.TextOrder.{leb_text_total, leb_text_trans, leb_text_antisym}

module _ {ℓ} {A : Type ℓ} (key : A → String) where
  -- the order of the keys
  abbrev pub key_order : A → A → Bool
  key_order x y = leb_text (key x) (key y)

  one_way : (x y : A) → (key x =s= key y) ≡ false → key_order x y ≡ true → key_order y x ≡ false
  one_way x y apart le = elim (Bool-cases (key_order y x)) [
    | inl back ↦
        let same = (eq_iff (key x) (key y)).1 (leb_text_antisym (key x) (key y) le back) in
        let clash = sym same ∙ apart in cc
    | inr e ↦ e
  ]

  not_over : (x y z : A) → key_order x z ≡ true → key_order y z ≡ false → key_order y x ≡ false
  not_over x y z le over = elim (Bool-cases (key_order y x)) [
    | inl under ↦ let clash = sym (leb_text_trans (key y) (key x) (key z) under le) ∙ over in cc
    | inr e ↦ e
  ]

  insert_by-swap :
      (x y : A) (zs : List A)
      → (key x =s= key y) ≡ false
      → insert_by key_order x (insert_by key_order y zs)
        ≡ insert_by key_order y (insert_by key_order x zs)
  insert_by-swap x y [] apart = elim (Bool-cases (key_order x y)) [
    | inl e ↦ let back = one_way x y apart e in rw (e, back) refl
    | inr e ↦ let back = leb_text_total (key x) (key y) e in rw (e, back) refl
  ]
  insert_by-swap x y (z ∷ zs) apart = elim (Bool-cases (key_order x z)) [
    | inl p ↦ elim (Bool-cases (key_order y z)) [
      | inl q ↦ elim (Bool-cases (key_order x y)) [
        | inl e ↦ let back = one_way x y apart e in rw (p, q, e, back) refl
        | inr e ↦ let back = leb_text_total (key x) (key y) e in rw (p, q, e, back, p) refl
      ]
      | inr q ↦ let over = not_over x y z p q in rw (q, p, over, q) refl
    ]
    | inr p ↦ elim (Bool-cases (key_order y z)) [
      | inl q ↦ let over = not_over y x z q p in rw (p, q, over, p) refl
      | inr q ↦ rw (p, q, p) (ap (λ rest. z ∷ rest) (insert_by-swap x y zs apart))
    ]
  ]

  mem-swap : (a b c : Bool) → (a || (b || c)) ≡ (b || (a || c))
  mem-swap a b c = ground arith

  mem_text-perm :
      (k : String) {xs ys : List A}
      → Permᴰ xs ys
      → mem_text k (map key xs) ≡ mem_text k (map key ys)
  mem_text-perm k Permᴰ.nil = refl
  mem_text-perm k (Permᴰ.cons {a} {b} {l₁} {l₂} e p) =
      ap (λ x. k =s= key x || mem_text k (map key l₁)) e
      ∙ ap (λ rest. k =s= key b || rest) (mem_text-perm k p)
  mem_text-perm k (Permᴰ.swap {a} {b} {a'} {b'} {l} e f) =
      mem-swap (k =s= key a) (k =s= key b) (mem_text k (map key l))
      ∙ ap (λ x. k =s= key x || (k =s= key a || mem_text k (map key l))) f
      ∙ ap (λ x. k =s= key a' || (k =s= key x || mem_text k (map key l))) e
  mem_text-perm k (Permᴰ.trans p q) = mem_text-perm k p ∙ mem_text-perm k q

  or_parts : (b c : Bool) → (b || c) ≡ false → (b ≡ false) × (c ≡ false)
  or_parts b c g = ground arith

  or_join : (b c : Bool) → b ≡ false → c ≡ false → (b || c) ≡ false
  or_join b c g h = ground arith

  Distinct-perm : {xs ys : List A} → Permᴰ xs ys → Distinct (map key xs) → Distinct (map key ys)
  Distinct-perm Permᴰ.nil h = tt
  Distinct-perm (Permᴰ.cons {a} {b} {l₁} {l₂} e p) h = (
    sym (mem_text-perm (key b) p) ∙ ap (λ x. mem_text (key x) (map key l₁)) (sym e) ∙ h.0,
    Distinct-perm p h.1,
  )
  Distinct-perm (Permᴰ.swap {a} {b} {a'} {b'} {l} e f) h =
      subst (λ x. Distinct (map key (x ∷ b' ∷ l))) f
        (subst (λ x. Distinct (map key (b ∷ x ∷ l))) e (swapped (key a) (key b) (map key l) h))
    where
      swapped :
          (s t : String) (rest : List String) → Distinct (s ∷ t ∷ rest) → Distinct (t ∷ s ∷ rest)
      swapped s t rest h =
          let (apart, absent) = or_parts (s =s= t) (mem_text s rest) h.0 in
          (or_join (t =s= s) (mem_text t rest) (=s=_symmetric t s ∙ apart) h.1.0, (absent, h.1.1))
  Distinct-perm (Permᴰ.trans p q) h = Distinct-perm q (Distinct-perm p h)

  -- Lists of the same items, whose keys differ, are sorted to the same list.
  pub sort_by-perm_eq :
      {xs ys : List A}
      → Permᴰ xs ys
      → Distinct (map key xs)
      → sort_by key_order xs ≡ sort_by key_order ys
  sort_by-perm_eq Permᴰ.nil h = refl
  sort_by-perm_eq (Permᴰ.cons {a} {b} {l₁} {l₂} e p) h =
      ap (λ x. insert_by key_order x (sort_by key_order l₁)) e
      ∙ ap (insert_by key_order b) (sort_by-perm_eq p h.1)
  sort_by-perm_eq (Permᴰ.swap {a} {b} {a'} {b'} {l} e f) h =
      insert_by-swap a b (sort_by key_order l)
        ((or_parts (key a =s= key b) (mem_text (key a) (map key l)) h.0).0)
      ∙ ap (λ x. insert_by key_order x (insert_by key_order a (sort_by key_order l))) f
      ∙ ap (λ x. insert_by key_order a' (insert_by key_order x (sort_by key_order l))) e
  sort_by-perm_eq (Permᴰ.trans p q) h = sort_by-perm_eq p h ∙ sort_by-perm_eq q (Distinct-perm p h)
