-- ===== src/Pipeline/Names.antt =====
-- Items of distinct ids whose names tell them apart.
use mathlib.Core.List.{Memᴰ}
use google_workspace_gmail_a.Common.{
  ℕ, String, Bool, false, ◌||◌, List, [], ◌∷◌, ◌++◌, map, ◌≡◌, refl, sym, ap, ◌∙◌, inl, inr,
  Bool-cases, mem_by, DistinctBy, Distinct, ◌==◌, ◌=s=◌, ==_iff, eq_iff, arith,
}

or_parts : (b c : Bool) → (b || c) ≡ false → (b ≡ false) × (c ≡ false)
or_parts b c h = ground arith

module _ {A : Type 0} (name : A → String) (more : List String) where
  -- A name that is not among the names is not that of an item.
  apart_of_absent :
      (k : String) (y : A) (xs : List A)
      → mem_by ◌=s=◌ k (map name xs ++ more) ≡ false
      → Memᴰ y xs
      → (k =s= name y) ≡ false
  apart_of_absent k y [] h m = elim m [ ]
  apart_of_absent k y (x ∷ xs) h (Memᴰ.head e) =
      ap (λ z. k =s= name z) e ∙ (or_parts (k =s= name x) _ h).0
  apart_of_absent k y (x ∷ xs) h (Memᴰ.tail m) =
      apart_of_absent k y xs (or_parts (k =s= name x) _ h).1 m

  never_same : (s t : String) → (s =s= t) ≡ false → s ≡ t → ⊥
  never_same s t apart e = let clash = sym ((eq_iff s t).1 e) ∙ apart in cc

  -- Where the names are distinct, an item is known by its name.
  pub item_of_name :
      (x y : A) (xs : List A)
      → Distinct (map name xs ++ more)
      → Memᴰ x xs
      → Memᴰ y xs
      → name x ≡ name y
      → x ≡ y
  item_of_name x y [] d m n e = elim m [ ]
  item_of_name x y (z ∷ xs) d (Memᴰ.head p) (Memᴰ.head q) e = p ∙ sym q
  item_of_name x y (z ∷ xs) d (Memᴰ.head p) (Memᴰ.tail n) e =
      absurd
        (never_same (name z) (name y) (apart_of_absent (name z) y xs d.0 n) (sym (ap name p) ∙ e))
  item_of_name x y (z ∷ xs) d (Memᴰ.tail m) (Memᴰ.head q) e =
      absurd (
        never_same (name z) (name x) (apart_of_absent (name z) x xs d.0 m)
          (sym (ap name q) ∙ sym e))
  item_of_name x y (z ∷ xs) d (Memᴰ.tail m) (Memᴰ.tail n) e = item_of_name x y xs d.1 m n e

module _ {A : Type 0} (identity : A → ℕ) (name : A → String) where
  absent_of_apart :
      (x : A) (ys : List A)
      → mem_by ◌==◌ (identity x) (map identity ys) ≡ false
      → ((y : A) → Memᴰ y ys → name x ≡ name y → identity x ≡ identity y)
      → mem_by ◌=s=◌ (name x) (map name ys) ≡ false
  absent_of_apart x [] h same = refl
  absent_of_apart x (y ∷ ys) h same =
      let (other, rest) = or_parts (identity x == identity y) _ h in
      let tail = absent_of_apart x ys rest (λ z m. same z (Memᴰ.tail m)) in
      elim (Bool-cases (name x =s= name y)) [
        | inl e ↦
            let key = same y (Memᴰ.head refl) ((eq_iff (name x) (name y)).0 e) in
            let clash = sym ((==_iff (identity x) (identity y)).1 key) ∙ other in cc
        | inr e ↦ rw e tail
      ]

  -- Where items of one name have one id, distinct ids make distinct names.
  pub Distinct-of_ids :
      (xs : List A)
      → DistinctBy ◌==◌ (map identity xs)
      → ((x y : A) → Memᴰ x xs → Memᴰ y xs → name x ≡ name y → identity x ≡ identity y)
      → Distinct (map name xs)
  Distinct-of_ids [] d same = tt
  Distinct-of_ids (x ∷ xs) d same = (
    absent_of_apart x xs d.0 (λ y m. same x y (Memᴰ.head refl) (Memᴰ.tail m)),
    Distinct-of_ids xs d.1 (λ y z m n. same y z (Memᴰ.tail m) (Memᴰ.tail n)),
  )
