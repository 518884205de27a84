-- ===== src/Verification/Names.antt =====
-- The repeated names that domain/verification.py reports.
use google_workspace_gmail_a.Common.{
  ℕ, String, Bool, true, false, ◌≤◌, suc, List, [], ◌∷◌, ◌≡◌, refl, sym, ap, ◌∙◌, ◌=s=◌, Bool-cases,
  inl, inr, mem_text, Distinct, eq_iff, eq_refl, arith, All, All-map_imp, ◌||◌,
}
use google_workspace_gmail_a.Verification.{count_name}

is_same_refl : (s : String) → (s =s= s) ≡ true
is_same_refl s = eq_refl s

none_of_count : (x : String) (xs : List String) → count_name x xs ≡ 0 → mem_text x xs ≡ false
none_of_count x [] h = refl
none_of_count x (y ∷ ys) h = elim (Bool-cases (y =s= x)) [
  | inl e ↦ absurd (counted (rw e at h))
  | inr e ↦ apart (x =s= y) (mem_text x ys) (other e) (none_of_count x ys (rw e at h))
]
  where
    counted : suc (count_name x ys) ≡ 0 → ⊥
    counted p = omega arith

    other : (y =s= x) ≡ false → (x =s= y) ≡ false
    other e = elim (Bool-cases (x =s= y)) [
      | inl p ↦
          let turned = ap (λ t. t =s= x) ((eq_iff x y).0 p) in
          let clash = sym (is_same_refl x) ∙ turned ∙ e in cc
      | inr p ↦ p
    ]

    apart : (a b : Bool) → a ≡ false → b ≡ false → (a || b) ≡ false
    apart a b p q = ground arith

count_of_none : (x : String) (xs : List String) → mem_text x xs ≡ false → count_name x xs ≡ 0
count_of_none x [] h = refl
count_of_none x (y ∷ ys) h = elim (Bool-cases (y =s= x)) [
  | inl e ↦
      let turned = ap (λ t. x =s= t) ((eq_iff y x).0 e) ∙ is_same_refl x in
      absurd (found (x =s= y) (mem_text x ys) turned h)
  | inr e ↦ rw e (count_of_none x ys (rest (x =s= y) (mem_text x ys) h))
]
  where
    found : (a b : Bool) → a ≡ true → (a || b) ≡ false → ⊥
    found a b p q = ground arith

    rest : (a b : Bool) → (a || b) ≡ false → b ≡ false
    rest a b q = ground arith

-- No text is counted twice in a list of distinct ones.
pub count-Distinct : (z : String) (xs : List String) → Distinct xs → count_name z xs ≤ 1
count-Distinct z [] d = omega arith
count-Distinct z (x ∷ xs) d = elim (Bool-cases (x =s= z)) [
  | inl e ↦ rw e (once ((eq_iff x z).0 e))
  | inr e ↦ rw e (count-Distinct z xs d.1)
]
  where
    once : x ≡ z → suc (count_name z xs) ≤ 1
    once e =
        let zero_more = ap (λ t. count_name t xs) (sym e) ∙ count_of_none x xs d.0 in omega arith

count-cons : (z x : String) (xs : List String) → count_name z xs ≤ count_name z (x ∷ xs)
count-cons z x xs = elim (Bool-cases (x =s= z)) [
  | inl e ↦ rw e (omega arith)
  | inr e ↦ rw e (omega arith)
]

pub Distinct-of_count : (xs : List String) → All (λ z. count_name z xs ≤ 1) xs → Distinct xs
Distinct-of_count [] h = tt
Distinct-of_count (x ∷ xs) h = (
  none_of_count x xs (head (rw (is_same_refl x) at h.0)),
  Distinct-of_count xs (
      All-map_imp _ (λ z. count_name z xs ≤ 1) xs
        (λ z p. weaken (count_name z xs) (count_name z (x ∷ xs)) (count-cons z x xs) p) h.1),
)
  where
    head : suc (count_name x xs) ≤ 1 → count_name x xs ≡ 0
    head p = omega arith

    weaken : (a b : ℕ) → a ≤ b → b ≤ 1 → a ≤ 1
    weaken a b p q = omega arith
