-- ===== src/Common/TextOrder.antt =====
-- The order of texts by code points is total, transitive and antisymmetric.
use Prim.Native.Nat.{ℕ, Ordering}
use Prim.Native.Nat
use Prim.Native.Char.{Char, code}
use Prim.Native.String
use Prim.Native.String.{String}
use mathlib.Core.Path.{◌≡◌, refl, sym, ap, ◌∙◌}
use mathlib.Core.Bool.{Bool, true, false, ◌&&◌, ◌||◌}
use native.Mathlib.Omega.{arith}
use text.Mathlib.TextEquality.{codes_equal}
use google_workspace_gmail_a.Common.Tests.{ltb, ◌==◌}
use google_workspace_gmail_a.Common.Text.{leb_text}

by_order :
    (m n : ℕ) (o : Ordering)
    → (elim (String.then (Nat.compare m n) o) [ Ordering.gt ↦ false | _ ↦ true ])
      ≡ (ltb m n || (m == n && (elim o [ Ordering.gt ↦ false | _ ↦ true ])))
by_order m n o = ordered (Nat.compare m n)
  where
    ordered :
        (p : Ordering)
        → (elim (String.then p o) [ Ordering.gt ↦ false | _ ↦ true ]) ≡ (
            (elim p [ Ordering.lt ↦ true | _ ↦ false ])
            || ((elim p [ Ordering.eq ↦ true | _ ↦ false ])
                && (elim o [ Ordering.gt ↦ false | _ ↦ true ])))
    ordered Ordering.lt = refl
    ordered Ordering.eq = refl
    ordered Ordering.gt = refl

-- The first characters decide, and where they are equal, the rest.
leb_text-cons :
    (c d : Char) (s t : String)
    → leb_text (String.◌∷◌ c s) (String.◌∷◌ d t)
      ≡ (ltb (code c) (code d) || (code c == code d && leb_text s t))
leb_text-cons c d s t =
    ap (λ o. elim o [ Ordering.gt ↦ false | _ ↦ true ]) (String.compare.cons-cons c d s t)
    ∙ by_order (code c) (code d) (String.compare s t)

leb_text-nil : (d : Char) (t : String) → leb_text String.[] (String.◌∷◌ d t) ≡ true
leb_text-nil d t = ap (λ o. elim o [ Ordering.gt ↦ false | _ ↦ true ]) (String.compare.nil-cons d t)

cons-leb_text : (c : Char) (s : String) → leb_text (String.◌∷◌ c s) String.[] ≡ false
cons-leb_text c s =
    ap (λ o. elim o [ Ordering.gt ↦ false | _ ↦ true ]) (String.compare.cons-nil c s)

pub leb_text_total : (s t : String) → leb_text s t ≡ false → leb_text t s ≡ true
leb_text_total String.[] String.[] h = refl
leb_text_total String.[] (String.◌∷◌ d t) h = let clash = sym (leb_text-nil d t) ∙ h in cc
leb_text_total (String.◌∷◌ c s) String.[] h = leb_text-nil c s
leb_text_total (String.◌∷◌ c s) (String.◌∷◌ d t) h =
    leb_text-cons d c t s
    ∙ turned (code c) (code d) (leb_text s t) (leb_text t s) (leb_text_total s t)
        (sym (leb_text-cons c d s t) ∙ h)
  where
    turned :
        (m n : ℕ) (a b : Bool)
        → (a ≡ false → b ≡ true)
        → (ltb m n || (m == n && a)) ≡ false
        → (ltb n m || (n == m && b)) ≡ true
    turned m n a b rest g = ground arith

pub leb_text_trans :
    (s t u : String) → leb_text s t ≡ true → leb_text t u ≡ true → leb_text s u ≡ true
leb_text_trans String.[] t String.[] h k = refl
leb_text_trans String.[] t (String.◌∷◌ e u) h k = leb_text-nil e u
leb_text_trans (String.◌∷◌ c s) String.[] u h k = let clash = sym (cons-leb_text c s) ∙ h in cc
leb_text_trans (String.◌∷◌ c s) (String.◌∷◌ d t) String.[] h k =
    let clash = sym (cons-leb_text d t) ∙ k in cc
leb_text_trans (String.◌∷◌ c s) (String.◌∷◌ d t) (String.◌∷◌ e u) h k =
    leb_text-cons c e s u
    ∙ chained (code c) (code d) (code e) (leb_text s t) (leb_text t u) (leb_text s u)
        (leb_text_trans s t u) (sym (leb_text-cons c d s t) ∙ h) (sym (leb_text-cons d e t u) ∙ k)
  where
    chained :
        (l m n : ℕ) (a b r : Bool)
        → (a ≡ true → b ≡ true → r ≡ true)
        → (ltb l m || (l == m && a)) ≡ true
        → (ltb m n || (m == n && b)) ≡ true
        → (ltb l n || (l == n && r)) ≡ true
    chained l m n a b r rest g i = ground arith

pub leb_text_antisym : (s t : String) → leb_text s t ≡ true → leb_text t s ≡ true → s ≡ t
leb_text_antisym String.[] String.[] h k = refl
leb_text_antisym String.[] (String.◌∷◌ d t) h k = let clash = sym (cons-leb_text d t) ∙ k in cc
leb_text_antisym (String.◌∷◌ c s) String.[] h k = let clash = sym (cons-leb_text c s) ∙ h in cc
leb_text_antisym (String.◌∷◌ c s) (String.◌∷◌ d t) h k =
    let (codes, there, back) =
      both (code c) (code d) (leb_text s t) (leb_text t s) (sym (leb_text-cons c d s t) ∙ h)
        (sym (leb_text-cons d c t s) ∙ k) in
    ap (λ x. String.◌∷◌ x s) (codes_equal c d (same_compare (code c) (code d) codes))
    ∙ ap (λ x. String.◌∷◌ d x) (leb_text_antisym s t there back)
  where
    same_compare : (m n : ℕ) → m ≡ n → Nat.compare m n ≡ Ordering.eq
    same_compare m n e = ground arith

    both :
        (m n : ℕ) (a b : Bool)
        → (ltb m n || (m == n && a)) ≡ true
        → (ltb n m || (n == m && b)) ≡ true
        → (m ≡ n) × (a ≡ true) × (b ≡ true)
    both m n a b g i = ground arith
