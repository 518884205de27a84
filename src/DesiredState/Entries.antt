-- ===== src/DesiredState/Entries.antt =====
-- The texts of combined, filtered and sorted entries.
use mathlib.Core.List.{Memᴰ, append-nil}
use google_workspace_gmail_a.Common.{
  String, Bool, true, false, not, ◌||◌, List, [], ◌∷◌, ◌++◌, ◌≡◌, refl, sym, ap, subst, ◌∙◌, arith,
  All, map, Distinct, mem_text, ◌=s=◌, eq_iff, select, sort_by, mem_by-sort_by, DistinctBy-sort_by,
  Bool-cases, inl, inr, All-self, All-map_imp,
}
use google_workspace_gmail_a.Schemas.Resources.{AddressEntry}
use google_workspace_gmail_a.DesiredState.WorkingSets.{sorted_entries, entry_leb}
use google_workspace_gmail_a.DesiredState.Create.{combined}

abbrev pub value_of : AddressEntry → String
value_of e = e.normalized_value

abbrev pub values_of : List AddressEntry → List String
values_of = map value_of

=s=_symmetric : (s t : String) → (s =s= t) ≡ (t =s= s)
=s=_symmetric s t = ground (arith, eq_iff s t, eq_iff t s)

or_swap : (a b c : Bool) → ((a || b) || c) ≡ (a || (b || c))
or_swap a b c = ground arith

mem-append :
    (v : String) (xs ys : List AddressEntry)
    → mem_text v (values_of (xs ++ ys)) ≡ (mem_text v (values_of xs) || mem_text v (values_of ys))
mem-append v [] ys = refl
mem-append v (x ∷ xs) ys =
    ap (λ b. v =s= value_of x || b) (mem-append v xs ys)
    ∙ sym (or_swap (v =s= value_of x) (mem_text v (values_of xs)) (mem_text v (values_of ys)))

-- The entries that `combined` adds, judged by the texts that were there.
abbrev pub newcomers : List String → List AddressEntry → List AddressEntry
newcomers old es = select (λ e. not (mem_text e.normalized_value old)) es

pub mem-newcomers :
    (v : String) (old : List String) (es : List AddressEntry)
    → mem_text v old ≡ false
    → mem_text v (values_of (newcomers old es)) ≡ mem_text v (values_of es)
mem-newcomers v old [] h = refl
mem-newcomers v old (e ∷ es) h = elim (Bool-cases (mem_text e.normalized_value old)) [
  | inl p ↦ rw p (mem-newcomers v old es h ∙ skip (v =s= e.normalized_value) refl p)
  | inr p ↦ rw p (ap (λ b. v =s= value_of e || b) (mem-newcomers v old es h))
]
  where
    skip :
        (b : Bool)
        → (v =s= e.normalized_value) ≡ b
        → mem_text e.normalized_value old ≡ true
        → mem_text v (values_of es) ≡ (b || mem_text v (values_of es))
    skip false q p = refl
    skip true q p =
        let same : v ≡ e.normalized_value = (eq_iff v e.normalized_value).0 q in
        let clash : mem_text v old ≡ true = subst (λ t. mem_text t old ≡ true) (sym same) p in cc

-- The texts of the combined entries are those of both.
pub mem-combined :
    (v : String) (old new : List AddressEntry)
    → mem_text v (values_of (combined old new))
      ≡ (mem_text v (values_of old) || mem_text v (values_of new))
mem-combined v old new = elim (Bool-cases (mem_text v (values_of old))) [
  | inl p ↦ mem-append v old (newcomers (values_of old) new) ∙ rw p
  | inr p ↦
      mem-append v old (newcomers (values_of old) new)
      ∙ ap (λ b. mem_text v (values_of old) || b) (mem-newcomers v (values_of old) new p)
]

pub mem-sorted_entries :
    (v : String) (es : List AddressEntry)
    → mem_text v (values_of (sorted_entries es)) ≡ mem_text v (values_of es)
unfolding sorted_entries
mem-sorted_entries v es =
    ap (mem_text v) (sym (append-nil (values_of (sort_by entry_leb es))))
    ∙ mem_by-sort_by ◌=s=◌ =s=_symmetric value_of entry_leb [] v es
    ∙ ap (mem_text v) (append-nil (values_of es))

pub Distinct-sorted_entries :
    (es : List AddressEntry) → Distinct (values_of es) → Distinct (values_of (sorted_entries es))
unfolding sorted_entries
Distinct-sorted_entries es d = subst Distinct (append-nil (values_of (sort_by entry_leb es))) (
    DistinctBy-sort_by ◌=s=◌ =s=_symmetric value_of entry_leb [] es
      (subst Distinct (sym (append-nil (values_of es))) d))

both_false : (a b : Bool) → a ≡ false → b ≡ false → (a || b) ≡ false
both_false a b p q = ground arith

Distinct-newcomers :
    (old : List String) (es : List AddressEntry)
    → Distinct (values_of es)
    → Distinct (values_of (newcomers old es))
Distinct-newcomers old [] d = tt
Distinct-newcomers old (e ∷ es) d = elim (Bool-cases (mem_text e.normalized_value old)) [
  | inl p ↦ rw p (Distinct-newcomers old es d.1)
  | inr p ↦ rw p (mem-newcomers (value_of e) old es p ∙ d.0, Distinct-newcomers old es d.1)
]

pub newcomers-apart :
    (v : String) (old : List String) (es : List AddressEntry)
    → mem_text v old ≡ true
    → mem_text v (values_of (newcomers old es)) ≡ false
newcomers-apart v old [] h = refl
newcomers-apart v old (e ∷ es) h = elim (Bool-cases (mem_text e.normalized_value old)) [
  | inl p ↦ rw p (newcomers-apart v old es h)
  | inr p ↦ rw p (
      both_false (v =s= value_of e) _ (differs (v =s= value_of e) refl p)
        (newcomers-apart v old es h))
]
  where
    differs : (b : Bool) → (v =s= value_of e) ≡ b → mem_text (value_of e) old ≡ false → b ≡ false
    differs false q p = refl
    differs true q p =
        let same : v ≡ value_of e = (eq_iff v (value_of e)).0 q in
        let clash : mem_text v old ≡ false = subst (λ t. mem_text t old ≡ false) (sym same) p in cc

Distinct-append :
    (xs ys : List AddressEntry)
    → Distinct (values_of xs)
    → Distinct (values_of ys)
    → All (λ x. mem_text (value_of x) (values_of ys) ≡ false) xs
    → Distinct (values_of (xs ++ ys))
Distinct-append [] ys d e a = e
Distinct-append (x ∷ xs) ys d e a = (
  mem-append (value_of x) xs ys ∙ both_false (mem_text (value_of x) (values_of xs)) _ d.0 a.0,
  Distinct-append xs ys d.1 e a.1,
)

mem_of_Memᴰ :
    (x : AddressEntry) (xs : List AddressEntry)
    → Memᴰ x xs
    → mem_text (value_of x) (values_of xs) ≡ true
mem_of_Memᴰ x [] m = elim m [ ]
mem_of_Memᴰ x (y ∷ xs) (Memᴰ.head e) =
    rw (ap value_of e) (ground (arith, eq_iff (value_of y) (value_of y)))
mem_of_Memᴰ x (y ∷ xs) (Memᴰ.tail m) = rw (mem_of_Memᴰ x xs m) (ground arith)

pub Distinct-combined :
    (old new : List AddressEntry)
    → Distinct (values_of old)
    → Distinct (values_of new)
    → Distinct (values_of (combined old new))
Distinct-combined old new d e =
    Distinct-append old (newcomers (values_of old) new) d (Distinct-newcomers (values_of old) new e)
      (All-map_imp (λ x. Memᴰ x old) _ old
        (λ x m. newcomers-apart (value_of x) (values_of old) new (mem_of_Memᴰ x old m))
        (All-self old))
