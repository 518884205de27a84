-- ===== src/Impact/Values.antt =====
-- The normalized values under an ownership id, read off the address lists themselves, and what the
-- sets of application/impact_service.py hold of them.
use google_workspace_gmail_a.Common.{
  ℕ, String, Bool, true, false, ◌||◌, ◌&&◌, List, [], ◌∷◌, map, ◌≡◌, refl, sym, ap, ◌∙◌, inl, inr,
  ◌==◌, ◌=s=◌, if◌then◌else◌, Dict, lookup, lookup-insert, insert, set_by, mem_text, any,
  Bool-cases, eq_iff, some,
}
use google_workspace_gmail_a.Schemas.Resources.{AddressEntry, ManagedAddressList}
use google_workspace_gmail_a.Impact.{value_set, value_sets, value_sets_onto, set_or_empty, set_at}

-- an entry of the list normalizes to the value
abbrev holds_value : String → ManagedAddressList → Bool
holds_value value l = any (λ e. value =s= e.normalized_value) l.entries

-- The last list with the ID holds the value; where there is none, nothing does.
abbrev pub has_value : ℕ → String → List ManagedAddressList → Bool
has_value id value [] = false
has_value id value (l ∷ ls) =
    let later = has_value id value ls in
    if any (λ m. m.ownership_id == id) ls
    then later
    else (l.ownership_id == id) && holds_value value l

mem_text-set_by : (v : String) (vs : List String) → mem_text v (set_by ◌=s=◌ vs) ≡ mem_text v vs
mem_text-set_by v [] = refl
mem_text-set_by v (x ∷ vs) = elim (Bool-cases (mem_text x vs)) [
  | inl e ↦ rw e (mem_text-set_by v vs ∙ sym (known (v =s= x) e refl))
  | inr e ↦ rw e (ap (λ b. v =s= x || b) (mem_text-set_by v vs))
]
  where
    known :
        (b : Bool)
        → mem_text x vs ≡ true
        → (v =s= x) ≡ b
        → ((v =s= x) || mem_text v vs) ≡ mem_text v vs
    known true e p =
        let inside : mem_text v vs ≡ true = ap (λ t. mem_text t vs) ((eq_iff v x).0 p) ∙ e in
        rw (p, inside)
    known false e p = rw p

mem_text-value_set :
    (value : String) (l : ManagedAddressList) → mem_text value (value_set l) ≡ holds_value value l
mem_text-value_set value l =
    mem_text-set_by value (map (λ e. e.normalized_value) l.entries) ∙ mapped l.entries
  where
    mapped :
        (es : List AddressEntry)
        → mem_text value (map (λ e. e.normalized_value) es)
          ≡ any (λ e. value =s= e.normalized_value) es
    mapped [] = refl
    mapped (e ∷ es) = ap (λ b. value =s= e.normalized_value || b) (mapped es)

value_sets_onto-has_value :
    (id : ℕ) (value : String) (ls : List ManagedAddressList) (d : Dict (List String))
    → mem_text value (set_at id (value_sets_onto d ls)) ≡ (
        if any (λ m. m.ownership_id == id) ls
        then has_value id value ls
        else mem_text value (set_at id d))
value_sets_onto-has_value id value [] d = refl
value_sets_onto-has_value id value (l ∷ ls) d =
    value_sets_onto-has_value id value ls (insert l.ownership_id (value_set l) d)
    ∙ settle (l.ownership_id == id) (any (λ m. m.ownership_id == id) ls) (has_value id value ls)
        (holds_value value l) (mem_text value (set_at id d)) _ (put_in (l.ownership_id == id) refl)
  where
    put_in :
        (b : Bool)
        → (l.ownership_id == id) ≡ b
        → mem_text value (set_at id (insert l.ownership_id (value_set l) d))
          ≡ (if b then holds_value value l else mem_text value (set_at id d))
    put_in true e =
        ap (λ o. mem_text value (set_or_empty o))
          (lookup-insert id l.ownership_id (value_set l) d
            ∙ ap (λ b. if b then some (value_set l) else lookup id d) e)
        ∙ mem_text-value_set value l
    put_in false e =
        ap (λ o. mem_text value (set_or_empty o))
          (lookup-insert id l.ownership_id (value_set l) d
            ∙ ap (λ b. if b then some (value_set l) else lookup id d) e)

    settle :
        (here there later mine old new : Bool)
        → new ≡ (if here then mine else old)
        → (if there then later else new)
          ≡ (if here || there then if there then later else here && mine else old)
    settle true true later mine old new e = refl
    settle true false later mine old new e = e
    settle false true later mine old new e = refl
    settle false false later mine old new e = e

-- What a set of the impact service holds under an id.
pub value_sets-has_value :
    (id : ℕ) (value : String) (ls : List ManagedAddressList)
    → mem_text value (set_at id (value_sets ls)) ≡ has_value id value ls
value_sets-has_value id value ls = value_sets_onto-has_value id value ls [] ∙ none_held ls
  where
    none_held :
        (ls : List ManagedAddressList)
        → (if any (λ m. m.ownership_id == id) ls then has_value id value ls else false)
          ≡ has_value id value ls
    none_held [] = refl
    none_held (l ∷ ls) =
        missing (l.ownership_id == id) (any (λ m. m.ownership_id == id) ls) (has_value id value ls)
          (holds_value value l)
      where
        missing :
            (here there later mine : Bool)
            → (if here || there then if there then later else here && mine else false)
              ≡ (if there then later else here && mine)
        missing true true later mine = refl
        missing true false later mine = refl
        missing false true later mine = refl
        missing false false later mine = refl
