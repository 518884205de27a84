-- ===== src/Impact/Counted.antt =====
-- What the number of affected entries in application/impact_service.py counts.
use google_workspace_gmail_a.Common.{
  ℕ, suc, ◌+◌, String, Bool, true, false, ◌||◌, none, List, [], ◌∷◌, ◌++◌, ◌≡◌, refl, sym, ap, ◌∙◌,
  ◌↔◌, inl, inr, ◌==◌, ◌=s=◌, length, Dict, keys, lookup, set_by, mem_by, mem_text, Bool-cases,
  eq_iff, eq_refl, arith, All, All-map_imp,
}
use google_workspace_gmail_a.Schemas.State.{ChangeSet}
use google_workspace_gmail_a.Impact.Values.{has_value, value_sets-has_value}
use google_workspace_gmail_a.Impact.{
  value_sets, set_or_empty, set_at, without, difference_count, sum_over, count_between,
  affected_entry_count,
}

zero_of_sum : (a b : ℕ) → a + b ≡ 0 → (a ≡ 0) × (b ≡ 0)
zero_of_sum a b h = (omega arith, omega arith)

-- When nothing of `a` is missing in `b`, its members are members of `b`.
mem-without :
    (v : String) (a b : List String)
    → length (without a b) ≡ 0
    → mem_text v a ≡ true
    → mem_text v b ≡ true
mem-without v [] b h m = cc
mem-without v (x ∷ a) b h m = elim (Bool-cases (mem_text x b)) [
  | inl e ↦ elim (Bool-cases (v =s= x)) [
    | inl p ↦ ap (λ t. mem_text t b) ((eq_iff v x).0 p) ∙ e
    | inr p ↦ mem-without v a b (rw e at h) (rest (v =s= x) (mem_text v a) p m)
  ]
  | inr e ↦ absurd (counted (length (without a b)) (rw e at h))
]
  where
    rest : (p q : Bool) → p ≡ false → (p || q) ≡ true → q ≡ true
    rest p q e f = ground arith

    counted : (n : ℕ) → suc n ≡ 0 → ⊥
    counted n e = omega arith

-- Two sets that differ in no element have the same members.
same_members :
    (v : String) (a b : List String) → difference_count a b ≡ 0 → mem_text v a ≡ mem_text v b
same_members v a b h =
    let (p, q) = zero_of_sum (length (without a b)) (length (without b a)) h in
    agree (mem_text v a) (mem_text v b) (mem-without v a b p) (mem-without v b a q)
  where
    agree : (x y : Bool) → (x ≡ true → y ≡ true) → (y ≡ true → x ≡ true) → x ≡ y
    agree true y f g = sym (f refl)
    agree false true f g = g refl
    agree false false f g = refl

without_none : (a b : List String) → All (λ v. mem_text v b ≡ true) a → length (without a b) ≡ 0
without_none [] b h = refl
without_none (x ∷ a) b h = rw h.0 (without_none a b h.1)

All-mem : (a : List String) → All (λ v. mem_text v a ≡ true) a
All-mem [] = tt
All-mem (x ∷ a) = (
  left (x =s= x) (mem_text x a) (eq_refl x),
  All-map_imp _ (λ v. mem_text v (x ∷ a) ≡ true) a (λ v m. right (v =s= x) (mem_text v a) m)
      (All-mem a),
)
  where
    left : (p q : Bool) → p ≡ true → (p || q) ≡ true
    left p q e = ground arith

    right : (p q : Bool) → q ≡ true → (p || q) ≡ true
    right p q e = ground arith

no_difference :
    (a b : List String) → ((v : String) → mem_text v a ≡ mem_text v b) → difference_count a b ≡ 0
no_difference a b h =
    let p =
      without_none a b
        (All-map_imp _ (λ v. mem_text v b ≡ true) a (λ v m. sym (h v) ∙ m) (All-mem a)) in
    let q =
      without_none b a (All-map_imp _ (λ v. mem_text v a ≡ true) b (λ v m. h v ∙ m) (All-mem b)) in
    omega arith

mem_by-set_by : (k : ℕ) (ids : List ℕ) → mem_by ◌==◌ k (set_by ◌==◌ ids) ≡ mem_by ◌==◌ k ids
mem_by-set_by k [] = refl
mem_by-set_by k (i ∷ ids) = elim (Bool-cases (mem_by ◌==◌ i ids)) [
  | inl e ↦ rw e (mem_by-set_by k ids ∙ sym (known (k == i) e refl))
  | inr e ↦ rw e (ap (λ b. k == i || b) (mem_by-set_by k ids))
]
  where
    known :
        (b : Bool)
        → mem_by ◌==◌ i ids ≡ true
        → (k == i) ≡ b
        → ((k == i) || mem_by ◌==◌ k ids) ≡ mem_by ◌==◌ k ids
    known true e p =
        let same : k ≡ i = ground arith in
        let inside : mem_by ◌==◌ k ids ≡ true = ap (λ j. mem_by ◌==◌ j ids) same ∙ e in
        rw (p, inside)
    known false e p = rw p

mem_by-append :
    (k : ℕ) (xs ys : List ℕ) → mem_by ◌==◌ k (xs ++ ys) ≡ (mem_by ◌==◌ k xs || mem_by ◌==◌ k ys)
mem_by-append k [] ys = refl
mem_by-append k (x ∷ xs) ys =
    ap (λ b. k == x || b) (mem_by-append k xs ys)
    ∙ assoc (k == x) (mem_by ◌==◌ k xs) (mem_by ◌==◌ k ys)
  where
    assoc : (a b c : Bool) → (a || (b || c)) ≡ ((a || b) || c)
    assoc a b c = ground arith

lookup_no_key :
    {V : Type 0} (k : ℕ) (d : Dict V) → mem_by ◌==◌ k (keys d) ≡ false → lookup k d ≡ none
lookup_no_key k [] h = refl
lookup_no_key k ((j, v) ∷ d) h = ground (arith, lookup_no_key k d)

sum_over_zero : (count : ℕ → ℕ) (ids : List ℕ) → ((id : ℕ) → count id ≡ 0) → sum_over count ids ≡ 0
sum_over_zero count [] h = refl
sum_over_zero count (id ∷ ids) h =
    let here = h id in let rest = sum_over_zero count ids h in omega arith

zero_at :
    (count : ℕ → ℕ) (k : ℕ) (ids : List ℕ)
    → sum_over count ids ≡ 0
    → mem_by ◌==◌ k ids ≡ true
    → count k ≡ 0
zero_at count k [] h m = cc
zero_at count k (i ∷ ids) h m =
    let (here, rest) = zero_of_sum (count i) (sum_over count ids) h in
    elim (Bool-cases (k == i)) [
      | inl e ↦ let same : k ≡ i = ground arith in ap count same ∙ here
      | inr e ↦ zero_at count k ids rest (tail (k == i) (mem_by ◌==◌ k ids) e m)
    ]
  where
    tail : (p q : Bool) → p ≡ false → (p || q) ≡ true → q ≡ true
    tail p q e f = ground arith

-- Under every id the address lists have the same normalized values before and after.
abbrev pub IsSameValues : ChangeSet → Type 0
IsSameValues c =
    (id : ℕ) (value : String)
    → has_value id value c.before_state.address_lists
      ≡ has_value id value c.expected_after.address_lists

module _ (before after : Dict (List String)) where
  count_between-same :
      count_between before after ≡ 0
      → (id : ℕ) (value : String)
      → mem_text value (set_at id before) ≡ mem_text value (set_at id after)
  count_between-same h id value = elim (Bool-cases (mem_by ◌==◌ id (keys before ++ keys after))) [
    | inl e ↦ same_members value (set_at id before) (set_at id after) (
        zero_at (λ k. difference_count (set_at k before) (set_at k after)) id
          (set_by ◌==◌ (keys before ++ keys after)) h
          (mem_by-set_by id (keys before ++ keys after) ∙ e))
    | inr e ↦
        let (no_before, no_after) =
          or_false (mem_by ◌==◌ id (keys before)) (mem_by ◌==◌ id (keys after))
            (sym (mem_by-append id (keys before) (keys after)) ∙ e) in
        ap (λ o. mem_text value (set_or_empty o))
          (lookup_no_key id before no_before ∙ sym (lookup_no_key id after no_after))
  ]
    where
      or_false : (a b : Bool) → (a || b) ≡ false → (a ≡ false) × (b ≡ false)
      or_false a b p = ground arith

-- A change set affects no entry exactly when, under every ownership id, the address lists hold the
-- same normalized values before and after, where the last list with an id counts and a list that is
-- missing holds none.
pub affected_entry_count-IsSameValues :
    (c : ChangeSet) → (affected_entry_count c ≡ 0) ↔ IsSameValues c
unfolding affected_entry_count
affected_entry_count-IsSameValues c = (
  λ h id value.
      sym (value_sets-has_value id value c.before_state.address_lists)
      ∙ count_between-same before after h id value
      ∙ value_sets-has_value id value c.expected_after.address_lists,
  λ same.
      sum_over_zero (λ k. difference_count (set_at k before) (set_at k after))
        (set_by ◌==◌ (keys before ++ keys after))
        (λ id. no_difference (set_at id before) (set_at id after) (λ value.
          value_sets-has_value id value c.before_state.address_lists
          ∙ same id value
          ∙ sym (value_sets-has_value id value c.expected_after.address_lists))),
)
  where
    before : Dict (List String)
    before = value_sets c.before_state.address_lists

    after : Dict (List String)
    after = value_sets c.expected_after.address_lists
