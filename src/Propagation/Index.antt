-- ===== src/Propagation/Index.antt =====
-- application/propagation_service.py: the dictionary of the stored records, and storing it again.
use mathlib.Core.List.{Memᴰ, append-nil}
use google_workspace_gmail_a.Common.{
  String, Bool, false, ◌||◌, none, some, List, [], ◌∷◌, map, ◌≡◌, refl, sym, ap, ◌∙◌, subst, inl,
  inr, TextDict, find, put, find-put_self, find-put_other, mem_text, Distinct, Bool-cases,
  Option-cases, if_cases, eq_iff, ◌=s=◌, =s=_symmetric, leb_text, Memᴰ-sort_by, DistinctBy-sort_by,
  mem_by-sort_by, arith,
}
use google_workspace_gmail_a.Schemas.Operations.{PropagationRecord}
use google_workspace_gmail_a.Propagation.{Records, index_onto_runs, index_runs, by_run}

abbrev run_of : PropagationRecord → String
run_of r = r.run_id

abbrev Store : Type 0
Store = TextDict PropagationRecord

abbrev runs : Store → List String
runs d = map (λ e. e.0) d

abbrev stored : Store → Records
stored d = map (λ e. e.1) d

-- Each record stands once, under its own run.
abbrev pub IsIndex : Store → Type 0
IsIndex [] = Unit
IsIndex ((k, r) ∷ d) = (k ≡ r.run_id) × (mem_text k (runs d) ≡ false) × IsIndex d

or_false : (a b : Bool) → (a || b) ≡ false → (a ≡ false) × (b ≡ false)
or_false a b h = ground arith

both_false : (a b : Bool) → a ≡ false → b ≡ false → (a || b) ≡ false
both_false a b p q = ground arith

mem_text-put :
    (j k : String) (r : PropagationRecord) (d : Store)
    → (j =s= k) ≡ false
    → mem_text j (runs d) ≡ false
    → mem_text j (runs (put k r d)) ≡ false
mem_text-put j k r [] h m = both_false (j =s= k) false h refl
mem_text-put j k r ((i, q) ∷ d) h m =
    let (here, rest) = or_false (j =s= i) (mem_text j (runs d)) m in
    elim (Bool-cases (i =s= k)) [
      | inl e ↦ rw e m
      | inr e ↦
          rw e (
            both_false (j =s= i) (mem_text j (runs (put k r d))) here (mem_text-put j k r d h rest))
    ]

pub put-IsIndex :
    (k : String) (r : PropagationRecord) (d : Store)
    → k ≡ r.run_id
    → IsIndex d
    → IsIndex (put k r d)
put-IsIndex k r [] e h = (e, refl, tt)
put-IsIndex k r ((i, q) ∷ d) e h = elim (Bool-cases (i =s= k)) [
  | inl p ↦ rw p ((eq_iff i k).0 p ∙ e, h.1, h.2)
  | inr p ↦ rw p (h.0, mem_text-put i k r d p h.1, put-IsIndex k r d e h.2)
]

index_onto_runs-IsIndex : (d : Store) (rs : Records) → IsIndex d → IsIndex (index_onto_runs d rs)
index_onto_runs-IsIndex d [] h = h
index_onto_runs-IsIndex d (r ∷ rs) h =
    index_onto_runs-IsIndex (put r.run_id r d) rs (put-IsIndex r.run_id r d refl h)

pub index_runs-IsIndex : (rs : Records) → IsIndex (index_runs rs)
index_runs-IsIndex rs = index_onto_runs-IsIndex [] rs tt

pub find-run :
    (k : String) (r : PropagationRecord) (d : Store) → IsIndex d → find k d ≡ some r → r.run_id ≡ k
find-run k r [] h e = cc
find-run k r ((i, q) ∷ d) h e = elim (if_cases (i =s= k) e) [
  | inl (p, f) ↦ let same : q ≡ r = cc in ap run_of (sym same) ∙ sym h.0 ∙ (eq_iff i k).0 p
  | inr (p, f) ↦ find-run k r d h.2 f
]

find-Memᴰ : (k : String) (r : PropagationRecord) (d : Store) → find k d ≡ some r → Memᴰ r (stored d)
find-Memᴰ k r [] e = cc
find-Memᴰ k r ((i, q) ∷ d) e = elim (if_cases (i =s= k) e) [
  | inl (p, f) ↦ Memᴰ.head (found q f)
  | inr (p, f) ↦ Memᴰ.tail (find-Memᴰ k r d f)
]
  where
    found : (q : PropagationRecord) → some q ≡ some r → r ≡ q
    found q f = cc

mem_text-stored :
    (k : String) (d : Store) → IsIndex d → mem_text k (map run_of (stored d)) ≡ mem_text k (runs d)
mem_text-stored k [] h = refl
mem_text-stored k ((i, q) ∷ d) h =
    ap (λ t. k =s= t || mem_text k (map run_of (stored d))) (sym h.0)
    ∙ ap (λ b. k =s= i || b) (mem_text-stored k d h.2)

mem_text-find : (k : String) (d : Store) → find k d ≡ none → mem_text k (runs d) ≡ false
mem_text-find k [] e = refl
mem_text-find k ((i, q) ∷ d) e = elim (if_cases (i =s= k) e) [
  | inl (p, f) ↦ cc
  | inr (p, f) ↦
      both_false (k =s= i) (mem_text k (runs d)) (=s=_symmetric k i ∙ p) (mem_text-find k d f)
]

stored-Distinct : (d : Store) → IsIndex d → Distinct (map run_of (stored d))
stored-Distinct [] h = tt
stored-Distinct ((i, q) ∷ d) h = (
  ap (λ t. mem_text t (map run_of (stored d))) (sym h.0) ∙ mem_text-stored i d h.2 ∙ h.1,
  stored-Distinct d h.2,
)

find-index_onto_other :
    (k : String) (d : Store) (rs : Records)
    → mem_text k (map run_of rs) ≡ false
    → find k (index_onto_runs d rs) ≡ find k d
find-index_onto_other k d [] h = refl
find-index_onto_other k d (r ∷ rs) h =
    let (here, rest) = or_false (k =s= r.run_id) (mem_text k (map run_of rs)) h in
    find-index_onto_other k (put r.run_id r d) rs rest
    ∙ find-put_other k r.run_id r d (=s=_symmetric r.run_id k ∙ here)

find-index_onto :
    (r : PropagationRecord) (d : Store) (rs : Records)
    → Distinct (map run_of rs)
    → Memᴰ r rs
    → find r.run_id (index_onto_runs d rs) ≡ some r
find-index_onto r d [] h m = elim m [ ]
find-index_onto r d (q ∷ rs) h (Memᴰ.head e) =
    rw e (find-index_onto_other q.run_id (put q.run_id q d) rs h.0 ∙ find-put_self q.run_id q d)
find-index_onto r d (q ∷ rs) h (Memᴰ.tail m) = find-index_onto r (put q.run_id q d) rs h.1 m

abbrev run_leb : PropagationRecord → PropagationRecord → Bool
run_leb r q = leb_text r.run_id q.run_id

-- Storing the records of a dictionary and reading them again finds what it held.
pub find-index_runs :
    (k : String) (d : Store) → IsIndex d → find k (index_runs (by_run d)) ≡ find k d
find-index_runs k d h = elim (Option-cases (find k d)) [
  | inl e ↦
      find-index_onto_other k [] (by_run d) (
        subst (λ ks. mem_text k ks ≡ false) (append-nil (map run_of (by_run d)))
          (mem_by-sort_by ◌=s=◌ =s=_symmetric run_of run_leb [] k (stored d)
            ∙ ap (mem_text k) (append-nil (map run_of (stored d)))
            ∙ mem_text-stored k d h
            ∙ mem_text-find k d e))
      ∙ sym e
  | inr (r, e) ↦
      ap (λ i. find i (index_runs (by_run d))) (sym (find-run k r d h e))
      ∙ find-index_onto r [] (by_run d)
          (subst Distinct (append-nil (map run_of (by_run d))) (
            DistinctBy-sort_by ◌=s=◌ =s=_symmetric run_of run_leb [] (stored d)
              (subst Distinct (sym (append-nil (map run_of (stored d)))) (stored-Distinct d h))))
          (Memᴰ-sort_by run_leb r (stored d) (find-Memᴰ k r d e))
      ∙ sym e
]
