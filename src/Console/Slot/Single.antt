-- ===== src/Console/Slot/Single.antt =====
-- console/coordinator.py: storing a run keeps at most one run active.
use google_workspace_gmail_a.Common.{
  String, Bool, true, false, not, ◌&&◌, ◌||◌, some, [], ◌∷◌, ◌≡◌, refl, sym, ap, ◌∙◌, subst, inl,
  inr, ◌⊎◌, find, put, find-put_self, find-put_other, Bool-cases, TextDict, eq_iff, =s=_symmetric,
  ◌=s=◌,
}
use google_workspace_gmail_a.Console.Runs.{ConsoleRun, is_active}
use google_workspace_gmail_a.Console.Coordinator.Previewing.{has_conflict}
use google_workspace_gmail_a.Console.Change.{IsKeyed}

-- Without a conflict no other run is active.
conflict_free :
    (id j : String) (run : ConsoleRun) (runs : TextDict ConsoleRun)
    → IsKeyed runs
    → has_conflict id runs ≡ false
    → (id =s= j) ≡ false
    → find j runs ≡ some run
    → is_active run.phase ≡ false
conflict_free id j run [] keyed clear apart found = cc
conflict_free id j run ((k, other) ∷ runs) keyed clear apart found =
    let (first, later) =
      parts (other.run_id =s= id) (is_active other.phase) (has_conflict id runs) clear in
    elim (Bool-cases (k =s= j)) [
      | inl e ↦
          let here : some other ≡ some run = rw e at found in
          let same : other ≡ run = cc in
          let key : (other.run_id =s= id) ≡ false =
            ap (λ x. x =s= id) (keyed.0 ∙ (eq_iff k j).0 e) ∙ =s=_symmetric j id ∙ apart in
          subst (λ r. is_active r.phase ≡ false) same
            (elim first [ inl own ↦ let clash = sym own ∙ key in cc | inr quiet ↦ quiet ])
      | inr e ↦ conflict_free id j run runs keyed.1 later apart (rw e at found)
    ]
  where
    parts : (b c d : Bool) → ((not b && c) || d) ≡ false → ((b ≡ true) ⊎ (c ≡ false)) × (d ≡ false)
    parts true c d h = (inl refl, h)
    parts false false d h = (inr refl, h)
    parts false true d h = cc

-- Why storing a run leaves at most one active run.
pub data Fits (runs : TextDict ConsoleRun) (run : ConsoleRun) : Type 0 where
  quiet : is_active run.phase ≡ false → Fits runs run
  held :
      (old : ConsoleRun)
      → find run.run_id runs ≡ some old
      → is_active old.phase ≡ true
      → Fits runs run
  alone : has_conflict run.run_id runs ≡ false → Fits runs run

-- There is no second active run.
abbrev pub IsOnly : TextDict ConsoleRun → Type 0
IsOnly runs =
    (i j : String) (a b : ConsoleRun)
    → find i runs ≡ some a
    → find j runs ≡ some b
    → is_active a.phase ≡ true
    → is_active b.phase ≡ true
    → i ≡ j

pub put-IsOnly :
    (runs : TextDict ConsoleRun) (run : ConsoleRun)
    → IsKeyed runs
    → IsOnly runs
    → Fits runs run
    → IsOnly (put run.run_id run runs)
put-IsOnly runs run keyed only fits i j a b at_i at_j active_a active_b =
    elim (Bool-cases (run.run_id =s= i)) [
      | inl e ↦ elim (Bool-cases (run.run_id =s= j)) [
        | inl f ↦ sym ((eq_iff run.run_id i).0 e) ∙ (eq_iff run.run_id j).0 f
        | inr f ↦
            sym ((eq_iff run.run_id i).0 e)
            ∙ against j b f (old j b f at_j) active_b (stored i a e at_i active_a)
      ]
      | inr e ↦ elim (Bool-cases (run.run_id =s= j)) [
        | inl f ↦
            sym (against i a e (old i a e at_i) active_a (stored j b f at_j active_b))
            ∙ (eq_iff run.run_id j).0 f
        | inr f ↦ only i j a b (old i a e at_i) (old j b f at_j) active_a active_b
      ]
    ]
  where
    old :
        (k : String) (c : ConsoleRun)
        → (run.run_id =s= k) ≡ false
        → find k (put run.run_id run runs) ≡ some c
        → find k runs ≡ some c
    old k c apart found = sym (find-put_other k run.run_id run runs apart) ∙ found

    stored :
        (k : String) (c : ConsoleRun)
        → (run.run_id =s= k) ≡ true
        → find k (put run.run_id run runs) ≡ some c
        → is_active c.phase ≡ true
        → is_active run.phase ≡ true
    stored k c own found active =
        let key = (eq_iff run.run_id k).0 own in
        let equal : some run ≡ some c =
          sym (find-put_self run.run_id run runs)
          ∙ ap (λ x. find x (put run.run_id run runs)) key
          ∙ found in
        let same : run ≡ c = cc in subst (λ r. is_active r.phase ≡ true) (sym same) active

    against :
        (k : String) (c : ConsoleRun)
        → (run.run_id =s= k) ≡ false
        → find k runs ≡ some c
        → is_active c.phase ≡ true
        → is_active run.phase ≡ true
        → run.run_id ≡ k
    against k c apart found active own = elim fits [
      | quiet q ↦ let clash = sym own ∙ q in cc
      | held before at_own was ↦ only run.run_id k before c at_own found was active
      | alone clear ↦
          let clash = sym active ∙ conflict_free run.run_id k c runs keyed clear apart found in cc
    ]
