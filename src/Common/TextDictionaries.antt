-- ===== src/Common/TextDictionaries.antt =====
-- A Python dict keyed by texts, in insertion order.
use Prim.Native.String.{String}
use mathlib.Core.Path.{◌≡◌, refl, ap, ◌∙◌}
use mathlib.Core.Logic.{inl, inr}
use mathlib.Core.Bool.{true, false, not}
use mathlib.Core.Option.{Option, none, some}
use mathlib.Core.List.{List, [], ◌∷◌}
use text.Mathlib.TextEquality.{eq_iff}
use native.Mathlib.Omega.{arith}
use text.Mathlib.TextPositions.{eq_refl}
use google_workspace_gmail_a.Common.Tests.{if◌then◌else◌, Bool-cases}
use google_workspace_gmail_a.Common.Lists.{select}
use google_workspace_gmail_a.Common.Text.{◌=s=◌}

pub =s=_symmetric : (s t : String) → (s =s= t) ≡ (t =s= s)
=s=_symmetric s t = ground (arith, eq_iff s t, eq_iff t s)

abbrev pub TextDict {ℓ} : Type ℓ → Type ℓ
TextDict V = List (String × V)

module _ {ℓ} {V : Type ℓ} where
  -- `d.get(k)`
  abbrev pub find : String → TextDict V → Option V
  find k [] = none
  find k ((j, v) ∷ d) = if j =s= k then some v else find k d

  -- `d[k] = v`: in place, or at the end
  abbrev pub put : String → V → TextDict V → TextDict V
  put k v [] = (k, v) ∷ []
  put k v ((j, w) ∷ d) = if j =s= k then (j, v) ∷ d else (j, w) ∷ put k v d

  -- `d.pop(k, None)`
  abbrev pub drop : String → TextDict V → TextDict V
  drop k d = select (λ e. not (e.0 =s= k)) d

  pub find-put_self : (k : String) (v : V) (d : TextDict V) → find k (put k v d) ≡ some v
  find-put_self k v [] = let same : (k =s= k) ≡ true = eq_refl k in rw same
  find-put_self k v ((j, w) ∷ d) = elim (Bool-cases (j =s= k)) [
    | inl e ↦ rw (e, e)
    | inr e ↦ rw (e, e) (find-put_self k v d)
  ]

  -- Another key is found as before.
  pub find-put_other :
      (j k : String) (v : V) (d : TextDict V) → (k =s= j) ≡ false → find j (put k v d) ≡ find j d
  find-put_other j k v [] h = rw h
  find-put_other j k v ((i, w) ∷ d) h = elim (Bool-cases (i =s= k)) [
    | inl e ↦
        let miss : (i =s= j) ≡ false = ap (λ t. t =s= j) ((eq_iff i k).0 e) ∙ h in rw (e, miss)
    | inr e ↦ rw e (ap (λ rest. if i =s= j then some w else rest) (find-put_other j k v d h))
  ]

  pub find-drop_self : (k : String) (d : TextDict V) → find k (drop k d) ≡ none
  find-drop_self k [] = refl
  find-drop_self k ((j, w) ∷ d) = elim (Bool-cases (j =s= k)) [
    | inl e ↦ rw e (find-drop_self k d)
    | inr e ↦ rw (e, e) (find-drop_self k d)
  ]

  pub find-drop_other :
      (j k : String) (d : TextDict V) → (k =s= j) ≡ false → find j (drop k d) ≡ find j d
  find-drop_other j k [] h = refl
  find-drop_other j k ((i, w) ∷ d) h = elim (Bool-cases (i =s= k)) [
    | inl e ↦
        let miss : (i =s= j) ≡ false = ap (λ t. t =s= j) ((eq_iff i k).0 e) ∙ h in
        rw (e, miss) (find-drop_other j k d h)
    | inr e ↦ rw e (ap (λ rest. if i =s= j then some w else rest) (find-drop_other j k d h))
  ]
