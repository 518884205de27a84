-- ===== src/Comparison.antt =====
-- Comparing two dictionaries of resources by their ownership IDs, as domain/diff.py and
-- domain/verification.py do.
pub mod Laws
pub mod Agreement
use google_workspace_gmail_a.Common.{
  ℕ, Bool, true, false, not, Option, none, some, List, [], ◌∷◌, leb, select, sort_by, Dict, keys,
  contains, lookup, decided,
}

module _ {ℓ} {V : Type ℓ} where
  -- `sorted(a.keys() - b, key=str)`
  abbrev pub ids_only_in : Dict V → Dict V → List ℕ
  ids_only_in a b = sort_by leb (select (λ k. not (contains k b)) (keys a))

  -- `sorted(a.keys() & b, key=str)`
  abbrev pub ids_in_both : Dict V → Dict V → List ℕ
  ids_in_both a b = sort_by leb (select (λ k. contains k b) (keys a))

  -- `d[key] for key in ids`
  abbrev pub gather : Dict V → List ℕ → List V
  gather d [] = []
  gather d (k ∷ ks) = elim (lookup k d) [ none ↦ gather d ks | some v ↦ v ∷ gather d ks ]

module _ {ℓ} {V : Type ℓ} (equal : Discrete V) where
  abbrev pub differ : Option V → Option V → Bool
  differ none y = false
  differ (some a) none = false
  differ (some a) (some b) = not (decided (equal a b))

  -- `a[key] != b[key]`
  abbrev pub differ_at : Dict V → Dict V → ℕ → Bool
  differ_at a b k = differ (lookup k a) (lookup k b)

  -- the ids in both whose resources are not equal
  abbrev pub ids_changed : Dict V → Dict V → List ℕ
  ids_changed a b = select (differ_at a b) (ids_in_both a b)
