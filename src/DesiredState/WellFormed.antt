-- ===== src/DesiredState/WellFormed.antt =====
-- domain/desired_state.py: the state that `calculate_desired_state` returns, and its last validator.
use google_workspace_gmail_a.Common.{
  ℕ, String, Bool, true, false, none, List, [], ◌∷◌, ◌++◌, ◌≡◌, refl, sym, subst, arith, ok, Dict,
  lookup, values, map, DistinctBy, Distinct, ◌==◌, ◌=s=◌, leb_text, repeats_by_iff, has_duplicates,
  IsDict, IsKeyed, raise_if, raise_if-eq-ok, ambiguous_target, >>-eq-ok, sort_by, IsSorted,
  sort_by-IsSorted, DistinctBy-sort_by, mem_by, All-self, =s=_symmetric,
}
use mathlib.Core.List.{Memᴰ, append-nil}
use google_workspace_gmail_a.Schemas.Resources.{ManagedAddressList, ManagedBlockedSenderRule}
use google_workspace_gmail_a.Schemas.State.{BlockedSenderState, DesiredStateResult, validate_state}
use google_workspace_gmail_a.Schemas.Plan.{TaskPlan}
use google_workspace_gmail_a.Ownership.{OwnershipRegistry}
use google_workspace_gmail_a.DesiredState.WorkingSets.{Working, require_unique_display_names}
use google_workspace_gmail_a.DesiredState.Calculate.{
  apply_all, start, collect, calculate_desired_state, rule_leb, list_leb,
}
use google_workspace_gmail_a.DesiredState.Moves.{rule_id, list_id, IsWorking, Moves-IsWorking}
use google_workspace_gmail_a.DesiredState.Run.{
  calculate_desired_state-Calculated, Calculated-Moves, start-IsWorking, apply_all-Moves,
}

abbrev pub rule_name : ManagedBlockedSenderRule → String
rule_name r = r.display_name

abbrev pub list_name : ManagedAddressList → String
list_name l = l.display_name

==_symmetric : (a b : ℕ) → (a == b) ≡ (b == a)
==_symmetric a b = ground arith

module _ {V : Type 0} (identity : V → ℕ) where
  absent_key :
      (j : ℕ) (d : Dict V)
      → IsKeyed identity d
      → lookup j d ≡ none
      → mem_by ◌==◌ j (map identity (values d)) ≡ false
  absent_key j [] k h = refl
  absent_key j ((i, v) ∷ d) k h = ground (arith, absent_key j d k.1)

  -- The identities of the values of a valid dictionary are distinct.
  values-DistinctBy :
      (d : Dict V) → IsDict d → IsKeyed identity d → DistinctBy ◌==◌ (map identity (values d))
  values-DistinctBy [] u k = tt
  values-DistinctBy ((i, v) ∷ d) u k =
      (rw (← k.0) (absent_key i d k.1 u.0), values-DistinctBy d u.1 k.1)

  -- So they are after sorting.
  pub sorted-DistinctBy :
      (le : V → V → Bool) (d : Dict V)
      → IsDict d
      → IsKeyed identity d
      → DistinctBy ◌==◌ (map identity (sort_by le (values d)))
  sorted-DistinctBy le d u k =
      subst (DistinctBy ◌==◌) (append-nil (map identity (sort_by le (values d)))) (
        DistinctBy-sort_by ◌==◌ ==_symmetric identity le [] (values d) (
          subst (DistinctBy ◌==◌) (sym (append-nil (map identity (values d))))
            (values-DistinctBy d u k)))

rule_leb_total : (x y : ManagedBlockedSenderRule) → rule_leb x y ≡ false → rule_leb y x ≡ true
rule_leb_total x y h = ground arith

rule_leb_trans :
    (x y z : ManagedBlockedSenderRule)
    → rule_leb x y ≡ true
    → rule_leb y z ≡ true
    → rule_leb x z ≡ true
rule_leb_trans x y z h k = ground arith

list_leb_total : (x y : ManagedAddressList) → list_leb x y ≡ false → list_leb y x ≡ true
list_leb_total x y h = ground arith

list_leb_trans :
    (x y z : ManagedAddressList) → list_leb x y ≡ true → list_leb y z ≡ true → list_leb x z ≡ true
list_leb_trans x y z h k = ground arith

-- The result in full: the observed unit, resources in the order of distinct IDs, names that are
-- distinct (those of the rules also from the unmanaged ones), and the unmanaged names sorted.
pub record IsWellFormed (s d : BlockedSenderState) : Type 0 where
  pub target_ou : d.target_ou ≡ s.target_ou
  pub rules_sorted : IsSorted rule_leb d.rules
  pub rule_ids : DistinctBy ◌==◌ (map rule_id d.rules)
  pub rule_names : Distinct (map rule_name d.rules ++ s.unmanaged_rule_names)
  pub lists_sorted : IsSorted list_leb d.address_lists
  pub list_ids : DistinctBy ◌==◌ (map list_id d.address_lists)
  pub list_names : Distinct (map list_name d.address_lists)
  pub unmanaged : d.unmanaged_rule_names ≡ sort_by leb_text s.unmanaged_rule_names

require_unique-Distinct :
    (w : Working) (unmanaged : List String)
    → require_unique_display_names w.rules w.address_lists unmanaged ≡ ok tt
    → Distinct (map rule_name (values w.rules) ++ unmanaged)
      × Distinct (map list_name (values w.address_lists))
unfolding require_unique_display_names
require_unique-Distinct w unmanaged h =
    let rules = map rule_name (values w.rules) ++ unmanaged in
    let lists = map list_name (values w.address_lists) in
    let (_, e1, h1) = >>-eq-ok (raise_if (has_duplicates rules) ambiguous_target) _ h in
    (
      (repeats_by_iff ◌=s=◌ rules).0 (raise_if-eq-ok (has_duplicates rules) ambiguous_target e1),
      (repeats_by_iff ◌=s=◌ lists).0 (raise_if-eq-ok (has_duplicates lists) ambiguous_target h1),
    )

collect-IsWellFormed :
    (s : BlockedSenderState) (w : Working)
    → IsWorking w
    → require_unique_display_names w.rules w.address_lists s.unmanaged_rule_names ≡ ok tt
    → IsWellFormed s (collect s w)
unfolding collect
collect-IsWellFormed s w v h =
    let (rules, lists) = require_unique-Distinct w s.unmanaged_rule_names h in
    record {
      target_ou = refl;
      rules_sorted = sort_by-IsSorted rule_leb rule_leb_total rule_leb_trans (values w.rules);
      rule_ids = sorted-DistinctBy rule_id rule_leb w.rules v.rules_dict v.rules_keyed;
      rule_names =
          DistinctBy-sort_by ◌=s=◌ =s=_symmetric rule_name rule_leb s.unmanaged_rule_names
            (values w.rules) rules;
      lists_sorted =
          sort_by-IsSorted list_leb list_leb_total list_leb_trans (values w.address_lists);
      list_ids = sorted-DistinctBy list_id list_leb w.address_lists v.lists_dict v.lists_keyed;
      list_names =
          subst Distinct (append-nil (map list_name (sort_by list_leb (values w.address_lists)))) (
            DistinctBy-sort_by ◌=s=◌ =s=_symmetric list_name list_leb [] (values w.address_lists)
              (subst Distinct (sym (append-nil (map list_name (values w.address_lists)))) lists));
      unmanaged = refl;
    }

-- A successful calculation returns a well-formed state.
pub calculate_desired_state-IsWellFormed :
    (s : BlockedSenderState) (p : TaskPlan) (g : OwnershipRegistry) (ids : List ℕ) (prefix : String)
    (d : DesiredStateResult)
    → calculate_desired_state s p g ids prefix ≡ ok d
    → IsWellFormed s d.desired_state
calculate_desired_state-IsWellFormed s p g ids prefix d h =
    let c = calculate_desired_state-Calculated s p g ids prefix d h in
    let moves = Calculated-Moves s p g ids prefix d c in
    subst (IsWellFormed s) (sym c.collected) (
      collect-IsWellFormed s c.final
        (Moves-IsWorking g prefix (λ i. Memᴰ i ids) moves (start-IsWorking s ids)) c.named)

validate_state_of_Distinct :
    (s : BlockedSenderState)
    → DistinctBy ◌==◌ (map rule_id s.rules)
    → DistinctBy ◌==◌ (map list_id s.address_lists)
    → validate_state s ≡ ok s
unfolding validate_state
validate_state_of_Distinct s r l = rw (
  (repeats_by_iff ◌==◌ (map rule_id s.rules)).1 r,
  (repeats_by_iff ◌==◌ (map list_id s.address_lists)).1 l,
)

-- The validator of the returned state never refuses: the calculation fails only where an action
-- of the loop or the test of the display names raises.
pub calculate_desired_state_total :
    (s : BlockedSenderState) (p : TaskPlan) (g : OwnershipRegistry) (ids : List ℕ) (prefix : String)
    (w : Working) (n : ℕ)
    → apply_all g prefix s.target_ou p.actions (start s ids) 0 ≡ ok (w, n)
    → require_unique_display_names w.rules w.address_lists s.unmanaged_rule_names ≡ ok tt
    → calculate_desired_state s p g ids prefix
      ≡ ok (record { desired_state = collect s w; notice_affected_entry_count = n })
unfolding calculate_desired_state
calculate_desired_state_total s p g ids prefix w n h u =
    let moves =
      apply_all-Moves g prefix (λ i. Memᴰ i ids) s.target_ou p.actions (start s ids) w 0 n
        (start-IsWorking s ids) (All-self ids) h in
    let f =
      collect-IsWellFormed s w
        (Moves-IsWorking g prefix (λ i. Memᴰ i ids) moves (start-IsWorking s ids)) u in
    rw (h, u, validate_state_of_Distinct (collect s w) f.rule_ids f.list_ids)
