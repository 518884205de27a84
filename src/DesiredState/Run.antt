-- ===== src/DesiredState/Run.antt =====
-- The loop of `calculate_desired_state` as permitted steps, and what its result is made of.
use google_workspace_gmail_a.Common.{
  ℕ, String, Bool, true, false, not, List, [], ◌∷◌, ◌≡◌, sym, ap, subst, ◌∙◌, arith, All, Result,
  ok, err, ambiguous_target, raise_if, >>=-eq-ok, >>-eq-ok, ok-injective, ◌=s=◌, index_onto-IsDict,
  index_onto-IsKeyed, All-self, raise_if-eq-ok, eq_iff,
}
use mathlib.Core.List.{Memᴰ}
use google_workspace_gmail_a.Schemas.State.{BlockedSenderState, DesiredStateResult, validate_state}
use google_workspace_gmail_a.Schemas.Plan.{
  Action, add_entries, remove_entries, set_notice, create_rule, update_rule, remove_rule,
  set_enabled, list_rules, create_compliance, update_compliance, remove_compliance,
  set_compliance_enabled, list_compliance, TaskPlan,
}
use google_workspace_gmail_a.Ownership.{OwnershipRegistry}
use google_workspace_gmail_a.DesiredState.WorkingSets.{Working, require_unique_display_names}
use google_workspace_gmail_a.DesiredState.Edit.{apply_set_notice}
use google_workspace_gmail_a.DesiredState.Calculate.{
  requested_ou, counted, dispatch, apply_action, apply_all, start, collect, calculate_desired_state,
}
use google_workspace_gmail_a.DesiredState.Steps.{here, Reach-trans}
use google_workspace_gmail_a.DesiredState.Moves.{
  rule_id, list_id, IsWorking, IsOwnedRule, IsOwnedList, Moves, IsNewRule, Moves-IsWorking,
}
use google_workspace_gmail_a.DesiredState.Permitted.{
  apply_set_enabled-Moves, apply_remove_entries-Moves, apply_set_notice-Moves,
}
use google_workspace_gmail_a.DesiredState.Permitted.Removal.{apply_remove_rule-Moves}
use google_workspace_gmail_a.DesiredState.Permitted.Creation.{apply_create-Moves, apply_add-Moves}
use google_workspace_gmail_a.DesiredState.Permitted.Update.{apply_update-Moves}

counted-eq-ok :
    (n : ℕ) (r : Result Working) (w : Working) (m : ℕ) → counted n r ≡ ok (w, m) → r ≡ ok w
counted-eq-ok n (ok v) w m h = ap ok (ap (λ p. p.0) (ok-injective h))
counted-eq-ok n (err e) w m h = cc

module _ (g : OwnershipRegistry) (prefix : String) (Injected : ℕ → Type 0) where
  Moves-refl : (w : Working) → Moves g prefix Injected w w
  Moves-refl w = record { rules = here; lists = here; identifiers = λ p. p }

  Moves-trans :
      (u v w : Working)
      → Moves g prefix Injected u v
      → Moves g prefix Injected v w
      → Moves g prefix Injected u w
  Moves-trans u v w m n = record {
    rules = Reach-trans rule_id (IsOwnedRule g prefix) (IsNewRule Injected) m.rules n.rules;
    lists = Reach-trans list_id (IsOwnedList g prefix) (λ i d. Injected i) m.lists n.lists;
    identifiers = λ p. n.identifiers (m.identifiers p);
  }

  unchanged :
      (w w' : Working) (n n' : ℕ)
      → ◌≡◌ {A = Result (Working × ℕ)} (ok (w, n)) (ok (w', n'))
      → Moves g prefix Injected w w'
  unchanged w w' n n' h =
      subst (Moves g prefix Injected w) (ap (λ p. p.0) (ok-injective h)) (Moves-refl w)

  dispatch-Moves :
      (a : Action) (w w' : Working) (n n' : ℕ)
      → IsWorking w
      → All Injected w.identifiers
      → dispatch g prefix a w n ≡ ok (w', n')
      → Moves g prefix Injected w w'
  unfolding dispatch
  dispatch-Moves (create_rule a) w w' n n' v i h =
      apply_create-Moves g prefix Injected a w w' i (counted-eq-ok n _ w' n' h)
  dispatch-Moves (add_entries a) w w' n n' v i h =
      apply_add-Moves g prefix Injected a w w' v i (counted-eq-ok n _ w' n' h)
  dispatch-Moves (remove_entries a) w w' n n' v i h =
      apply_remove_entries-Moves g prefix Injected a w w' v (counted-eq-ok n _ w' n' h)
  dispatch-Moves (update_rule a) w w' n n' v i h =
      apply_update-Moves g prefix Injected a w w' v i (counted-eq-ok n _ w' n' h)
  dispatch-Moves (set_notice a) w w' n n' v i h =
      let ((w2, m), e1, h1) = >>=-eq-ok (apply_set_notice g prefix a w) _ h in
      let same = ap (λ p. p.0) (ok-injective h1) in
      subst (Moves g prefix Injected w) same
        (apply_set_notice-Moves g prefix Injected a w w2 m v e1)
  dispatch-Moves (set_enabled a) w w' n n' v i h =
      apply_set_enabled-Moves g prefix Injected a w w' v (counted-eq-ok n _ w' n' h)
  dispatch-Moves (remove_rule a) w w' n n' v i h =
      apply_remove_rule-Moves g prefix Injected a w w' v (counted-eq-ok n _ w' n' h)
  dispatch-Moves list_rules w w' n n' v i h = unchanged w w' n n' h
  dispatch-Moves (create_compliance a) w w' n n' v i h = unchanged w w' n n' h
  dispatch-Moves (update_compliance a) w w' n n' v i h = unchanged w w' n n' h
  dispatch-Moves (remove_compliance a) w w' n n' v i h = unchanged w w' n n' h
  dispatch-Moves (set_compliance_enabled a) w w' n n' v i h = unchanged w w' n n' h
  dispatch-Moves list_compliance w w' n n' v i h = unchanged w w' n n' h

  -- A round that succeeds is for the observed organizational unit, and dispatches.
  pub apply_action-eq-ok :
      (ou : String) (a : Action) (w : Working) (n : ℕ) (r : Working × ℕ)
      → apply_action g prefix ou a w n ≡ ok r
      → ((requested_ou ou a =s= ou) ≡ true) × (dispatch g prefix a w n ≡ ok r)
  unfolding apply_action
  apply_action-eq-ok ou a w n r h =
      let test = requested_ou ou a =s= ou in
      let (_, e, h1) = >>-eq-ok (raise_if (not test) ambiguous_target) _ h in
      (not_false test (raise_if-eq-ok (not test) ambiguous_target e), h1)
    where
      not_false : (b : Bool) → not b ≡ false → b ≡ true
      not_false b p = ground arith

  pub apply_all-Moves :
      (ou : String) (actions : List Action) (w w' : Working) (n n' : ℕ)
      → IsWorking w
      → All Injected w.identifiers
      → apply_all g prefix ou actions w n ≡ ok (w', n')
      → Moves g prefix Injected w w'
  unfolding apply_all
  apply_all-Moves ou [] w w' n n' v i h = unchanged w w' n n' h
  apply_all-Moves ou (a ∷ actions) w w' n n' v i h =
      let ((u, m), e1, h1) = >>=-eq-ok (apply_action g prefix ou a w n) _ h in
      let step = dispatch-Moves a w u n m v i (apply_action-eq-ok ou a w n (u, m) e1).1 in
      Moves-trans w u w' step (
        apply_all-Moves ou actions u w' m n' (Moves-IsWorking g prefix Injected step v)
          (step.identifiers i) h1)

-- Every action of a plan that succeeds is for the observed organizational unit.
pub apply_all-target_ou :
    (g : OwnershipRegistry) (prefix ou : String) (actions : List Action) (w : Working) (n : ℕ)
    (r : Working × ℕ)
    → apply_all g prefix ou actions w n ≡ ok r
    → All (λ a. requested_ou ou a ≡ ou) actions
unfolding apply_all
apply_all-target_ou g prefix ou [] w n r h = tt
apply_all-target_ou g prefix ou (a ∷ actions) w n r h =
    let ((u, m), e1, h1) = >>=-eq-ok (apply_action g prefix ou a w n) _ h in
    (
      (eq_iff (requested_ou ou a) ou).0
          (apply_action-eq-ok g prefix (λ i. Unit) ou a w n (u, m) e1).0,
      apply_all-target_ou g prefix ou actions u m r h1,
    )

-- What a successful calculation consists of.
pub record Calculated (s : BlockedSenderState) (p : TaskPlan) (g : OwnershipRegistry) (ids : List ℕ)
    (prefix : String) (d : DesiredStateResult) : Type 0 where
  pub final : Working
  pub count : ℕ
  pub looped : apply_all g prefix s.target_ou p.actions (start s ids) 0 ≡ ok (final, count)
  pub named :
      require_unique_display_names final.rules final.address_lists s.unmanaged_rule_names ≡ ok tt
  pub collected : d.desired_state ≡ collect s final
  pub counted_all : d.notice_affected_entry_count ≡ count

validate_state-same : (s s' : BlockedSenderState) → validate_state s ≡ ok s' → s' ≡ s
unfolding validate_state
validate_state-same s s' h = ground arith

pub calculate_desired_state-Calculated :
    (s : BlockedSenderState) (p : TaskPlan) (g : OwnershipRegistry) (ids : List ℕ) (prefix : String)
    (d : DesiredStateResult)
    → calculate_desired_state s p g ids prefix ≡ ok d
    → Calculated s p g ids prefix d
unfolding calculate_desired_state
calculate_desired_state-Calculated s p g ids prefix d h =
    let ((w, n), e1, h1) =
      >>=-eq-ok (apply_all g prefix s.target_ou p.actions (start s ids) 0) _ h in
    let (t, e2, h2) =
      >>-eq-ok (require_unique_display_names w.rules w.address_lists s.unmanaged_rule_names) _ h1 in
    let (desired, e3, h3) = >>=-eq-ok (validate_state (collect s w)) _ h2 in
    record {
      final = w;
      count = n;
      looped = e1;
      named = e2;
      collected =
          sym (ap (λ r. r.desired_state) (ok-injective h3))
          ∙ validate_state-same (collect s w) desired e3;
      counted_all = sym (ap (λ r. r.notice_affected_entry_count) (ok-injective h3));
    }

-- The dictionaries that the loop starts from are valid.
pub start-IsWorking : (s : BlockedSenderState) (ids : List ℕ) → IsWorking (start s ids)
unfolding start
start-IsWorking s ids = record {
  rules_dict = index_onto-IsDict rule_id [] s.rules tt;
  rules_keyed = index_onto-IsKeyed rule_id [] s.rules tt;
  lists_dict = index_onto-IsDict list_id [] s.address_lists tt;
  lists_keyed = index_onto-IsKeyed list_id [] s.address_lists tt;
}

-- The whole loop, with the identifiers that were passed in.
pub Calculated-Moves :
    (s : BlockedSenderState) (p : TaskPlan) (g : OwnershipRegistry) (ids : List ℕ) (prefix : String)
    (d : DesiredStateResult) (c : Calculated s p g ids prefix d)
    → Moves g prefix (λ i. Memᴰ i ids) (start s ids) c.final
unfolding start
Calculated-Moves s p g ids prefix d c =
    apply_all-Moves g prefix (λ i. Memᴰ i ids) s.target_ou p.actions (start s ids) c.final 0 c.count
      (start-IsWorking s ids) (All-self ids) c.looped
