-- ===== src/Impact.antt =====
-- application/impact_service.py: the impact facts of a change set.
mod Values
pub mod Counted
pub mod Tests
use google_workspace_gmail_a.Common.{
  ℕ, ◌+◌, String, Bool, true, false, not, ◌||◌, Option, none, some, List, [], ◌∷◌, ◌++◌, map, ltb,
  leb, ◌==◌, ◌=s=◌, if◌then◌else◌, length, select, is_empty, Dict, keys, lookup, insert, set_by,
  mem_text,
}
use google_workspace_gmail_a.Schemas.Resources.{ManagedAddressList, ManagedBlockedSenderRule}
use google_workspace_gmail_a.Schemas.State.{BlockedSenderState, ChangeSet, DesiredStateResult}
use google_workspace_gmail_a.Schemas.Operations.{
  ImpactAssessment, ImpactLevel, standard, broad, destructive,
}

-- `{entry.normalized_value for entry in item.entries}`
abbrev pub value_set : ManagedAddressList → List String
value_set l = set_by ◌=s=◌ (map (λ e. e.normalized_value) l.entries)

-- `{item.ownership_id: {...} for item in lists}`
abbrev pub value_sets_onto : Dict (List String) → List ManagedAddressList → Dict (List String)
value_sets_onto d [] = d
value_sets_onto d (l ∷ ls) = value_sets_onto (insert l.ownership_id (value_set l) d) ls

abbrev pub value_sets : List ManagedAddressList → Dict (List String)
value_sets = value_sets_onto []

-- `d.get(ownership_id, set())`
abbrev pub set_or_empty : Option (List String) → List String
set_or_empty none = []
set_or_empty (some values) = values

abbrev pub set_at : ℕ → Dict (List String) → List String
set_at id d = set_or_empty (lookup id d)

-- `a - b` of sets
abbrev pub without : List String → List String → List String
without a b = select (λ v. not (mem_text v b)) a

-- `len(a ^ b)`
abbrev pub difference_count : List String → List String → ℕ
difference_count a b = length (without a b) + length (without b a)

abbrev pub sum_over : (ℕ → ℕ) → List ℕ → ℕ
sum_over count [] = 0
sum_over count (id ∷ ids) = count id + sum_over count ids

-- the sum over `before.keys() | after.keys()`
abbrev pub count_between : Dict (List String) → Dict (List String) → ℕ
count_between before after =
    sum_over (λ id. difference_count (set_at id before) (set_at id after))
      (set_by ◌==◌ (keys before ++ keys after))

-- `_affected_entry_count`
unfoldable pub affected_entry_count : ChangeSet → ℕ
affected_entry_count c =
    count_between (value_sets c.before_state.address_lists)
      (value_sets c.expected_after.address_lists)

abbrev max : ℕ → ℕ → ℕ
max a b = if leb a b then b else a

abbrev level_of : Bool → Bool → ImpactLevel
level_of true is_broad = destructive
level_of false true = broad
level_of false false = standard

abbrev rule_ids : List ManagedBlockedSenderRule → List ℕ
rule_ids = map (λ r. r.ownership_id)

-- `assess_impact`
unfoldable pub assess_impact : ChangeSet → DesiredStateResult → Bool → ImpactAssessment
unfolding affected_entry_count
assess_impact c desired ownership_verified =
    let is_destructive =
      not (is_empty c.rules_to_remove) || not (is_empty c.address_lists_to_remove) in
    let touched =
      set_by ◌==◌
        (rule_ids c.rules_to_create ++ rule_ids c.rules_to_update ++ rule_ids c.rules_to_remove) in
    let is_broad = ltb 1 (length touched) || ltb 1 desired.notice_affected_entry_count in
    record {
      level = level_of is_destructive is_broad;
      rules_created = length c.rules_to_create;
      rules_updated = length c.rules_to_update;
      rules_removed = length c.rules_to_remove;
      address_lists_created = length c.address_lists_to_create;
      address_lists_updated = length c.address_lists_to_update;
      address_lists_removed = length c.address_lists_to_remove;
      affected_entries = max (affected_entry_count c) desired.notice_affected_entry_count;
      root_ou_confirmed = c.before_state.target_ou =s= "/";
      ownership_verified = ownership_verified;
    }
