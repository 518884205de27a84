-- ===== src/Console/Journal/Written.antt =====
-- console/journal.py: which runs a save leaves in the file.
use mathlib.Core.List.{append-nil}
use google_workspace_gmail_a.Common.{
  ℕ, zero, suc, ◌≤◌, Bool, true, false, not, List, [], ◌∷◌, ◌++◌, map, select, take, length, ◌≡◌,
  refl, sym, ap, ◌∙◌, subst, Bool-cases, inl, inr, arith,
}
use google_workspace_gmail_a.Schemas.Operations.{
  RunPhase, planning, plan_ready, preflight, preview_shown, awaiting_approval, executing, verifying,
  completed, blocked, cancelled, interrupted,
}
use google_workspace_gmail_a.Console.Runs.{ConsoleRun}
use google_workspace_gmail_a.Console.Journal.{
  snapshot, readable, Journal, save, saved_runs, is_terminal,
}
use google_workspace_gmail_a.Console.Journal.RoundTrip.{save_writable}

length-take : {A : Type 0} (n : ℕ) (xs : List A) → length (take n xs) ≤ n
length-take zero xs = omega arith
length-take (suc n) [] = omega arith
length-take (suc n) (x ∷ xs) = omega (arith, length-take n xs)

module _ {A : Type 0} (test : A → Bool) where
  select-append : (xs ys : List A) → select test (xs ++ ys) ≡ select test xs ++ select test ys
  select-append [] ys = refl
  select-append (x ∷ xs) ys = elim (Bool-cases (test x)) [
    | inl e ↦ rw e (ap (λ rest. x ∷ rest) (select-append xs ys))
    | inr e ↦ rw e (select-append xs ys)
  ]

  select-not : (xs : List A) → select test (select (λ x. not (test x)) xs) ≡ []
  select-not [] = refl
  select-not (x ∷ xs) = elim (Bool-cases (test x)) [
    | inl e ↦ rw e (select-not xs)
    | inr e ↦ rw (e, e) (select-not xs)
  ]

  select_le : (xs : List A) → length (select test xs) ≤ length xs
  select_le [] = omega arith
  select_le (x ∷ xs) = elim (Bool-cases (test x)) [
    | inl e ↦ rw e (omega (arith, select_le xs))
    | inr e ↦ rw e (omega (arith, select_le xs))
  ]

select_same :
    {A : Type 0} (test : A → Bool) (xs : List A) → select test (select test xs) ≡ select test xs
select_same test [] = refl
select_same test (x ∷ xs) = elim (Bool-cases (test x)) [
  | inl e ↦ rw (e, e) (ap (λ rest. x ∷ rest) (select_same test xs))
  | inr e ↦ rw e (select_same test xs)
]

select-not-take :
    {A : Type 0} (test : A → Bool) (n : ℕ) (xs : List A)
    → select (λ x. not (test x)) (take n (select test xs)) ≡ []
select-not-take test zero xs = refl
select-not-take test (suc n) [] = refl
select-not-take test (suc n) (x ∷ xs) = elim (Bool-cases (test x)) [
  | inl e ↦ rw (e, e) (select-not-take test n xs)
  | inr e ↦ rw e (select-not-take test (suc n) xs)
]

select-same_test :
    {A : Type 0} (test other : A → Bool) (xs : List A)
    → ((x : A) → test x ≡ other x)
    → select test xs ≡ select other xs
select-same_test test other [] h = refl
select-same_test test other (x ∷ xs) h = elim (Bool-cases (other x)) [
  | inl e ↦ rw (h x, e) (ap (λ rest. x ∷ rest) (select-same_test test other xs h))
  | inr e ↦ rw (h x, e) (select-same_test test other xs h)
]

select-take :
    {A : Type 0} (test : A → Bool) (n : ℕ) (xs : List A)
    → select test (take n (select test xs)) ≡ take n (select test xs)
select-take test zero xs = refl
select-take test (suc n) [] = refl
select-take test (suc n) (x ∷ xs) = elim (Bool-cases (test x)) [
  | inl e ↦ rw (e, e) (ap (λ rest. x ∷ rest) (select-take test n xs))
  | inr e ↦ rw e (select-take test (suc n) xs)
]

-- the phases that no call and no coroutine leads out of
abbrev has_ended_in : RunPhase → Bool
has_ended_in preview_shown = true
has_ended_in completed = true
has_ended_in blocked = true
has_ended_in cancelled = true
has_ended_in interrupted = true
has_ended_in planning = false
has_ended_in plan_ready = false
has_ended_in preflight = false
has_ended_in awaiting_approval = false
has_ended_in executing = false
has_ended_in verifying = false

abbrev pub has_ended : ConsoleRun → Bool
has_ended run = has_ended_in run.phase

is_terminal-ended :
    (phase : RunPhase) (run : ConsoleRun) → run.phase ≡ phase → is_terminal run ≡ has_ended run
is_terminal-ended planning run e = rw e refl
is_terminal-ended plan_ready run e = rw e refl
is_terminal-ended preflight run e = rw e refl
is_terminal-ended preview_shown run e = rw e refl
is_terminal-ended awaiting_approval run e = rw e refl
is_terminal-ended executing run e = rw e refl
is_terminal-ended verifying run e = rw e refl
is_terminal-ended completed run e = rw e refl
is_terminal-ended blocked run e = rw e refl
is_terminal-ended cancelled run e = rw e refl
is_terminal-ended interrupted run e = rw e refl

abbrev open_runs : List ConsoleRun → List ConsoleRun
open_runs = select (λ run. not (has_ended run))

-- `saved_runs`, with the phases and the limit written out
saved_runs-ended :
    (runs : List ConsoleRun) → saved_runs runs ≡ open_runs runs ++ take 100 (select has_ended runs)
unfolding saved_runs
saved_runs-ended runs =
    let same : (run : ConsoleRun) → is_terminal run ≡ has_ended run =
      λ run. is_terminal-ended run.phase run refl in
    ap (λ xs. xs ++ take 100 (select is_terminal runs))
      (select-same_test (λ run. not (is_terminal run)) (λ run. not (has_ended run)) runs
        (λ run. ap not (same run)))
    ∙ ap (λ xs. open_runs runs ++ take 100 xs) (select-same_test is_terminal has_ended runs same)

-- The file after a save: the items of other schema versions, then every run that has not ended, in
-- its order, and the first 100 of those that have.
pub record IsSaved (journal : Journal) (runs : List ConsoleRun) (later : Journal) : Type 0 where
  pub saved : List ConsoleRun
  pub stored : later.stored ≡ readable (journal.unknown ++ map snapshot saved)
  pub all_open :
      select (λ run. not (has_ended run)) saved ≡ select (λ run. not (has_ended run)) runs
  pub first_ended : select has_ended saved ≡ take 100 (select has_ended runs)
  pub few_ended : length (select has_ended saved) ≤ 100

-- A save of a writable journal leaves in the file the items of other schema versions that it read
-- and, of the runs, every one that has not ended, in its order, and the first 100 of those that
-- have, and so at most 100 of them.
pub save-IsSaved :
    (journal : Journal) (runs : List ConsoleRun)
    → journal.writable ≡ true
    → IsSaved journal runs (save journal runs)
save-IsSaved journal runs writable = record {
  saved = saved_runs runs;
  stored = ap (λ j. j.stored) (save_writable journal runs writable);
  all_open =
      ap open_runs (saved_runs-ended runs)
      ∙ select-append (λ run. not (has_ended run)) (open_runs runs) newest
      ∙ ap (λ rest. select (λ run. not (has_ended run)) (open_runs runs) ++ rest)
          (select-not-take has_ended 100 runs)
      ∙ append-nil (select (λ run. not (has_ended run)) (open_runs runs))
      ∙ select_same (λ run. not (has_ended run)) runs;
  first_ended = ended;
  few_ended = subst (λ xs. length xs ≤ 100) (sym ended) (length-take 100 (select has_ended runs));
}
  where
    newest : List ConsoleRun
    newest = take 100 (select has_ended runs)

    ended : select has_ended (saved_runs runs) ≡ newest
    ended =
        ap (select has_ended) (saved_runs-ended runs)
        ∙ select-append has_ended (open_runs runs) newest
        ∙ ap (λ xs. xs ++ select has_ended newest) (select-not has_ended runs)
        ∙ select-take has_ended 100 runs
