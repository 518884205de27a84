-- ===== src/Console/Journal/RoundTrip.antt =====
-- console/journal.py: what a console that is opened again reads of what the last one saved.
use google_workspace_gmail_a.Common.{
  ℕ, true, false, All, List, [], ◌∷◌, ◌++◌, map, select, ◌≡◌, refl, sym, ap, ◌∙◌, subst, Bool-cases,
  inl, inr,
}
use google_workspace_gmail_a.Console.Runs.{ConsoleRun}
use google_workspace_gmail_a.Console.Journal.Snapshot.{is_valid_snapshot}
use google_workspace_gmail_a.Console.Journal.{
  Envelope, snapshot, refused, foreign, readable, Journal, save, load, saved_runs, restored,
  restore_run, is_foreign,
}

abbrev pub IsForeign : Envelope → Type 0
IsForeign envelope = is_foreign envelope ≡ true

-- the written runs that are valid, restored
abbrev readable_runs : ℕ → List ConsoleRun → List ConsoleRun
readable_runs now runs = map (λ run. restore_run run now) (select is_valid_snapshot runs)

restored-snapshots :
    (now : ℕ) (runs : List ConsoleRun) → restored now (map snapshot runs) ≡ readable_runs now runs
unfolding restored
restored-snapshots now [] = refl
restored-snapshots now (run ∷ runs) = elim (Bool-cases (is_valid_snapshot run)) [
  | inl e ↦ rw e (ap (λ rest. restore_run run now ∷ rest) (restored-snapshots now runs))
  | inr e ↦ rw e (restored-snapshots now runs)
]

restored-foreign :
    (now : ℕ) (unknown envelopes : List Envelope)
    → All IsForeign unknown
    → restored now (unknown ++ envelopes) ≡ restored now envelopes
unfolding restored
restored-foreign now [] envelopes h = refl
restored-foreign now (foreign item ∷ unknown) envelopes h =
    restored-foreign now unknown envelopes h.1
restored-foreign now (refused item ∷ unknown) envelopes h = absurd (never h.0)
  where
    never : false ≡ true → ⊥
    never e = cc
restored-foreign now (snapshot run ∷ unknown) envelopes h = absurd (never h.0)
  where
    never : false ≡ true → ⊥
    never e = cc

select-foreign :
    (unknown : List Envelope) (runs : List ConsoleRun)
    → All IsForeign unknown
    → select is_foreign (unknown ++ map snapshot runs) ≡ unknown
select-foreign [] [] h = refl
select-foreign [] (run ∷ runs) h = select-foreign [] runs h
select-foreign (item ∷ unknown) runs h =
    rw h.0 (ap (λ rest. item ∷ rest) (select-foreign unknown runs h.1))

-- the journal after a save
abbrev pub written : Journal → List ConsoleRun → Journal
written journal runs = record journal {
  stored = readable (unknown ++ map snapshot (saved_runs runs));
}
  where
    open journal use {unknown}

pub save_writable :
    (journal : Journal) (runs : List ConsoleRun)
    → journal.writable ≡ true
    → save journal runs ≡ written journal runs
unfolding save
save_writable journal runs writable = rw writable refl

load-written :
    (journal : Journal) (runs : List ConsoleRun) (now : ℕ)
    → All IsForeign journal.unknown
    → load (written journal runs) now ≡ (written journal runs, readable_runs now (saved_runs runs))
unfolding load
load-written journal runs now unknown =
    let same = select-foreign journal.unknown (saved_runs runs) unknown in
    let back =
      restored-foreign now journal.unknown (map snapshot (saved_runs runs)) unknown
      ∙ restored-snapshots now (saved_runs runs) in
    ap (λ u. pair u (restored now (journal.unknown ++ map snapshot (saved_runs runs)))) same
    ∙ ap (pair journal.unknown) back
  where
    pair : List Envelope → List ConsoleRun → Journal × List ConsoleRun
    pair u r = (record (written journal runs) { unknown = u }, r)

-- What a writable journal saves, it loads: of the runs that were written exactly those are restored
-- whose snapshot is valid, in their order, and the file, with the items of other schema versions, is
-- as it was saved, if the unknown items are of other versions.
pub load-save :
    (journal : Journal) (runs : List ConsoleRun) (now : ℕ)
    → journal.writable ≡ true
    → All IsForeign journal.unknown
    → load (save journal runs) now ≡ (
      save journal runs,
      map (λ run. restore_run run now) (select is_valid_snapshot (saved_runs runs)),
    )
load-save journal runs now writable unknown =
    subst (λ saved. load saved now ≡ (saved, readable_runs now (saved_runs runs)))
      (sym (save_writable journal runs writable)) (load-written journal runs now unknown)
