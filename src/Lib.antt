-- ===== src/Lib.antt =====
-- The core of the Gmail policy agent: from a validated plan and an observed policy to an exact
-- change, its approval, and the report of what was confirmed.
--
-- The program lets an operator state a policy change, turns it into a plan of typed actions
-- (schemas/plan.py), reads the policy that Google Workspace shows, computes the state it expects
-- afterwards (domain/desired_state.py), the exact changes between the two (domain/diff.py), asks
-- for an approval that is bound to their hashes (application/approval_service.py), applies them
-- through a browser, reads the policy again and compares (domain/verification.py), and reports
-- only what the comparison confirms (domain/reporting.py). All paths are below
-- src/compliance_agent of the repository.
--
-- The files, and the code that each is about:
--   Common          Python's results, dicts, sorting and texts; lemmas on them
--   Schemas         schemas/resources.py, state.py, plan.py, compliance.py, changes.py,
--                   operations.py: records for models, and for each validator a function that
--                   returns the validated model or the exception
--   Ownership       domain/ownership.py: the registry and the three ownership checks
--   DesiredState    domain/desired_state.py. The dictionaries of rules and lists and the iterator
--                   of new identifiers, which the code mutates, are the state `Working` that every
--                   action takes and returns. `DesiredState/Steps` is the relation of the steps
--                   that an action may take; `Moves`, `Permitted` and `Run` check the actions and
--                   the loop against it
--   ComplianceState domain/compliance_desired_state.py and domain/regex_validation.py
--   Comparison      what domain/diff.py and domain/verification.py share: the IDs on one side only
--                   and the IDs whose resources differ
--   Diff            domain/diff.py; `Patch` is what a writer does with a partition
--   Verification    domain/verification.py and the verification results of schemas/results.py
--   Reporting       domain/reporting.py, schemas/status.py, and the results it reads
--   Preflight       domain/preflight.py and schemas/preflight.py
--   Pipeline        a run from its plan to its report: how DesiredState, Diff, Verification and
--                   Reporting compose
--   Hashing         domain/hashing.py, with what it uses of json.dumps
--   Preconditions   domain/preconditions.py
--   Reconciliation  domain/reconciliation.py and `ReconciliationDecision` of schemas/results.py
--   Approvals       application/approval_service.py and schemas/hitl.py: `_pending` is explicit, also
--                   where a call raises; `Trace` is every sequence of calls
--   Impact          application/impact_service.py
--   Propagation     application/propagation_service.py: the stored records are explicit
--   Console         console/coordinator.py and console/journal.py. `Coordinator` and its children
--                   have one function for each part of a coroutine between its `await`s; a
--                   suspended coroutine is a `Task`. `Steps` is every interleaving of the calls,
--                   `Change` what one call can do to the runs and the approvals;
--                   `Journal/Snapshot` is the validation of what a journal loads. Cancelling the
--                   task of a coroutine, against `ConsoleCoordinator.cancel`, is no step
--
-- Exceptions are the constructors of `Error`; their messages are left out. All loops are
-- structural recursion over the list that the code iterates; only the digits of a number, which
-- Python prints, run on fuel, more than the number. A UUID is its 128-bit number, whose order is that of the hexadecimal text of fixed width by which the
-- code sorts. A time is a number of microseconds. A field with one admissible value, such as
-- `schema_version`, is left out.
--
-- Arguments of the model, for code that is not here: the text of a UUID, the JSON dump of a
-- resource and `repr` in Verification; what pydantic dumps of a model, Unicode normalization and
-- SHA-256 in Hashing; whether RE2 compiles a pattern in ComplianceState;
-- `str.lower`, `str.casefold` and `str.upper` in Preflight, Approvals and Schemas. No theorem
-- assumes anything of them.
--
-- Not modelled: the browser, the language model and its drafts, the web consoles, files, locks
-- and clocks, since they are input and output; the normalization of addresses; the services
-- around the modelled functions.
pub mod Approvals
pub mod Common
pub mod Comparison
pub mod ComplianceState
pub mod Console
pub mod DesiredState
pub mod Diff
pub mod Hashing
pub mod Impact
pub mod Ownership
pub mod Pipeline
pub mod Preconditions
pub mod Preflight
pub mod Propagation
pub mod Reconciliation
pub mod Reporting
pub mod Schemas
pub mod Verification
