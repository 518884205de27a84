-- ===== src/Console.antt =====
-- console/coordinator.py and console/journal.py: the attended runs of one console process, with
-- `ConsoleRun` of schemas/operations.py.
pub mod Runs
pub mod Journal
pub mod Coordinator
pub mod Change
pub mod Steps
pub mod Kept
pub mod History
pub mod Slot
pub mod Finished
pub mod Covered
pub mod Authorized
pub mod Ended
pub mod Executions
pub mod Waiting
pub mod Refused
pub mod Tests
