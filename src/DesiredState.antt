-- ===== src/DesiredState.antt =====
-- domain/desired_state.py: from the observed state and a plan to the state that is expected.
mod WorkingSets
mod Create
mod Edit
pub mod Calculate
pub mod Steps
pub mod Moves
pub mod Permitted
pub mod Run
pub mod Safety
pub mod WellFormed
pub mod Entries
pub mod Effects
pub mod Tests
unfoldable pub use WorkingSets.*
unfoldable pub use Create.*
unfoldable pub use Edit.*
unfoldable pub use Calculate.*
