-- ===== src/Schemas.antt =====
-- The pydantic models of src/compliance_agent/schemas. A model is a record; building one runs its
-- field bounds and its model validator, here a function `validate_…` that returns the value as the
-- validator leaves it, or the error.
pub mod Resources
pub mod State
pub mod Compliance
pub mod Plan
pub mod Equality
pub mod Operations
