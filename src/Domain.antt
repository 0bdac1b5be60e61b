-- ===== src/Domain.antt =====
-- domain/: the canonical records. A pydantic model is a record and the Boolean test of its field
-- constraints and validators; building a model is `validated`, which raises where the test fails.
pub mod Common
pub mod Calendar
pub mod Community
pub mod Listing
pub mod Transaction
pub mod Context
