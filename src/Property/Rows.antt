-- ===== src/Property/Rows.antt =====
-- apps/properties/models.py: the rows of the property domain. A date is its ordinal, a time a
-- number of seconds, a foreign key the primary key of its row.
mod Registry
mod Ledger
pub use Registry.*
pub use Ledger.*
