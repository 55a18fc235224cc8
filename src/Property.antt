-- ===== src/Property.antt =====
-- apps/properties: billing of residents.
pub mod Calculations
pub mod Rows
pub mod Db
pub mod Constraints
pub mod Calendar
pub mod Bills
pub mod Payments
pub mod Corrections
pub mod Books
pub mod Readings
pub mod Tariffs
pub mod Leases
pub mod Aging
pub mod Generation
pub mod Cycles
pub mod Sample
pub mod Tests
pub mod Examples
pub mod Premises
pub mod Sessions
pub mod Meters
pub mod Prerequisites
pub mod Usages
