-- ===== src/Workspaces.antt =====
-- apps/tenants: workspaces, their members and invitations, and the limits of their plans.
pub mod Rows
pub mod Limits
pub mod Tenants
pub mod Memberships
pub mod Invitations
pub mod Edits
pub mod Calls
pub mod Admissions
pub mod Sessions
pub mod Responses
pub mod Joining
pub mod Tests
pub mod Ownership
pub mod Seats
pub mod Consent
