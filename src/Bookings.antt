-- ===== src/Bookings.antt =====
-- apps/api/src/modules/bookings: the bookings of one tenant. A method reads the booking in one
-- transaction, checks it, and writes in a second one; the second ones are functions of their own,
-- which other transactions may precede.
pub mod Status
pub mod Types
pub mod Create
pub mod Lifecycle
pub mod Moves
pub mod Surcharges
pub mod Expiry
pub mod Transactions
pub mod Effects
pub mod NoOverlap
pub mod Requests
pub mod Spec
pub mod Refinement
pub mod Presence
pub mod Paths
pub mod Races
pub mod Others
mod Tests
