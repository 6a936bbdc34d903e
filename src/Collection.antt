-- ===== src/Collection.antt =====
-- The collection of sources: targets and their policies, partitions with leases, pages, deliveries.
pub mod Model
pub mod Policy
pub mod Page
pub mod Store
pub mod Lifecycle
pub mod Refines
pub mod Paging
pub mod Committing
pub mod Registering
pub mod Replays
pub mod Traces
pub mod Claiming
pub mod Sample
pub mod Fencing
pub mod Rights
pub mod Stored
pub mod Cursors
mod Tests
