-- ===== src/Coordinator.antt =====
-- The coordinator, coordinator/src.
pub mod Rows
pub mod Store
pub mod Keeping
pub mod Leading
pub mod Jobs
pub mod Lifecycle
pub mod Matching
pub mod Migration
pub mod Listing
pub mod Network
pub mod Payments
pub mod Logs
pub mod Checkpoints
pub mod Grpc
pub mod Accounts
pub mod Kyc
pub mod Sample
mod Tests
mod ListingTests
mod PaymentTests
mod AccountTests
