-- ===== src/Examples.antt =====
-- Runs of the modelled code on a small tailnet.
pub mod Data
pub mod Access
pub mod Sessions
pub mod Locks
pub mod Polls
pub mod Polling
pub mod Addresses
pub mod Calls
pub mod Routing
pub mod Sweeping
pub mod Joining
pub mod Issuing
pub mod SigningIn
pub mod Provisioning
