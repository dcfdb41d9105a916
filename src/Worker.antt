-- ===== src/Worker.antt =====
-- src/crates/rch-worker: the worker's leases, jobs and sources, the handlers of its operations, and
-- the dispatch of a request; src/crates/rch-protocol for what they exchange.
pub mod Protocol
pub mod State
pub mod Orphans
pub mod Handlers
pub mod Reads
pub mod Rpc
pub mod Steps
pub mod Persistence
pub mod Sources
pub mod Capacity
pub mod History
pub mod Jobs
pub mod Resubmit
pub mod Logs
pub mod Backstop
pub mod Gate
pub mod Examples
