-- ===== src/Gc.antt =====
-- The garbage collectors: src/src/artifact/gc.rs of the host and
-- src/crates/rch-worker/src/cache/gc.rs of the worker.
pub mod Sweep
pub mod Artifact
pub mod Deletions
pub mod Retention
pub mod DryRun
pub mod Cache
pub mod Eviction
pub mod Protection
pub mod Examples
