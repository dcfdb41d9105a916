-- ===== src/Config.antt =====
-- src/config: the layers of a configuration, their merge, the redaction of secrets and the checks.
pub mod Merge
pub mod Layers
pub mod Redact
pub mod Effective
pub mod Secrets
pub mod Laws
pub mod Examples
