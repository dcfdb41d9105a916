-- ===== src/Host.antt =====
-- src/src/host: the client of the worker's operations, and the loop of src/src/pipeline.rs that
-- follows a job through it, with the streamer of src/src/run/streaming.rs and the sessions of
-- src/src/host/resumable.rs.
pub mod Envelope
pub mod Client
pub mod Payloads
pub mod Operations
pub mod Retry
pub mod Negotiation
pub mod Streaming
pub mod Artifacts
pub mod Unpack
pub mod Intact
pub mod Verified
pub mod Poll
pub mod Watch
pub mod Verdicts
pub mod Wire
pub mod Uploads
pub mod Sessions
pub mod Examples
