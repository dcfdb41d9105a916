-- ===== src/State.antt =====
-- The run and job state machines of src/state/: the global sequence counter of mod.rs, and the
-- machines in the modules below.
pub mod Counter
pub mod Job
pub mod Run
