-- ===== src/Lib.antt =====
-- The Xcode lane of rch-mac: a host that takes an xcodebuild command line, decides whether it may
-- be run, chooses a worker, plans a run of steps, drives it, and stops it on timeouts and signals.
--
-- The parts, in the order of a run, and the files that model them:
-- * Classifier (src/classifier/mod.rs, parser.rs, result.rs): `classify` parses the command line,
--   checks the action, each flag and the required flags, and spells the sanitized command line.
--   Classifier/RepoConfig is config.rs, Classifier/Parser the parser, Classifier the checks and
--   the verdict. The iteration order of
--   the hash map of flags is the parameter `order`.
-- * Inventory (src/inventory/mod.rs), Capabilities (src/worker/capabilities.rs): what is known of
--   the workers. Toolchain (src/toolchain/mod.rs) and Destination (src/destination/mod.rs) resolve
--   a constraint on one worker; Selection (src/selection/mod.rs) filters the candidates by tags,
--   Xcode, destination and protocol, sorts what is left and takes the first.
-- * Run (src/run/mod.rs, the loop of `execute_run` in src/pipeline.rs): the plan, the record of
--   results with its state, and the loop. `execute_step` is a parameter, the status of a step.
-- * State (src/state/): the records of jobs and runs with their transitions. Every operation takes
--   the time and the global sequence counter as arguments and gives the counter back.
-- * Timeout (src/timeout.rs), Signal (src/signal/mod.rs), Cancel (src/cancel/mod.rs): when a job
--   times out, what a signal does to the shared state, and the cancellation of jobs and runs, with
--   the call of the worker as a parameter.
-- * Run/Resumption (src/run/resumption.rs): the scan of a plan after a restart of the host.
-- * Summary (src/summary/failure.rs, job_summary.rs, run_summary.rs): exit codes, the summaries of
--   jobs and the summary of a run that is made of them.
-- * Config (src/config/merge.rs, effective.rs, defaults.rs): the layers of a configuration, their
--   merge, the redaction of secrets, the checks, and `build`. What a file holds is a parameter.
-- * Worker (crates/rch-worker/src/mock_state.rs, rpc.rs, config.rs and handlers/,
--   crates/rch-protocol/src): the other side of the protocol. Worker/Protocol has the requests,
--   responses and errors, Worker/State the leases, jobs and sources, Worker/Orphans the backstop,
--   Worker/Handlers and Worker/Reads one function per operation, Worker/Rpc the check of versions
--   and the dispatch. A request sees one time, its argument `now`, in milliseconds. Worker/Steps
--   has the changes of a request as a step relation, of which the invariants in
--   Worker/Persistence, Worker/Sources and Worker/Capacity are proved; Worker/History folds
--   requests over a state. Reading a payload is a parameter, one reader per type of request.
-- * Gc (src/artifact/gc.rs and crates/rch-worker/src/cache/gc.rs): the two garbage collectors.
--   Gc/Sweep is the loop they share with what it takes and leaves, Gc/Artifact the collector of
--   finished runs on the host, Gc/Cache that of the worker's caches. The file system is a
--   parameter, and each pass keeps a log of what it removed.
-- * Host (src/host/rpc.rs, resumable.rs, src/protocol/envelope.rs, src/run/streaming.rs,
--   src/pipeline.rs): the client of the worker. Host/Client has its state and the two retry loops,
--   Host/Operations one function per operation over any transport, Host/Streaming the streamer of
--   logs, Host/Poll a step of a run from its submission to its summary, Host/Unpack and
--   Host/Artifacts (src/artifact/verify.rs and manifest.rs) what the step does with the artifacts
--   that it fetched, Host/Uploads the sessions of resumable uploads. Host/Wire composes the response
--   that the worker writes with what the client reads of it.
-- * Allowlist (crates/rch-classifier/src): the gate of the crate of that name, with its own parser
--   in Allowlist/Parser and its loop over the flags. Allowlist/Acceptable says what it accepts.
-- Base holds the shared types: JSON values, numbers as texts, texts as lists of code points, maps
-- as association lists, `Result`, the laws of comparisons, the stable sort and the maximum of an
-- iterator.
--
-- Numbers are natural numbers. A counter that wraps around in the source does so here: the
-- sequence counter at 2^64, the renewals of a lease at 2^32, the signals at 256, the counter of
-- the worker's ids at 2^64. A slice that cuts a character panics; the worker's model answers
-- `panic`. `to_lowercase`, `is_alphanumeric`, job ids and times are parameters. The loop of the
-- run is on fuel; a number above the number of steps is enough. The loop of a step is on fuel too;
-- a number above the pauses that fill the overall timeout is enough. The retries of the client are
-- structural recursion on the retries that are left.
--
-- Not modelled: reading and writing JSON, TOML and files, SSH, the processes of the executor and
-- the caches of the worker binary but for their collector, hashes and random identifiers, bundles,
-- the making of the manifests of artifacts, the explanations of the classifier, and the mock worker, the SSH
-- transport and the command line of the host.
pub mod Base
pub mod State
pub mod Classifier
pub mod Capabilities
pub mod Toolchain
pub mod Destination
pub mod Inventory
pub mod Selection
pub mod Timeout
pub mod Signal
pub mod Cancel
pub mod Run
pub mod Summary
pub mod Config
pub mod Worker
pub mod Gc
pub mod Host
pub mod Allowlist
