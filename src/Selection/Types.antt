-- ===== src/Selection/Types.antt =====
-- The data of src/selection/mod.rs. An error carries the constraint whose debug text the source
-- prints, and `no_protocol_intersection` is `WorkerIncompatible`; the list of probe failures, which
-- is always empty, is left out.
use rch_mac.Base.{ℕ, Bool, Option, Text, List}
use rch_mac.Capabilities.{Capabilities}
use rch_mac.Inventory.{WorkerEntry}
use rch_mac.Toolchain.{XcodeConstraint}
use rch_mac.Destination.Constraint.{DestinationConstraint}

pub data SelectionMode : Type 0 where
  deterministic adaptive : SelectionMode

pub record WorkerCandidate : Type 0 where
  pub worker : WorkerEntry
  pub capabilities : Capabilities
  pub snapshot_time : ℕ
  pub fresh : Bool

pub record SelectionConstraints : Type 0 where
  pub required_tags : List Text
  pub xcode : XcodeConstraint
  pub destination : Option DestinationConstraint
  pub mode : SelectionMode
  pub probe_ttl_seconds : ℕ

pub data SelectionError : Type 0 where
  no_tag_match : List Text → SelectionError
  no_xcode_match : XcodeConstraint → SelectionError
  no_destination_match : Option DestinationConstraint → SelectionError
  no_workers_configured : SelectionError
  no_protocol_intersection : SelectionError

pub record AdaptiveMetrics : Type 0 where
  pub disk_free_bytes : ℕ
  pub memory_available_bytes : Option ℕ
  pub disk_was_tiebreaker : Bool
  pub memory_was_tiebreaker : Bool

pub record SelectionResult : Type 0 where
  pub candidate : WorkerCandidate
  pub tag_filtered_count : ℕ
  pub constraint_filtered_count : ℕ
  pub negotiated_protocol_version : ℕ
  pub filtered_no_xcode : List Text
  pub filtered_no_destination : List Text
  pub selection_mode : SelectionMode
  pub adaptive_metrics : Option AdaptiveMetrics
