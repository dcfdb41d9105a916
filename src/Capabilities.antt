-- ===== src/Capabilities.antt =====
-- src/worker/capabilities.rs: what a probe of a worker reports. The tooling versions and
-- the limits, which no decision modelled here reads, are left out of the record.
use rch_mac.Base.{ℕ, leb, Bool, ◌&&◌, Option, Text, text_eq, contains, List, find?}

pub record XcodeVersion : Type 0 where
  pub version : Text
  pub build : Text
  pub path : Text
  pub developer_dir : Text

pub record MacosInfo : Type 0 where
  pub version : Text
  pub build : Text
  pub architecture : Text

pub record Simulator : Type 0 where
  pub name : Text
  pub udid : Text
  pub device_type : Text
  pub runtime : Text
  pub state : Text

pub record Runtime : Type 0 where
  pub name : Text
  pub identifier : Text
  pub version : Text
  pub build : Text
  pub available : Bool

pub record Capacity : Type 0 where
  pub max_concurrent_jobs : ℕ
  pub disk_free_bytes : ℕ
  pub disk_total_bytes : Option ℕ
  pub memory_available_bytes : Option ℕ

pub record Capabilities : Type 0 where
  pub schema_version : ℕ
  pub schema_id : Text
  pub created_at : ℕ
  pub rch_xcode_lane_version : Text
  pub protocol_min : ℕ
  pub protocol_max : ℕ
  pub features : List Text
  pub xcode_versions : List XcodeVersion
  pub active_xcode : Option XcodeVersion
  pub macos : MacosInfo
  pub simulators : List Simulator
  pub runtimes : List Runtime
  pub capacity : Capacity

pub has_feature : Capabilities → Text → Bool
has_feature c feature = contains c.features feature

unfoldable pub supports_protocol_version : Capabilities → ℕ → Bool
supports_protocol_version c version = leb c.protocol_min version && leb version c.protocol_max

pub find_xcode_version : Capabilities → Text → Option XcodeVersion
find_xcode_version c version = find? (λ x. text_eq x.version version) c.xcode_versions

pub find_runtime : Capabilities → Text → Option Runtime
find_runtime c identifier = find? (λ r. text_eq r.identifier identifier) c.runtimes
