-- ===== src/Destination/Examples.antt =====
-- A simulator that is resolved on a worker (src/destination/mod.rs).
use rch_mac.Base.{
  ◌+◌, leb, ◌&&◌, true, none, some, if◌then◌else◌, Text, text, text_eq, contains_text, starts_with,
  ok, [], ◌∷◌, map, ◌≡◌, refl,
}
use rch_mac.Base.Max.{max_by}
use rch_mac.Capabilities.{Capabilities, Runtime}
use rch_mac.Toolchain.Versions.{parts}
use rch_mac.Destination.{
  compare_versions, ResolvedDestination, resolve_simulator_destination, resolve_os_version,
  runtime_matches_platform, extract_platform_type, find_matching_device,
  derive_device_type_from_name, highest,
}
use rch_mac.Destination.Constraint.{DestinationConstraint, ephemeral}

-- `to_lowercase` on the letters of ASCII.
abbrev lower : Text → Text
lower = map (λ c. if leb 65 c && leb c 90 then c + 32 else c)

abbrev ios : Runtime
ios = record {
  name = text "iOS 18.2";
  identifier = text "com.apple.CoreSimulator.SimRuntime.iOS-18-2";
  version = text "18.2";
  build = text "22C150";
  available = true;
}

abbrev worker : Capabilities
worker = record {
  schema_version = 1;
  schema_id = text "rch-xcode/capabilities@1";
  created_at = 0;
  rch_xcode_lane_version = text "0.1.0";
  protocol_min = 1;
  protocol_max = 2;
  features = [];
  xcode_versions = [];
  active_xcode = none;
  macos = record { version = text "15.3"; build = text "24D60"; architecture = text "arm64" };
  simulators = [];
  runtimes = ios ∷ [];
  capacity = record {
    max_concurrent_jobs = 2;
    disk_free_bytes = 1000;
    disk_total_bytes = none;
    memory_available_bytes = none;
  };
}

abbrev asked : DestinationConstraint
asked = record {
  platform = text "iOS Simulator";
  name = some (text "iPhone 16");
  os = none;
  provisioning = ephemeral;
  original = text "platform=iOS Simulator,name=iPhone 16";
}

abbrev resolved : ResolvedDestination
resolved = record {
  platform = text "iOS Simulator";
  name = text "iPhone 16";
  os_version = text "18.2";
  provisioning = ephemeral;
  original_constraint = text "platform=iOS Simulator,name=iPhone 16";
  sim_runtime_identifier = some (text "com.apple.CoreSimulator.SimRuntime.iOS-18-2");
  sim_runtime_build = some (text "22C150");
  device_type_identifier = some (text "com.apple.CoreSimulator.SimDeviceType.iPhone-16");
  udid = none;
}

resolves : resolve_simulator_destination lower asked worker ≡ ok resolved
unfolding resolve_simulator_destination extract_platform_type runtime_matches_platform
    resolve_os_version highest find_matching_device derive_device_type_from_name contains_text
    starts_with max_by text_eq
resolves = refl

abbrev old_ios : Runtime
old_ios = record ios { version = text "17.5"; available = true }

newest_is : resolve_os_version none (old_ios ∷ ios ∷ []) ≡ ok (text "18.2")
unfolding resolve_os_version highest max_by compare_versions parts
newest_is = refl
