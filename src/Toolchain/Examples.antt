-- ===== src/Toolchain/Examples.antt =====
-- The resolution of src/toolchain/mod.rs on a worker with two installations.
use rch_mac.Base.{
  Ordering, true, false, text_eq, none, some, text, ok, [], ◌∷◌, Mem, ◌≡◌, ◌≢◌, refl,
}
use rch_mac.Base.Max.{max_by}
use rch_mac.Capabilities.{Capabilities, XcodeVersion}
use rch_mac.Toolchain.Versions.{compare_versions}
use rch_mac.Toolchain.{
  XcodeConstraint, ToolchainResolution, resolve_toolchain, find_by_version, find_min_version,
  identity, is_empty,
}
use rch_mac.Toolchain.Laws.{Meets, resolve_toolchain-Meets}

abbrev old_xcode : XcodeVersion
old_xcode = record {
  version = text "15.4";
  build = text "15F31d";
  path = text "/Applications/Xcode-15.4.app";
  developer_dir = text "/Applications/Xcode-15.4.app/Contents/Developer";
}

abbrev new_xcode : XcodeVersion
new_xcode = record {
  version = text "16.2";
  build = text "16C5032a";
  path = text "/Applications/Xcode.app";
  developer_dir = text "/Applications/Xcode.app/Contents/Developer";
}

abbrev worker : Capabilities
worker = record {
  schema_version = 1;
  schema_id = text "rch-xcode/capabilities@1";
  created_at = 0;
  rch_xcode_lane_version = text "0.1.0";
  protocol_min = 1;
  protocol_max = 2;
  features = [];
  xcode_versions = old_xcode ∷ new_xcode ∷ [];
  active_xcode = none;
  macos = record { version = text "15.3"; build = text "24D60"; architecture = text "arm64" };
  simulators = [];
  runtimes = [];
  capacity = record {
    max_concurrent_jobs = 2;
    disk_free_bytes = 1000;
    disk_total_bytes = none;
    memory_available_bytes = none;
  };
}

abbrev exact : XcodeConstraint
exact = record { build = none; version = some (text "15.4"); min_version = none }

abbrev at_least_15 : XcodeConstraint
at_least_15 = record { build = none; version = none; min_version = some (text "15.0") }

abbrev resolved : ToolchainResolution
resolved = record {
  xcode = old_xcode;
  exact_match = true;
  identity = identity old_xcode worker.macos;
  warning = none;
}

resolves : resolve_toolchain worker exact ≡ ok resolved
unfolding resolve_toolchain find_by_version max_by text_eq
resolves = refl

resolve_toolchain-Meets_example :
    Mem old_xcode worker.xcode_versions
    × Meets exact old_xcode
    × (resolved.identity ≡ identity old_xcode worker.macos)
unfolding is_empty
resolve_toolchain-Meets_example = resolve_toolchain-Meets worker exact refl resolves

abbrev newest : ToolchainResolution
newest = record {
  xcode = new_xcode;
  exact_match = false;
  identity = identity new_xcode worker.macos;
  warning = some (text "Using Xcode 16.2 (build 16C5032a) for min_version=15.0 constraint");
}

resolves_newest : resolve_toolchain worker at_least_15 ≡ ok newest
unfolding resolve_toolchain find_min_version max_by text_eq compare_versions
resolves_newest = refl

old_reaches : compare_versions old_xcode.version (text "15.0") ≢ Ordering.lt
unfolding compare_versions
old_reaches = λ h. cc
