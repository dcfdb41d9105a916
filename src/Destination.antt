-- ===== src/Destination.antt =====
-- src/destination/mod.rs: the destination of a constraint on a given worker. `lower` is
-- `str::to_lowercase`, whose tables are those of the standard library.
pub mod Constraint
pub mod Laws
pub mod Newest
pub mod Examples
use rch_mac.Base.{
  ℕ, zero, suc, ◌+◌, compare, ◌==◌, Ordering, Bool, true, false, ◌&&◌, ◌||◌, not, Option, none,
  some, is_some, if◌then◌else◌, Text, text, text_eq, starts_with, contains_text, join, Result, ok,
  err, ok_or, ◌>>=◌, List, [], ◌∷◌, ◌++◌, map, filter, find?, is_empty,
}
use rch_mac.Base.Compare.{then_with}
use rch_mac.Base.Max.{max_by}
use rch_mac.Capabilities.{Capabilities, Runtime, Simulator}
use rch_mac.Toolchain.Versions.{parts}
use Constraint.{Provisioning, DestinationConstraint, DestinationError, worker_incompatible}

pub record ResolvedDestination : Type 0 where
  pub platform : Text
  pub name : Text
  pub os_version : Text
  pub provisioning : Provisioning
  pub original_constraint : Text
  pub sim_runtime_identifier : Option Text
  pub sim_runtime_build : Option Text
  pub device_type_identifier : Option Text
  pub udid : Option Text

-- The loop over the longer length, with 0 for a part that is missing.
unfoldable pub compare_padded : (xs ys : List ℕ) → Ordering
compare_padded [] [] = Ordering.eq
compare_padded [] (b ∷ ys) = then_with (compare 0 b) (compare_padded [] ys)
compare_padded (a ∷ xs) [] = then_with (compare a 0) (compare_padded xs [])
compare_padded (a ∷ xs) (b ∷ ys) = then_with (compare a b) (compare_padded xs ys)

unfoldable pub compare_versions : (a b : Text) → Ordering
unfolding compare_padded
compare_versions a b = compare_padded (parts a) (parts b)

abbrev pub by_version : Runtime → Runtime → Ordering
by_version a b = compare_versions a.version b.version

-- The four `replace` calls, on one character.
spelled : ℕ → Text
spelled c =
    if c == b' '
    then b'-' ∷ []
    else if c == b'('
    then []
    else if c == b')'
    then []
    else if c == b'.'
    then b'-' ∷ []
    else c ∷ []

normalized : Text → Text
unfolding spelled
normalized [] = []
normalized (c ∷ s) = spelled c ++ normalized s

unfoldable pub derive_device_type_from_name : Text → Text
unfolding normalized
derive_device_type_from_name name = text "com.apple.CoreSimulator.SimDeviceType." ++ normalized name

unfoldable pub highest : List Runtime → Result Text DestinationError
highest rs = do
  r ← ok_or (max_by by_version rs) (worker_incompatible (text "no runtimes available"))
  ok r.version

abbrev pub has_version : Text → Runtime → Bool
has_version v r = text_eq r.version v || starts_with r.version (v ++ text ".")

specific : Text → List Runtime → Result Text DestinationError
specific v rs = do
  r ← ok_or (find? (has_version v) rs) (
      worker_incompatible (
        text "requested OS version "
        ++ (v
            ++ (text " not found; available: "
                ++ join (text ", ") (map (λ (r : Runtime). r.version) rs)))))
  ok r.version

unfoldable pub resolve_os_version : Option Text → List Runtime → Result Text DestinationError
unfolding highest specific
resolve_os_version none rs = highest rs
resolve_os_version (some v) rs = if text_eq v (text "latest") then highest rs else specific v rs

module _ (lower : Text → Text) where
  -- `DestinationConstraint::is_simulator`
  unfoldable pub is_simulator : DestinationConstraint → Bool
  is_simulator c = contains_text (lower c.platform) (text "simulator")

  unfoldable pub extract_platform_type : Text → Text
  extract_platform_type platform =
      if contains_text (lower platform) (text "ios")
      then text "iOS"
      else if contains_text (lower platform) (text "tvos")
      then text "tvOS"
      else if contains_text (lower platform) (text "watchos")
      then text "watchOS"
      else if contains_text (lower platform) (text "visionos")
          || contains_text (lower platform) (text "xros")
      then text "visionOS"
      else platform

  unfoldable pub runtime_matches_platform : Runtime → Text → Bool
  runtime_matches_platform r platform_type =
      contains_text (lower r.name) (lower platform_type)
      || contains_text (lower r.identifier) (lower platform_type)

  unfoldable pub default_device_name : Text → Text
  default_device_name platform_type =
      if text_eq (lower platform_type) (text "ios")
      then text "iPhone 16"
      else if text_eq (lower platform_type) (text "tvos")
      then text "Apple TV"
      else if text_eq (lower platform_type) (text "watchos")
      then text "Apple Watch Series 10"
      else if text_eq (lower platform_type) (text "visionos")
      then text "Apple Vision Pro"
      else text "Unknown Device"

  -- A device by name: the simulator of that name on the runtime, or a type made from the name.
  named_device : Text → Option Simulator → Text × Text
  named_device name (some sim) = (sim.name, sim.device_type)
  named_device name none = (name, derive_device_type_from_name name)

  -- No name: the first simulator on the runtime, or the default of the platform.
  default_device : Text → Option Simulator → Text × Text
  default_device platform (some sim) = (sim.name, sim.device_type)
  default_device platform none =
      let name = default_device_name (extract_platform_type platform) in
      (name, derive_device_type_from_name name)

  device : Text → Runtime → List Simulator → Option Text → Text × Text
  device platform r sims (some name) = named_device name (
      find?
        (λ (s : Simulator). text_eq (lower s.name) (lower name) && text_eq s.runtime r.identifier)
        sims)
  device platform r sims none =
      default_device platform (find? (λ (s : Simulator). text_eq s.runtime r.identifier) sims)

  -- It never fails in the source either, though its type allows an error.
  unfoldable pub find_matching_device : DestinationConstraint → Runtime → Capabilities → Text × Text
  unfolding device named_device default_device
  find_matching_device c r caps = device c.platform r caps.simulators c.name

  abbrev pub matching : DestinationConstraint → Capabilities → List Runtime
  matching c caps =
      filter (λ r. r.available && runtime_matches_platform r (extract_platform_type c.platform))
        caps.runtimes

  unfoldable pub resolve_simulator_destination :
      DestinationConstraint → Capabilities → Result ResolvedDestination DestinationError
  resolve_simulator_destination c caps =
      if is_empty (matching c caps)
      then err (
          worker_incompatible (
            text "no available "
            ++ (extract_platform_type c.platform ++ text " runtimes on worker")))
      else do
        target ← resolve_os_version c.os (matching c caps)
        r ← ok_or (find? (λ (r : Runtime). text_eq r.version target) (matching c caps)) (
            worker_incompatible (
              text "no runtime found for "
              ++ (extract_platform_type c.platform ++ (text " " ++ target))))
        ok (record {
          platform = c.platform;
          name = (find_matching_device c r caps).0;
          os_version = target;
          provisioning = c.provisioning;
          original_constraint = c.original;
          sim_runtime_identifier = some r.identifier;
          sim_runtime_build = some r.build;
          device_type_identifier = some (find_matching_device c r caps).1;
          udid = none;
        })

  -- The requested macOS version, if one is requested other than the latest.
  macos_fits : Option Text → Text → Bool
  macos_fits none version = true
  macos_fits (some v) version = text_eq v (text "latest") || starts_with version v

  requested : Option Text → Text
  requested none = []
  requested (some v) = v

  unfoldable pub resolve_device_destination :
      DestinationConstraint → Capabilities → Result ResolvedDestination DestinationError
  unfolding macos_fits requested
  resolve_device_destination c caps =
      if text_eq (lower c.platform) (text "macos") || text_eq (lower c.platform) (text "mac")
      then (if macos_fits c.os caps.macos.version
          then ok (record {
            platform = c.platform;
            name = text "My Mac";
            os_version = caps.macos.version;
            provisioning = c.provisioning;
            original_constraint = c.original;
            sim_runtime_identifier = none;
            sim_runtime_build = none;
            device_type_identifier = none;
            udid = none;
          })
          else err (
              worker_incompatible (
                text "worker macOS version "
                ++ (caps.macos.version ++ (text " does not match requested " ++ requested c.os)))))
      else err (
          worker_incompatible (
            text "real device destinations (" ++ (c.platform ++ text ") are not supported in MVP")))

  unfoldable pub resolve_destination :
      DestinationConstraint → Capabilities → Result ResolvedDestination DestinationError
  resolve_destination c caps =
      if is_simulator c
      then resolve_simulator_destination c caps
      else resolve_device_destination c caps
