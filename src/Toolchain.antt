-- ===== src/Toolchain.antt =====
-- src/toolchain/mod.rs: which Xcode installation of a worker meets a constraint.
pub mod Versions
pub mod Laws
pub mod Examples
use rch_mac.Base.{is_empty as no_elements}
use rch_mac.Base.{
  ℕ, ltb, Ordering, Bool, true, false, ◌&&◌, not, Option, none, some, is_some, if◌then◌else◌, Text,
  text, text_eq, Result, ok, err, List, [], ◌∷◌, ◌++◌, filter, find?, length, unwrap_or,
}
use rch_mac.Base.Compare.{compare_text, then_with}
use rch_mac.Base.Max.{max_by}
use rch_mac.Capabilities.{Capabilities, XcodeVersion, MacosInfo}
use Versions.{compare_versions, first_part}

pub record ToolchainIdentity : Type 0 where
  pub xcode_build : Text
  pub developer_dir : Text
  pub macos_version : Text
  pub macos_build : Text
  pub arch : Text

-- `ToolchainIdentity::new`
unfoldable pub identity : XcodeVersion → MacosInfo → ToolchainIdentity
identity xcode macos = record {
  xcode_build = xcode.build;
  developer_dir = xcode.developer_dir;
  macos_version = macos.version;
  macos_build = macos.build;
  arch = macos.architecture;
}

unfoldable pub toolchain_key : ToolchainIdentity → Text
toolchain_key t =
    text "xcode_"
    ++ (t.xcode_build ++ (text "__macos_" ++ (first_part t.macos_version ++ (text "__" ++ t.arch))))

pub record XcodeConstraint : Type 0 where
  pub build : Option Text
  pub version : Option Text
  pub min_version : Option Text

unfoldable pub is_empty : XcodeConstraint → Bool
is_empty c = not (is_some c.build) && not (is_some c.version) && not (is_some c.min_version)

pub data ToolchainError : Type 0 where
  no_match : (constraint : Text) → ToolchainError
  no_xcode_installed : ToolchainError

pub record ToolchainResolution : Type 0 where
  pub identity : ToolchainIdentity
  pub xcode : XcodeVersion
  pub exact_match : Bool
  pub warning : Option Text

abbrev pub by_version : XcodeVersion → XcodeVersion → Ordering
by_version a b = then_with (compare_versions a.version b.version) (compare_text a.build b.build)

abbrev pub by_build : XcodeVersion → XcodeVersion → Ordering
by_build a b = compare_text a.build b.build

unfoldable pub find_by_build : List XcodeVersion → Text → Option XcodeVersion
find_by_build xcodes build = find? (λ x. text_eq x.build build) xcodes

abbrev pub has_version : Text → XcodeVersion → Bool
has_version version x = text_eq x.version version

unfoldable pub find_by_version : List XcodeVersion → Text → Option XcodeVersion
find_by_version xcodes version = max_by by_build (filter (has_version version) xcodes)

-- `>= Ordering::Equal`
abbrev pub at_least : Ordering → Bool
at_least Ordering.lt = false
at_least _ = true

abbrev pub reaches : Text → XcodeVersion → Bool
reaches min_version x = at_least (compare_versions x.version min_version)

unfoldable pub find_min_version : List XcodeVersion → Text → Option XcodeVersion
find_min_version xcodes min_version = max_by by_version (filter (reaches min_version) xcodes)

unfoldable pub find_highest : List XcodeVersion → Option XcodeVersion
find_highest xcodes = max_by by_version xcodes

abbrev found : Capabilities → XcodeVersion → Bool → Option Text → ToolchainResolution
found c x exact warning = record {
  identity = identity x c.macos;
  xcode = x;
  exact_match = exact;
  warning = warning;
}

-- The match on a `find_...`, with the constraint for the error.
expect :
    Capabilities
    → Option XcodeVersion
    → (constraint : Text) (exact : Bool) (warning : XcodeVersion → Option Text)
    → Result ToolchainResolution ToolchainError
expect c none constraint exact warning = err (no_match constraint)
expect c (some x) constraint exact warning = ok (found c x exact (warning x))

version_warning : List XcodeVersion → Text → XcodeVersion → Option Text
version_warning xcodes version x =
    if ltb 1 (length (filter (has_version version) xcodes))
    then some (
        text "Multiple Xcode "
        ++ (version ++ (text " installations found, using build " ++ x.build)))
    else none

min_warning : Text → XcodeVersion → Option Text
min_warning min_version x = some (
    text "Using Xcode "
    ++ (x.version
        ++ (text " (build "
            ++ (x.build ++ (text ") for min_version=" ++ (min_version ++ text " constraint"))))))

active_or_highest : Option XcodeVersion → List XcodeVersion → Option XcodeVersion
active_or_highest (some x) xcodes = some x
active_or_highest none xcodes = find_highest xcodes

-- The `if let` chain: build first, then version, then minimum version, then no constraint. The
-- `unwrap` of the last case meets a list that is not empty.
by_constraint :
    Capabilities
    → (build version min_version : Option Text) → Result ToolchainResolution ToolchainError
unfolding expect active_or_highest version_warning min_warning
by_constraint c (some build) version min_version =
    expect c (find_by_build c.xcode_versions build) (text "build=" ++ build) true (λ x. none)
by_constraint c none (some version) min_version =
    expect c (find_by_version c.xcode_versions version) (text "version=" ++ version) true
      (version_warning c.xcode_versions version)
by_constraint c none none (some min_version) =
    expect c (find_min_version c.xcode_versions min_version) (text "min_version=" ++ min_version)
      false (min_warning min_version)
by_constraint c none none none =
    expect c (active_or_highest c.active_xcode c.xcode_versions) [] false (λ x. none)

unfoldable pub resolve_toolchain :
    Capabilities → XcodeConstraint → Result ToolchainResolution ToolchainError
unfolding by_constraint
resolve_toolchain c k =
    if no_elements c.xcode_versions
    then err no_xcode_installed
    else by_constraint c k.build k.version k.min_version
