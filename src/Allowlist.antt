-- ===== src/Allowlist.antt =====
-- src/crates/rch-classifier/src/lib.rs, config.rs, result.rs: the gate that answers for an xcodebuild
-- command line. The sets of a configuration are lists, and the sorted map of the flags is a list that
-- is sorted where it is read.
pub mod Parser
pub mod Flags
pub mod Denied
pub mod Acceptable
pub mod Verdict
pub mod Examples
use rch_mac.Base.{
  Bool, true, false, ◌&&◌, ◌||◌, not, Option, none, some, is_some, if◌then◌else◌, Text, text,
  text_eq, contains, Dict, insert, Result, ok, err, List, [], ◌∷◌, ◌++◌, is_empty, Ordering,
}
use rch_mac.Base.Compare.{compare_text}
use rch_mac.Base.Sort.{sort_by}
use rch_mac.Allowlist.Parser.{ParsedArgv, parse_argv}

pub record ClassifierConfig : Type 0 where
  pub workspace : Option Text
  pub project : Option Text
  pub allowed_schemes : List Text
  pub destination : Option Text
  pub allowed_configurations : List Text

pub record MatchedConstraints : Type 0 where
  pub workspace : Option Text
  pub project : Option Text
  pub scheme : Option Text
  pub destination : Option Text
  pub configuration : Option Text

abbrev pub no_constraints : MatchedConstraints
no_constraints = record {
  workspace = none;
  project = none;
  scheme = none;
  destination = none;
  configuration = none;
}

pub data RejectionReason : Type 0 where
  parse_error denied_action unknown_action denied_flag unknown_flag : Text → RejectionReason
  workspace_mismatch project_mismatch destination_mismatch : (got expected : Text) → RejectionReason
  scheme_mismatch configuration_mismatch missing_required_flag : Text → RejectionReason

pub record ClassifierResult : Type 0 where
  pub accepted : Bool
  pub action : Option Text
  pub sanitized_argv : Option (List Text)
  pub rejected_flags : List Text
  pub rejection_reasons : List RejectionReason
  pub matched_constraints : MatchedConstraints

abbrev pub rejected : List Text → List RejectionReason → ClassifierResult
rejected flags reasons = record {
  accepted = false;
  action = none;
  sanitized_argv = none;
  rejected_flags = flags;
  rejection_reasons = reasons;
  matched_constraints = no_constraints;
}

abbrev pub accept : Text → List Text → MatchedConstraints → ClassifierResult
accept action argv m = record {
  accepted = true;
  action = some action;
  sanitized_argv = some argv;
  rejected_flags = [];
  rejection_reasons = [];
  matched_constraints = m;
}

abbrev pub allowed_actions : List Text
allowed_actions = text "build" ∷ text "test" ∷ []

abbrev pub denied_actions : List Text
denied_actions =
    text "archive"
    ∷ text "exportArchive"
    ∷ text "exportNotarizedApp"
    ∷ text "notarize"
    ∷ text "altool"
    ∷ text "staple"
    ∷ []

abbrev pub denied_flags : List Text
denied_flags = text "-resultBundlePath" ∷ text "-derivedDataPath" ∷ []

abbrev pub allowed_flags_with_values : List Text
allowed_flags_with_values =
    text "-workspace"
    ∷ text "-project"
    ∷ text "-scheme"
    ∷ text "-destination"
    ∷ text "-configuration"
    ∷ text "-sdk"
    ∷ text "-arch"
    ∷ text "-target"
    ∷ []

abbrev pub allowed_boolean_flags : List Text
allowed_boolean_flags =
    text "-quiet"
    ∷ text "-verbose"
    ∷ text "-enableCodeCoverage"
    ∷ text "-showBuildSettings"
    ∷ text "-showdestinations"
    ∷ []

-- A value that is pinned, and a value that is one of a set unless the set is empty.
abbrev pub pinned : Option Text → Text → (Text → Text → RejectionReason) → Option RejectionReason
pinned none v reason = none
pinned (some w) v reason = if text_eq v w then none else some (reason v w)

abbrev pub listed : List Text → Text → RejectionReason → Option RejectionReason
listed l v reason = if not (is_empty l) && not (contains l v) then some reason else none

-- The flags that the `match` names; what is wrong with a value of one of them, and what it adds to the
-- constraints that matched.
abbrev pub is_constrained : Text → Bool
is_constrained flag =
    contains
      (text "-workspace"
        ∷ text "-project"
        ∷ text "-scheme"
        ∷ text "-destination"
        ∷ text "-configuration"
        ∷ [])
      flag

unfoldable pub mismatch : ClassifierConfig → Text → Text → Option RejectionReason
mismatch c flag v =
    if text_eq flag (text "-workspace")
    then pinned c.workspace v RejectionReason.workspace_mismatch
    else if text_eq flag (text "-project")
    then pinned c.project v RejectionReason.project_mismatch
    else if text_eq flag (text "-scheme")
    then listed c.allowed_schemes v (RejectionReason.scheme_mismatch v)
    else if text_eq flag (text "-destination")
    then pinned c.destination v RejectionReason.destination_mismatch
    else listed c.allowed_configurations v (RejectionReason.configuration_mismatch v)

unfoldable pub note : Text → Text → MatchedConstraints → MatchedConstraints
note flag v m =
    if text_eq flag (text "-workspace")
    then record m { workspace = some v }
    else if text_eq flag (text "-project")
    then record m { project = some v }
    else if text_eq flag (text "-scheme")
    then record m { scheme = some v }
    else if text_eq flag (text "-destination")
    then record m { destination = some v }
    else record m { configuration = some v }

-- The variables of the loop over the flags.
pub record Scan : Type 0 where
  pub flags : List Text
  pub reasons : List RejectionReason
  pub matched : MatchedConstraints
  pub sanitized : Dict (Option Text)

abbrev refuse : Text → RejectionReason → Scan → Scan
refuse flag r s = record s { flags = s.flags ++ (flag ∷ []); reasons = s.reasons ++ (r ∷ []) }

abbrev pub constrain : ClassifierConfig → Text → Text → Scan → Scan
constrain c flag v s = elim (mismatch c flag v) [
  | some r ↦ record s { reasons = s.reasons ++ (r ∷ []) }
  | none ↦ record s {
    matched = note flag v s.matched;
    sanitized = insert flag (some v) s.sanitized;
  }
]

-- The three tests of a flag: denied, in one of the allowed lists, and named by the `match`.
abbrev pub route :
    (denied allowed named : Bool) → ClassifierConfig → Text → Option Text → Scan → Scan
route true allowed named c flag value s = refuse flag (RejectionReason.denied_flag flag) s
route false false named c flag value s = refuse flag (RejectionReason.unknown_flag flag) s
route false true true c flag none s = s
route false true true c flag (some v) s = constrain c flag v s
route false true false c flag value s = record s { sanitized = insert flag value s.sanitized }

abbrev pub is_allowed : Text → Bool
is_allowed flag = contains allowed_flags_with_values flag || contains allowed_boolean_flags flag

unfoldable pub check_flag : ClassifierConfig → Text → Option Text → Scan → Scan
unfolding mismatch note
check_flag c flag value s =
    route (contains denied_flags flag) (is_allowed flag) (is_constrained flag) c flag value s

abbrev pub check_flags : ClassifierConfig → List (Text × Option Text) → Scan → Scan
check_flags c [] s = s
check_flags c ((flag, value) ∷ fs) s = check_flags c fs (check_flag c flag value s)

abbrev spell : Dict (Option Text) → List Text
spell [] = []
spell ((flag, none) ∷ m) = flag ∷ spell m
spell ((flag, some v) ∷ m) = flag ∷ v ∷ spell m

abbrev pub by_key : Text × Option Text → Text × Option Text → Ordering
by_key a b = compare_text a.0 b.0

-- The action, or why there is none.
unfoldable pub check_action : Option Text → Result Text RejectionReason
check_action none = ok (text "build")
check_action (some a) =
    if contains denied_actions a
    then err (RejectionReason.denied_action a)
    else if not (contains allowed_actions a)
    then err (RejectionReason.unknown_action a)
    else ok a

abbrev pub start : Scan
start = record { flags = []; reasons = []; matched = no_constraints; sanitized = [] }

-- The end of `classify`, after the loop.
abbrev pub verdict : ClassifierConfig → Text → Scan → ClassifierResult
verdict c action s =
    if not (is_empty s.reasons)
    then rejected s.flags s.reasons
    else if not (is_empty c.allowed_schemes) && not (is_some s.matched.scheme)
    then rejected s.flags
        (s.reasons ++ (RejectionReason.missing_required_flag (text "-scheme") ∷ []))
    else accept action (action ∷ spell (sort_by by_key s.sanitized)) s.matched

unfoldable pub classify : List Text → ClassifierConfig → ClassifierResult
unfolding check_flag check_action
classify argv c = elim (parse_argv argv) [
  | err e ↦ rejected [] (RejectionReason.parse_error e ∷ [])
  | ok p ↦ elim (check_action p.action) [
    | err r ↦ rejected [] (r ∷ [])
    | ok action ↦ verdict c action (check_flags c p.flags start)
  ]
]
