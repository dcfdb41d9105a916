-- ===== src/Classifier.antt =====
-- src/classifier/: the deny-by-default gate for xcodebuild command lines. Parser is parser.rs; this
-- file is mod.rs and result.rs; what is proved stands in the other children.
pub mod Parser
pub mod Flags
pub mod Entries
pub mod Reparse
pub mod FixedPoint
pub mod Gaps
pub mod Verdict
pub mod Canonical
pub mod RepoConfig
pub mod Examples
use rch_mac.Base.{
  Ordering, Bool, true, false, ◌&&◌, ◌||◌, not, Option, none, some, is_some, unwrap_or,
  if◌then◌else◌, Text, text, text_eq, contains, Dict, get, contains_key, Result, ok, err, List, [],
  ◌∷◌, ◌++◌, is_empty,
}
use rch_mac.Base.Compare.{compare_text}
use rch_mac.Base.Sort.{sort_by}
use Parser.{ParsedXcodebuildArgs, parse_xcodebuild_argv}

pub record ClassifierConfig : Type 0 where
  pub workspace : Option Text
  pub project : Option Text
  pub scheme : Text
  pub destination : Option Text
  pub allowed_configurations : List Text

pub record Classifier : Type 0 where
  pub config : ClassifierConfig
  pub allowed_actions : List Text
  pub allowed_flags : List Text
  pub denied_actions : List Text
  pub denied_flags : List Text

-- `Classifier::new`
unfoldable pub new : ClassifierConfig → Classifier
new config = record {
  config = config;
  allowed_actions = text "build" ∷ text "test" ∷ [];
  allowed_flags =
      text "-workspace"
      ∷ text "-project"
      ∷ text "-scheme"
      ∷ text "-destination"
      ∷ text "-configuration"
      ∷ text "-sdk"
      ∷ text "-quiet"
      ∷ [];
  denied_actions = text "archive" ∷ text "clean" ∷ [];
  denied_flags =
      text "-exportArchive"
      ∷ text "-exportNotarizedApp"
      ∷ text "-resultBundlePath"
      ∷ text "-derivedDataPath"
      ∷ text "-archivePath"
      ∷ text "-exportPath"
      ∷ text "-exportOptionsPlist"
      ∷ [];
}

pub data RejectionReason : Type 0 where
  parse_error : Text → RejectionReason
  denied_action : Text → RejectionReason
  unknown_action : Text → RejectionReason
  missing_action : RejectionReason
  denied_flag : Text → RejectionReason
  unknown_flag : Text → RejectionReason
  missing_required_flag : Text → RejectionReason
  workspace_mismatch : (expected actual : Text) → RejectionReason
  project_mismatch : (expected actual : Text) → RejectionReason
  scheme_mismatch : (expected actual : Text) → RejectionReason
  configuration_not_allowed : Text → RejectionReason
  destination_mismatch : (expected actual : Text) → RejectionReason

pub record MatchedConstraints : Type 0 where
  pub workspace : Option Text
  pub project : Option Text
  pub scheme : Text
  pub destination : Option Text
  pub configuration : Option Text

abbrev no_constraints : MatchedConstraints
no_constraints = record {
  workspace = none;
  project = none;
  scheme = [];
  destination = none;
  configuration = none;
}

pub record ClassifierResult : Type 0 where
  pub accepted : Bool
  pub action : Option Text
  pub sanitized_argv : Option (List Text)
  pub rejected_flags : List Text
  pub rejection_reasons : List RejectionReason
  pub matched_constraints : MatchedConstraints

-- `ClassifierResult::rejected`
rejected : List RejectionReason → ClassifierResult
rejected reasons = record {
  accepted = false;
  action = none;
  sanitized_argv = none;
  rejected_flags = [];
  rejection_reasons = reasons;
  matched_constraints = no_constraints;
}

-- The check of the action: the reason against it, or the action.
check_action : Classifier → Option Text → Result Text RejectionReason
check_action k none = err missing_action
check_action k (some a) =
    if contains k.denied_actions a
    then err (denied_action a)
    else if contains k.allowed_actions a
    then ok a
    else err (unknown_action a)

-- A value against the value that the configuration expects, if it expects one.
check_pinned : (Text → Text → RejectionReason) → Option Text → Text → Option RejectionReason
check_pinned reason none value = none
check_pinned reason (some expected) value =
    if text_eq value expected then none else some (reason expected value)

-- The `match flag.as_str()` on the value of an allowed flag.
check_value : ClassifierConfig → Text → Text → Option RejectionReason
unfolding check_pinned
check_value c flag value =
    if text_eq flag (text "-workspace")
    then check_pinned workspace_mismatch c.workspace value
    else if text_eq flag (text "-project")
    then check_pinned project_mismatch c.project value
    else if text_eq flag (text "-scheme")
    then check_pinned scheme_mismatch (some c.scheme) value
    else if text_eq flag (text "-configuration")
    then (if not (is_empty c.allowed_configurations)
          && not (contains c.allowed_configurations value)
        then some (configuration_not_allowed value)
        else none)
    else none

check_given : ClassifierConfig → Text → Option Text → Option RejectionReason
unfolding check_value
check_given c flag none = none
check_given c flag (some value) = check_value c flag value

-- The body of the loop over the flags: each flag gives one reason at most, and is a rejected flag
-- exactly if it gives one.
unfoldable pub check_flag : Classifier → Text → Option Text → Option RejectionReason
unfolding check_given
check_flag k flag value =
    if contains k.denied_flags flag
    then some (denied_flag flag)
    else if not (contains k.allowed_flags flag)
    then some (unknown_flag flag)
    else check_given k.config flag value

-- The loop, in the order in which the map hands out its entries.
pub flag_reasons : Classifier → Dict (Option Text) → List RejectionReason
flag_reasons k [] = []
flag_reasons k ((flag, value) ∷ entries) = elim (check_flag k flag value) [
  | none ↦ flag_reasons k entries
  | some reason ↦ reason ∷ flag_reasons k entries
]

pub bad_flags : Classifier → Dict (Option Text) → List Text
bad_flags k [] = []
bad_flags k ((flag, value) ∷ entries) = elim (check_flag k flag value) [
  | none ↦ bad_flags k entries
  | some reason ↦ flag ∷ bad_flags k entries
]

abbrev need : Bool → Text → List RejectionReason
need missing flag = if missing then missing_required_flag flag ∷ [] else []

-- The flags that the configuration requires.
unfoldable pub missing_flags : ClassifierConfig → Dict (Option Text) → List RejectionReason
missing_flags c flags =
    need (is_some c.workspace && not (contains_key (text "-workspace") flags)) (text "-workspace")
    ++ (need (is_some c.project && not (contains_key (text "-project") flags)) (text "-project")
        ++ need (not (contains_key (text "-scheme") flags)) (text "-scheme"))

-- `parsed.flags.get(flag).and_then(|v| v.clone())`
given : Text → Dict (Option Text) → Option Text
given flag flags = unwrap_or (get flag flags) none

unfoldable pub extract_matched_constraints : Dict (Option Text) → MatchedConstraints
unfolding given
extract_matched_constraints flags = record {
  workspace = given (text "-workspace") flags;
  project = given (text "-project") flags;
  scheme = unwrap_or (given (text "-scheme") flags) [];
  destination = given (text "-destination") flags;
  configuration = given (text "-configuration") flags;
}

-- Flags with their values, spelled out again.
pub spell : Dict (Option Text) → List Text
spell [] = []
spell ((flag, none) ∷ entries) = flag ∷ spell entries
spell ((flag, some v) ∷ entries) = flag ∷ v ∷ spell entries

abbrev pub by_key : Text × Option Text → Text × Option Text → Ordering
by_key a b = compare_text a.0 b.0

unfoldable pub build_sanitized_argv : Text → Dict (Option Text) → List Text
unfolding spell
build_sanitized_argv action entries = action ∷ spell (sort_by by_key entries)

unfoldable pub action_reasons : Classifier → Option Text → List RejectionReason
unfolding check_action
action_reasons k action = elim (check_action k action) [ ok a ↦ [] | err r ↦ r ∷ [] ]

-- All reasons, in the order in which they are pushed.
unfoldable pub all_reasons :
    Classifier → Option Text → (flags entries : Dict (Option Text)) → List RejectionReason
unfolding action_reasons missing_flags
all_reasons k action flags entries =
    action_reasons k action ++ (flag_reasons k entries ++ missing_flags k.config flags)

-- What `classify` does once the arguments are parsed. `entries` are those of the map, in the order
-- of its iteration.
unfoldable pub judge :
    Classifier → ParsedXcodebuildArgs → (entries : Dict (Option Text)) → ClassifierResult
unfolding all_reasons
judge k parsed entries = elim (all_reasons k parsed.action parsed.flags entries) [
  | [] ↦ record {
    accepted = true;
    action = parsed.action;
    sanitized_argv = some (build_sanitized_argv (unwrap_or parsed.action []) entries);
    rejected_flags = [];
    rejection_reasons = [];
    matched_constraints = extract_matched_constraints parsed.flags;
  }
  | r ∷ rs ↦ record {
    accepted = false;
    action = none;
    sanitized_argv = none;
    rejected_flags = bad_flags k entries;
    rejection_reasons = r ∷ rs;
    matched_constraints = extract_matched_constraints parsed.flags;
  }
]

-- `order` is the order in which the hash map hands out its entries, which is left open.
unfoldable pub classify :
    (order : Dict (Option Text) → Dict (Option Text)) → Classifier → List Text → ClassifierResult
unfolding judge rejected
classify order k argv = elim (parse_xcodebuild_argv argv) [
  | ok parsed ↦ judge k parsed (order parsed.flags)
  | err e ↦ rejected (parse_error e ∷ [])
]
