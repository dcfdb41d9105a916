-- ===== src/Classifier/Parser.antt =====
-- src/classifier/parser.rs: the flags and the action of an xcodebuild command line.
use rch_mac.Base.{
  Bool, true, false, ◌&&◌, not, Option, none, some, if◌then◌else◌, Text, text, text_eq, contains,
  starts_with_char, contains_char, Dict, insert, Result, ok, err, List, [], ◌∷◌, ◌++◌,
}

-- A flag stands with its value, or with none if it had none.
pub record ParsedXcodebuildArgs : Type 0 where
  pub action : Option Text
  pub flags : Dict (Option Text)

abbrev pub boolean_flags : List Text
boolean_flags =
    text "-quiet"
    ∷ text "-verbose"
    ∷ text "-json"
    ∷ text "-enableCodeCoverage"
    ∷ text "-disableAutomaticPackageResolution"
    ∷ text "-onlyUsePackageVersionsFromResolvedFile"
    ∷ text "-skipPackagePluginValidation"
    ∷ text "-skipMacroValidation"
    ∷ text "-allowProvisioningUpdates"
    ∷ text "-allowProvisioningDeviceRegistration"
    ∷ []

abbrev pub known_actions : List Text
known_actions =
    text "build"
    ∷ text "build-for-testing"
    ∷ text "analyze"
    ∷ text "archive"
    ∷ text "test"
    ∷ text "test-without-building"
    ∷ text "install"
    ∷ text "clean"
    ∷ []

unfoldable pub is_flag : Text → Bool
is_flag arg = starts_with_char arg b'-'

-- The flag takes the argument after it as its value.
unfoldable pub takes_value : (arg next : Text) → Bool
takes_value arg next = is_flag arg && not (contains boolean_flags arg) && not (is_flag next)

abbrev pub put : Text → Option Text → ParsedXcodebuildArgs → ParsedXcodebuildArgs
put flag value r = record r { flags = insert flag value r.flags }

-- A known action: an error if there is one already.
take_action : Text → ParsedXcodebuildArgs → Option Text → Result ParsedXcodebuildArgs Text
take_action arg r none = ok (record r { action = some arg })
take_action arg r (some first) =
    err (text "Multiple actions specified: " ++ first ++ text " and " ++ arg)

-- An unknown bare word: the action if there is none yet, else a flag.
take_bare : Text → ParsedXcodebuildArgs → Option Text → ParsedXcodebuildArgs
take_bare arg r none = record r { action = some arg }
take_bare arg r (some first) = put arg none r

-- An argument that takes no value.
unfoldable pub take_one : Text → ParsedXcodebuildArgs → Result ParsedXcodebuildArgs Text
unfolding take_action take_bare
take_one arg r =
    if is_flag arg
    then ok (put arg none r)
    else if contains known_actions arg
    then take_action arg r r.action
    else if contains_char arg b'='
    then ok (put arg none r)
    else ok (take_bare arg r r.action)

-- The `while` loop, from the arguments that are left.
unfoldable pub parse_from : List Text → ParsedXcodebuildArgs → Result ParsedXcodebuildArgs Text
parse_from [] r = ok r
parse_from (arg ∷ []) r = take_one arg r
parse_from (arg ∷ next ∷ rest) r = elim (takes_value arg next) [
  | true ↦ parse_from rest (put arg (some next) r)
  | false ↦ elim (take_one arg r) [ ok r' ↦ parse_from (next ∷ rest) r' | err e ↦ err e ]
]

abbrev pub empty : ParsedXcodebuildArgs
empty = record { action = none; flags = [] }

unfoldable pub parse_xcodebuild_argv : List Text → Result ParsedXcodebuildArgs Text
unfolding parse_from
parse_xcodebuild_argv [] = parse_from [] empty
parse_xcodebuild_argv (arg ∷ argv) =
    if text_eq arg (text "xcodebuild") then parse_from argv empty else parse_from (arg ∷ argv) empty
