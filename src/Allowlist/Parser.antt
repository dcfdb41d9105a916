-- ===== src/Allowlist/Parser.antt =====
-- src/crates/rch-classifier/src/parser.rs: the action, the flags and the build settings of an
-- xcodebuild command line. The inner test of line 189 asks for a value that starts with `-` and does
-- not, and has no part here.
use rch_mac.Base.{
  Bool, true, false, ◌&&◌, ◌||◌, not, ◌==◌, Option, none, some, if◌then◌else◌, Text, text, contains,
  starts_with_char, contains_char, Result, ok, err, List, [], ◌∷◌, ◌++◌,
}

pub record ParsedArgv : Type 0 where
  pub action : Option Text
  pub flags : List (Text × Option Text)
  pub build_settings : List (Text × Text)

abbrev pub known_actions : List Text
known_actions =
    text "build"
    ∷ text "build-for-testing"
    ∷ text "analyze"
    ∷ text "archive"
    ∷ text "test"
    ∷ text "test-without-building"
    ∷ text "installsrc"
    ∷ text "install"
    ∷ text "clean"
    ∷ text "docbuild"
    ∷ text "exportArchive"
    ∷ text "exportNotarizedApp"
    ∷ text "exportLocalizations"
    ∷ text "importLocalizations"
    ∷ []

abbrev pub flags_with_values : List Text
flags_with_values =
    text "-workspace"
    ∷ text "-project"
    ∷ text "-target"
    ∷ text "-alltargets"
    ∷ text "-scheme"
    ∷ text "-destination"
    ∷ text "-configuration"
    ∷ text "-arch"
    ∷ text "-sdk"
    ∷ text "-toolchain"
    ∷ text "-jobs"
    ∷ text "-parallelizeTargets"
    ∷ text "-showBuildTimingSummary"
    ∷ text "-resultBundlePath"
    ∷ text "-derivedDataPath"
    ∷ text "-archivePath"
    ∷ text "-exportPath"
    ∷ text "-exportOptionsPlist"
    ∷ text "-clonedSourcePackagesDirPath"
    ∷ text "-xctestrun"
    ∷ text "-testPlan"
    ∷ text "-only-testing"
    ∷ text "-skip-testing"
    ∷ text "-maximum-concurrent-test-device-destinations"
    ∷ text "-maximum-concurrent-test-simulator-destinations"
    ∷ text "-test-iterations"
    ∷ text "-retry-tests-on-failure"
    ∷ text "-test-repetition-relaunch-enabled"
    ∷ text "-resultStreamPath"
    ∷ text "-IDEPackageSupportUseBuiltinSCM"
    ∷ text "-skipPackagePluginValidation"
    ∷ text "-skipMacroValidation"
    ∷ text "-xcconfig"
    ∷ text "-xctarget"
    ∷ text "-xcroot"
    ∷ text "-buildstyle"
    ∷ text "-installpath"
    ∷ text "-objroot"
    ∷ text "-symroot"
    ∷ text "-dstroot"
    ∷ text "-exportLanguage"
    ∷ text "-localizationPath"
    ∷ text "-localization"
    ∷ []

abbrev pub boolean_flags : List Text
boolean_flags =
    text "-quiet"
    ∷ text "-verbose"
    ∷ text "-hideShellScriptEnvironment"
    ∷ text "-showsdks"
    ∷ text "-showdestinations"
    ∷ text "-showBuildSettings"
    ∷ text "-showBuildSettingsForIndex"
    ∷ text "-list"
    ∷ text "-find-executable"
    ∷ text "-find-library"
    ∷ text "-version"
    ∷ text "-usage"
    ∷ text "-license"
    ∷ text "-checkFirstLaunchStatus"
    ∷ text "-runFirstLaunch"
    ∷ text "-downloadPlatform"
    ∷ text "-downloadAllPlatforms"
    ∷ text "-exportNotarizedApp"
    ∷ text "-enableCodeCoverage"
    ∷ text "-disableCodeCoverage"
    ∷ text "-enableAddressSanitizer"
    ∷ text "-enableThreadSanitizer"
    ∷ text "-enableUndefinedBehaviorSanitizer"
    ∷ text "-testLanguage"
    ∷ text "-testRegion"
    ∷ text "-parallel-testing-enabled"
    ∷ text "-allowProvisioningUpdates"
    ∷ text "-allowProvisioningDeviceRegistration"
    ∷ text "-showTestPlans"
    ∷ text "-json"
    ∷ text "-dry-run"
    ∷ text "-n"
    ∷ []

-- `find('=')` with `split_at`, and `splitn(2, '=')`: what stands before and behind the first `=`.
unfoldable pub before_eq : Text → Text
before_eq [] = []
before_eq (c ∷ s) = let rest = before_eq s in if c == b'=' then [] else c ∷ rest

unfoldable pub after_eq : Text → Text
after_eq [] = []
after_eq (c ∷ s) = let rest = after_eq s in if c == b'=' then s else rest

abbrev pub is_flag : Text → Bool
is_flag arg = starts_with_char arg b'-'

-- The flag takes the argument behind it: one that wants a value takes any, an unknown one takes what
-- looks like no flag and no action.
unfoldable pub takes_next : (arg next : Text) → Bool
takes_next arg next =
    is_flag arg
    && not (contains_char arg b'=')
    && not (contains boolean_flags arg)
    && (contains flags_with_values arg || (not (is_flag next) && not (contains known_actions next)))

abbrev pub push : Text → Option Text → ParsedArgv → ParsedArgv
push flag value p = record p { flags = p.flags ++ ((flag, value) ∷ []) }

abbrev take_action : Text → ParsedArgv → Option Text → Result ParsedArgv Text
take_action arg p none = ok (record p { action = some arg })
take_action arg p (some a) = err (text "multiple actions specified: " ++ a ++ text " and " ++ arg)

-- An argument that takes no other one.
unfoldable pub take_one : Text → ParsedArgv → Result ParsedArgv Text
unfolding before_eq after_eq
take_one arg p =
    if not (is_flag arg)
    then (if contains_char arg b'='
        then ok
            (record p { build_settings = p.build_settings ++ ((before_eq arg, after_eq arg) ∷ []) })
        else if contains known_actions arg
        then take_action arg p p.action
        else err (text "unknown bare word: " ++ arg))
    else if contains_char arg b'='
    then ok (push (before_eq arg) (some (after_eq arg)) p)
    else if contains boolean_flags arg
    then ok (push arg none p)
    else if contains flags_with_values arg
    then err (text "flag " ++ arg ++ text " requires a value")
    else ok (push arg none p)

-- The `while` loop, from the arguments that are left.
unfoldable pub parse_from : List Text → ParsedArgv → Result ParsedArgv Text
parse_from [] p = ok p
parse_from (arg ∷ []) p = take_one arg p
parse_from (arg ∷ next ∷ rest) p = elim (takes_next arg next) [
  | true ↦ parse_from rest (push arg (some next) p)
  | false ↦ elim (take_one arg p) [ ok q ↦ parse_from (next ∷ rest) q | err e ↦ err e ]
]

abbrev pub empty : ParsedArgv
empty = record { action = none; flags = []; build_settings = [] }

unfoldable pub parse_argv : List Text → Result ParsedArgv Text
unfolding parse_from
parse_argv argv = parse_from argv empty
