-- ===== src/Classifier/Examples.antt =====
-- The theorems on src/classifier/ at one configuration and a few command lines.
use mathlib.Core.List.Perm
use rch_mac.Base.{
  true, Option, none, some, Text, text, contains, text_eq, Dict, insert, get, ok, List, [], ◌∷◌,
  Perm, ◌≡◌, ◌↔◌, inl, refl, starts_with_char,
}
use rch_mac.Base.Sort.{sort_by}
use rch_mac.Base.Compare.{compare_text}
use rch_mac.Classifier.Parser.{
  ParsedXcodebuildArgs, takes_value, is_flag, take_one, parse_xcodebuild_argv,
}
use rch_mac.Classifier.{
  ClassifierConfig, new, classify, build_sanitized_argv, flag_reasons, check_flag,
}
use rch_mac.Classifier.Entries.{Parsed, parse-Parsed}
use rch_mac.Classifier.Verdict.{Acceptable, classify_iff}
use rch_mac.Classifier.FixedPoint.{sanitized-fixed}
use rch_mac.Classifier.Gaps.{valueless-accepted, bare_flags}

abbrev config : ClassifierConfig
config = record {
  workspace = none;
  project = some (text "App.xcodeproj");
  scheme = text "App";
  destination = none;
  allowed_configurations = text "Debug" ∷ [];
}

abbrev argv : List Text
argv =
    text "test"
    ∷ text "-scheme"
    ∷ text "App"
    ∷ text "-project"
    ∷ text "App.xcodeproj"
    ∷ text "-quiet"
    ∷ []

abbrev as_is : Dict (Option Text) → Dict (Option Text)
as_is m = m

abbrev fair : (m : Dict (Option Text)) → Perm (as_is m) m
fair m = Perm.refl m

abbrev swapped : Dict (Option Text) → Dict (Option Text)
swapped [] = []
swapped (e ∷ []) = e ∷ []
swapped (e ∷ f ∷ m) = f ∷ e ∷ m

swapped-perm : (m : Dict (Option Text)) → Perm (swapped m) m
swapped-perm [] = Perm.refl []
swapped-perm (e ∷ []) = Perm.refl (e ∷ [])
swapped-perm (e ∷ f ∷ m) = Perm.swap e f m

abbrev parsed : ParsedXcodebuildArgs
parsed = record {
  action = some (text "test");
  flags =
      (text "-scheme", some (text "App"))
      ∷ (text "-project", some (text "App.xcodeproj"))
      ∷ (text "-quiet", none)
      ∷ [];
}

parsed-Parsed : Parsed parsed
unfolding parse_xcodebuild_argv text_eq takes_value is_flag starts_with_char take_one contains
    insert
parsed-Parsed = parse-Parsed argv parsed refl

classify_iff_example :
    ((classify swapped (new config) argv).accepted ≡ true)
    ↔ ((p : ParsedXcodebuildArgs) × (parse_xcodebuild_argv argv ≡ ok p) × Acceptable config p)
classify_iff_example = classify_iff swapped swapped-perm config argv

abbrev sanitized : List Text
sanitized =
    text "test"
    ∷ text "-project"
    ∷ text "App.xcodeproj"
    ∷ text "-quiet"
    ∷ text "-scheme"
    ∷ text "App"
    ∷ []

sanitized_argv_of : (classify as_is (new config) argv).sanitized_argv ≡ some sanitized
unfolding classify new parse_xcodebuild_argv build_sanitized_argv text_eq takes_value is_flag
    starts_with_char take_one contains insert flag_reasons check_flag get sort_by compare_text
sanitized_argv_of = refl

sanitized-fixed_example :
    ((classify as_is (new config) sanitized).sanitized_argv ≡ some sanitized)
    × ((classify as_is (new config) sanitized).action ≡ (classify as_is (new config) argv).action)
sanitized-fixed_example = sanitized-fixed as_is fair config argv sanitized sanitized_argv_of

valueless-accepted_example :
    (classify as_is (new config) (text "build" ∷ bare_flags)).accepted ≡ true
valueless-accepted_example = valueless-accepted as_is fair config (text "build") (inl refl)
