-- ===== src/Allowlist/Examples.antt =====
-- The gate on concrete command lines.
use rch_mac.Base.{
  true, Option, none, some, Text, text, List, [], ◌∷◌, ◌++◌, Mem, ok, ◌↔◌, ◌≡◌, refl,
}
use rch_mac.Allowlist.Parser.{ParsedArgv, parse_argv}
use rch_mac.Allowlist.{ClassifierConfig, RejectionReason, classify}
use rch_mac.Allowlist.Denied.{Denied}
use rch_mac.Allowlist.Acceptable.{ActionOk, Acceptable}
use rch_mac.Allowlist.Verdict.{accepted_iff, scheme_swallows}

abbrev config : ClassifierConfig
config = record {
  workspace = some (text "A.xcworkspace");
  project = none;
  allowed_schemes = text "A" ∷ [];
  destination = none;
  allowed_configurations = [];
}

abbrev argv : List Text
argv =
    text "test"
    ∷ text "-workspace"
    ∷ text "A.xcworkspace"
    ∷ text "-scheme"
    ∷ text "A"
    ∷ text "-quiet"
    ∷ []

accepted_iff_example :
    (((classify argv config).accepted ≡ true)
      ↔ ((p : ParsedArgv) × (parse_argv argv ≡ ok p) × Acceptable config p))
    × ((p : ParsedArgv) (flag : Text) (value : Option Text)
          (before after : List (Text × Option Text))
        → parse_argv argv ≡ ok p
        → ActionOk p.action
        → p.flags ≡ before ++ ((flag, value) ∷ after)
        → Denied flag
        → Mem (RejectionReason.denied_flag flag) (classify argv config).rejection_reasons)
accepted_iff_example = accepted_iff argv config

abbrev free : ClassifierConfig
free = record config { allowed_schemes = [] }

scheme_swallows_example :
    ((classify (text "-scheme" ∷ text "-derivedDataPath=/" ∷ []) free).accepted ≡ true)
    × ((classify (text "-scheme" ∷ text "-derivedDataPath=/" ∷ []) free).sanitized_argv
        ≡ some (text "build" ∷ text "-scheme" ∷ text "-derivedDataPath=/" ∷ []))
scheme_swallows_example = scheme_swallows (text "-derivedDataPath=/") free refl

argv_accepted :
    (classify argv config).sanitized_argv
    ≡ some (
        text "test"
        ∷ text "-quiet"
        ∷ text "-scheme"
        ∷ text "A"
        ∷ text "-workspace"
        ∷ text "A.xcworkspace"
        ∷ [])
unfolding classify parse_argv rch_mac.Allowlist.Parser.takes_next rch_mac.Base.starts_with_char
    rch_mac.Allowlist.Parser.take_one rch_mac.Base.contains_char rch_mac.Base.contains
    rch_mac.Base.text_eq rch_mac.Base.Sort.sort_by rch_mac.Base.insert
    rch_mac.Base.Compare.compare_text
argv_accepted = refl
