-- ===== src/Classifier/Canonical.antt =====
-- The sanitized command line of src/classifier/: no iteration order shows in it, and it is a command
-- line that the classifier accepts and leaves as it is.
use rch_mac.Base.{
  true, Option, none, some, unwrap_or, is_empty, Text, text, Dict, ok, Result-cases, List, [], ◌∷◌,
  All, Perm, ◌≡◌, inl, inr, ◌⊎◌, ◌∙◌, ap, arith, if◌then◌else◌, starts_with_char, contains, text_eq,
}
use rch_mac.Base.Sort.{sort_by, sort_by-All}
use rch_mac.Classifier.Parser.{
  ParsedXcodebuildArgs, parse_xcodebuild_argv, is_flag, parse_from, take_one, takes_value,
}
use rch_mac.Classifier.{
  ClassifierConfig, Classifier, classify, judge, spell, by_key, build_sanitized_argv, all_reasons,
}
use rch_mac.Classifier.Flags.{
  AllowedFlag, FlagOk, valueless, in_workspace, in_project, of_scheme, in_configuration,
  for_destination, with_sdk, with_quiet,
}
use rch_mac.Classifier.Entries.{Parsed, parse-Parsed, Spelt, sort_by_key_unique}
use rch_mac.Classifier.Reparse.{sort_by-IsDict, Readable, parse_from-spell}
use rch_mac.Classifier.Verdict.{is_empty-all_reasons}

-- What `judge` answers on acceptance.
judge_accepted :
    (k : Classifier) (p : ParsedXcodebuildArgs) (entries : Dict (Option Text))
    → (judge k p entries).sanitized_argv ≡ (
        if is_empty (all_reasons k p.action p.flags entries)
        then some (build_sanitized_argv (unwrap_or p.action []) entries)
        else none)
unfolding judge
judge_accepted k p entries = ground arith

pub argv_unique :
    (a : Text) (p : ParsedXcodebuildArgs) (es fs : Dict (Option Text))
    → Parsed p
    → Perm es p.flags
    → Perm fs p.flags
    → build_sanitized_argv a es ≡ build_sanitized_argv a fs
unfolding build_sanitized_argv
argv_unique a p es fs d q r =
    ap (λ l. a ∷ spell l) (sort_by_key_unique p.flags es fs d.distinct q r)

judge-order :
    (k : Classifier) (p : ParsedXcodebuildArgs) (es fs : Dict (Option Text))
    → Parsed p
    → Perm es p.flags
    → Perm fs p.flags
    → (judge k p es).sanitized_argv ≡ (judge k p fs).sanitized_argv
judge-order k p es fs d q r =
    rw (judge_accepted k p es, judge_accepted k p fs)
      (rw (
        is_empty-all_reasons k p.action p.flags es q,
        is_empty-all_reasons k p.action p.flags fs r,
        argv_unique (unwrap_or p.action []) p es fs d q r,
      ))

-- Two orders of the map of flags give the same sanitized command line, or none with both.
sanitized-order :
    (order other : Dict (Option Text) → Dict (Option Text))
    → ((m : Dict (Option Text)) → Perm (order m) m)
    → ((m : Dict (Option Text)) → Perm (other m) m)
    → (k : Classifier) (argv : List Text)
    → (classify order k argv).sanitized_argv ≡ (classify other k argv).sanitized_argv
unfolding classify
sanitized-order order other fair fair' k argv = elim (Result-cases (parse_xcodebuild_argv argv)) [
  | inl (p, e) ↦
      rw (e, classify)
        (judge-order k p (order p.flags) (other p.flags) (parse-Parsed argv p e) (fair p.flags)
          (fair' p.flags))
  | inr (x, e) ↦ rw (e, classify)
]

-- The flags that pass begin with a dash.
AllowedFlag-is_flag : (flag : Text) → AllowedFlag flag → is_flag flag ≡ true
unfolding is_flag starts_with_char
AllowedFlag-is_flag flag (AllowedFlag.workspace e) = rw e
AllowedFlag-is_flag flag (AllowedFlag.project e) = rw e
AllowedFlag-is_flag flag (AllowedFlag.scheme e) = rw e
AllowedFlag-is_flag flag (AllowedFlag.destination e) = rw e
AllowedFlag-is_flag flag (AllowedFlag.configuration e) = rw e
AllowedFlag-is_flag flag (AllowedFlag.sdk e) = rw e
AllowedFlag-is_flag flag (AllowedFlag.quiet e) = rw e

FlagOk-allowed :
    (c : ClassifierConfig) (flag : Text) (v : Option Text) → FlagOk c flag v → AllowedFlag flag
FlagOk-allowed c flag v (valueless a) = a
FlagOk-allowed c flag v (in_workspace e p) = AllowedFlag.workspace e
FlagOk-allowed c flag v (in_project e p) = AllowedFlag.project e
FlagOk-allowed c flag v (of_scheme e p) = AllowedFlag.scheme e
FlagOk-allowed c flag v (in_configuration e p) = AllowedFlag.configuration e
FlagOk-allowed c flag v (for_destination e) = AllowedFlag.destination e
FlagOk-allowed c flag v (with_sdk e) = AllowedFlag.sdk e
FlagOk-allowed c flag v (with_quiet e) = AllowedFlag.quiet e

readable :
    (c : ClassifierConfig) (m : Dict (Option Text))
    → All (λ e. FlagOk c e.0 e.1) m
    → All Spelt m
    → All Readable m
readable c [] h s = tt
readable c (e ∷ m) h s =
    ((AllowedFlag-is_flag e.0 (FlagOk-allowed c e.0 e.1 h.0), s.0), readable c m h.1 s.1)

abbrev pub IsAction : Text → Type 0
IsAction a = (a ≡ text "build") ⊎ (a ≡ text "test")

abbrev pub started : Text → ParsedXcodebuildArgs
started a = record { action = some a; flags = [] }

-- An action in front is read as the action.
pub parse_action :
    (a : Text) (rest : List Text)
    → IsAction a
    → parse_xcodebuild_argv (a ∷ rest) ≡ parse_from rest (started a)
unfolding parse_xcodebuild_argv parse_from takes_value take_one is_flag starts_with_char contains
    text_eq
parse_action a [] (inl e) = rw e
parse_action a [] (inr e) = rw e
parse_action a (next ∷ rest) (inl e) = rw e
parse_action a (next ∷ rest) (inr e) = rw e

-- For arguments as the parser makes them, whose flags the configuration allows, the canonical
-- command line parses into the action and the flags in order.
pub parse-sanitized :
    (c : ClassifierConfig) (p : ParsedXcodebuildArgs) (a : Text)
    → Parsed p
    → All (λ e. FlagOk c e.0 e.1) p.flags
    → IsAction a
    → parse_xcodebuild_argv (build_sanitized_argv a p.flags)
      ≡ ok (record { action = some a; flags = sort_by by_key p.flags })
unfolding build_sanitized_argv
parse-sanitized c p a d h ia =
    let ready = sort_by-All Readable by_key p.flags (readable c p.flags h d.spelt) in
    parse_action a (spell (sort_by by_key p.flags)) ia
    ∙ parse_from-spell (sort_by by_key p.flags) (started a) ready
        (sort_by-IsDict p.flags d.distinct)
