-- ===== src/Classifier/Gaps.antt =====
-- Flags without a value are held to no pin (src/classifier/mod.rs, `if let Some(value) = value`).
use rch_mac.Base.{
  true, Option, none, some, ap, Text, text, Dict, get, text_eq, contains, List, [], ◌∷◌, Perm, ◌≡◌,
  inl, inr, refl, starts_with_char, insert,
}
use rch_mac.Classifier.Parser.{parse_from, takes_value, take_one, is_flag}
use rch_mac.Classifier.{ClassifierConfig, new, classify}
use rch_mac.Classifier.Flags.{AllowedFlag, valueless}
use rch_mac.Classifier.Verdict.{classify_iff}
use rch_mac.Classifier.Canonical.{IsAction, parse_action}

abbrev pub bare_flags : List Text
bare_flags = text "-project" ∷ text "-scheme" ∷ text "-workspace" ∷ []

abbrev bare_entries : Dict (Option Text)
bare_entries = (text "-project", none) ∷ (text "-scheme", none) ∷ (text "-workspace", none) ∷ []

-- `build -project -scheme -workspace`, with no value at any flag, is accepted under every
-- configuration, whatever workspace, project and scheme it pins; so is `test`.
pub valueless-accepted :
    (order : Dict (Option Text) → Dict (Option Text))
    → ((m : Dict (Option Text)) → Perm (order m) m)
    → (c : ClassifierConfig) (a : Text) → IsAction a
    → (classify order (new c) (a ∷ bare_flags)).accepted ≡ true
unfolding parse_from takes_value take_one is_flag starts_with_char contains text_eq insert get
valueless-accepted order fair c a ia = (classify_iff order fair c (a ∷ bare_flags)).1 (
  record { action = some a; flags = bare_entries },
  parse_action a bare_flags ia,
  record {
    action_ok = elim ia [ inl e ↦ inl (ap some e) | inr e ↦ inr (ap some e) ];
    flags_ok = (
      valueless (AllowedFlag.project refl),
      (valueless (AllowedFlag.scheme refl), (valueless (AllowedFlag.workspace refl), tt)),
    );
    workspace_given = inr (none, refl);
    project_given = inr (none, refl);
    scheme_given = (none, refl);
  },
)
