-- ===== src/Classifier/RepoConfig.antt =====
-- src/classifier/config.rs: the configuration of a repository, its checks, and the configuration of
-- the classifier that is made of it. `is_whitespace` is `char::is_whitespace`, whose tables are those
-- of the standard library.
use rch_mac.Base.{
  ℕ, ◌==◌, Bool, true, false, ◌&&◌, ◌||◌, not, Option, none, some, is_some, unwrap_or,
  if◌then◌else◌, Text, text, text_eq, text_eq_iff, contains, contains_char, List, [], ◌∷◌, all,
  head?, is_empty, All, Option-cases, inl, inr, ◌≡◌, ◌↔◌, refl, arith,
}
use rch_mac.Toolchain.Versions.{split}
use rch_mac.Classifier.{ClassifierConfig}

pub record VerifyAction : Type 0 where
  pub action : Text
  pub args : List Text
  pub scheme : Option Text
  pub configuration : Option Text

pub record RepoConfig : Type 0 where
  pub workspace : Option Text
  pub project : Option Text
  pub schemes : List Text
  pub destinations : List Text
  pub configurations : List Text
  pub verify : List VerifyAction
  pub max_bytes : ℕ

-- The validation errors, one constructor for each message; a pair is kept before it is trimmed.
pub data RepoConfigError : Type 0 where
  both_workspace_and_project no_scheme : RepoConfigError
  empty_destination empty_key : RepoConfigError
  invalid_syntax invalid_action : Text → RepoConfigError

-- `first.or(second)` of the errors of two checks.
abbrev first : Option RepoConfigError → Option RepoConfigError → Option RepoConfigError
first none e = e
first (some e) _ = some e

-- What stands before the first '='.
unfoldable key_of : Text → Text
key_of [] = []
key_of (c ∷ s) = let rest = key_of s in if c == 61 then [] else c ∷ rest

module _ (is_whitespace : ℕ → Bool) where
  unfoldable check_pair : Text → Option RepoConfigError
  unfolding key_of
  check_pair pair =
      if not (contains_char pair 61)
      then some (invalid_syntax pair)
      else if all is_whitespace (key_of pair)
      then some empty_key
      else none

  unfoldable check_pairs : List Text → Option RepoConfigError
  unfolding check_pair
  check_pairs [] = none
  check_pairs (p ∷ ps) = let rest = check_pairs ps in first (check_pair p) rest

  unfoldable validate_destination : Text → Option RepoConfigError
  unfolding check_pairs
  validate_destination dest =
      if is_empty dest then some empty_destination else check_pairs (split 44 dest)

  unfoldable check_destinations : List Text → Option RepoConfigError
  unfolding validate_destination
  check_destinations [] = none
  check_destinations (d ∷ ds) =
      let rest = check_destinations ds in first (validate_destination d) rest

  abbrev is_verify_action : VerifyAction → Bool
  is_verify_action a = text_eq a.action (text "build") || text_eq a.action (text "test")

  unfoldable check_actions : List VerifyAction → Option RepoConfigError
  check_actions [] = none
  check_actions (a ∷ l) =
      let rest = check_actions l in
      if is_verify_action a then rest else some (invalid_action a.action)

  unfoldable validate : RepoConfig → Option RepoConfigError
  unfolding check_destinations check_actions
  validate r =
      if is_some r.workspace && is_some r.project
      then some both_workspace_and_project
      else if is_empty r.schemes
      then some no_scheme
      else first (check_destinations r.destinations) (check_actions r.verify)

  check_destinations_iff :
      (ds : List Text)
      → (check_destinations ds ≡ none) ↔ All (λ d. validate_destination d ≡ none) ds
  unfolding check_destinations
  check_destinations_iff [] = (λ h. tt, λ h. refl)
  check_destinations_iff (d ∷ ds) =
      let rest = check_destinations_iff ds in
      elim (Option-cases (validate_destination d)) [
        | inl e ↦ (λ h. (e, rest.0 (ground arith)), λ h. let r = rest.1 h.1 in ground arith)
        | inr (x, e) ↦ (λ h. absurd (ground arith), λ h. absurd (let q = h.0 in ground arith))
      ]

  check_actions_iff :
      (l : List VerifyAction) → (check_actions l ≡ none) ↔ (all is_verify_action l ≡ true)
  unfolding check_actions
  check_actions_iff [] = (λ h. refl, λ h. refl)
  check_actions_iff (a ∷ l) =
      let rest = check_actions_iff l in (λ h. ground arith, λ h. ground arith)

  -- A configuration is valid exactly when it does not name both a workspace and a project, names a
  -- scheme, and its destinations and actions are well formed.
  validate-repo_iff :
      (r : RepoConfig)
      → (validate r ≡ none) ↔ (
          (is_some r.workspace && is_some r.project ≡ false)
          × (is_empty r.schemes ≡ false)
          × All (λ d. validate_destination d ≡ none) r.destinations
          × (all is_verify_action r.verify ≡ true))
  unfolding validate
  validate-repo_iff r =
      let a = check_destinations_iff r.destinations in
      let b = check_actions_iff r.verify in
      (
        λ h. (ground arith, ground arith, a.0 (ground arith), b.0 (ground arith)),
        λ h. let x = a.1 h.2 in let y = b.1 h.3 in ground arith,
      )

unfoldable to_classifier_config : RepoConfig → ClassifierConfig
to_classifier_config r = record {
  workspace = r.workspace;
  project = r.project;
  scheme = unwrap_or (head? r.schemes) [];
  destination = head? r.destinations;
  allowed_configurations = r.configurations;
}

unfoldable to_classifier_config_for_scheme : RepoConfig → Text → Option ClassifierConfig
unfolding to_classifier_config
to_classifier_config_for_scheme r scheme =
    if not (contains r.schemes scheme)
    then none
    else some (record (to_classifier_config r) { scheme = scheme })

abbrev is_scheme_allowed : RepoConfig → Text → Bool
is_scheme_allowed r scheme = contains r.schemes scheme

abbrev is_destination_allowed : RepoConfig → Text → Bool
is_destination_allowed r dest = is_empty r.destinations || contains r.destinations dest

abbrev is_configuration_allowed : RepoConfig → Text → Bool
is_configuration_allowed r config = is_empty r.configurations || contains r.configurations config

contains-head : (l : List Text) (t : Text) → head? l ≡ some t → contains l t ≡ true
unfolding contains
contains-head [] t h = absurd (ground arith)
contains-head (s ∷ l) t h = ground (arith, text_eq_iff s t)

-- The configuration for the first scheme is the default one.
for_scheme_first :
    (r : RepoConfig) (scheme : Text)
    → head? r.schemes ≡ some scheme
    → to_classifier_config_for_scheme r scheme ≡ some (to_classifier_config r)
unfolding to_classifier_config_for_scheme to_classifier_config
for_scheme_first r scheme h = let c = contains-head r.schemes scheme h in ground arith
