-- ===== src/Config/Effective.antt =====
-- src/config/effective.rs and src/config/defaults.rs: how a configuration is built. What a file holds
-- is a parameter: its value and its digest, or the error of reading it; `none` where there is no file.
use rch_mac.Base.{
  ℕ, ltb, ◌==◌, ◌||◌, Bool, false, Option, none, some, unwrap_or, if◌then◌else◌, Text, text, List,
  [], ◌∷◌, ◌++◌, decimal, Value, bool, unsigned, string, object, end, member, get_key, as_u64,
  Result, ok, err, ◌>>=◌, map,
}
use rch_mac.Config.Merge.{merge_layers}
use rch_mac.Config.Redact.{redact_secrets}

pub record BuiltinDefaults : Type 0 where
  pub overall_seconds : ℕ
  pub idle_log_seconds : ℕ
  pub connect_timeout_seconds : ℕ
  pub bundle_mode : Text
  pub artifact_profile : Text
  pub continue_on_failure : Bool
  pub worker_selection_mode : Text
  pub cache_derived_data : Text
  pub cache_spm : Text

abbrev pub default : BuiltinDefaults
default = record {
  overall_seconds = 1800;
  idle_log_seconds = 300;
  connect_timeout_seconds = 30;
  bundle_mode = text "worktree";
  artifact_profile = text "minimal";
  continue_on_failure = false;
  worker_selection_mode = text "deterministic";
  cache_derived_data = text "off";
  cache_spm = text "off";
}

unfoldable pub to_value : BuiltinDefaults → Value
to_value d = object (
    member (text "overall_seconds") (unsigned d.overall_seconds) (
      member (text "idle_log_seconds") (unsigned d.idle_log_seconds) (
        member (text "connect_timeout_seconds") (unsigned d.connect_timeout_seconds) (
          member (text "bundle") (object (member (text "mode") (string d.bundle_mode) end)) (
            member (text "artifact_profile") (string d.artifact_profile) (
              member (text "continue_on_failure") (bool d.continue_on_failure) (
                member (text "worker_selection")
                  (object (member (text "mode") (string d.worker_selection_mode) end))
                  (member (text "cache")
                    (object (
                      member (text "derived_data") (string d.cache_derived_data)
                        (member (text "spm") (string d.cache_spm) end)))
                    end))))))))

pub data ConfigOrigin : Type 0 where
  builtin host repo cli : ConfigOrigin

pub record ConfigSource : Type 0 where
  pub origin : ConfigOrigin
  pub path : Option Text
  pub digest : Option Text

pub data ConfigError : Type 0 where
  io_error parse_error validation_error : Text → ConfigError

-- The record without its schema and its time.
pub record EffectiveConfig : Type 0 where
  pub run_id : Option Text
  pub job_id : Option Text
  pub job_key : Option Text
  pub config : Value
  pub sources : List ConfigSource
  pub redactions : List Text

abbrev pub get_u64 : Text → Value → Option ℕ
get_u64 k v = elim (get_key k v) [ none ↦ none | some w ↦ as_u64 w ]

-- A number that has to lie in (0, max], if it is there.
unfoldable pub outside : Option ℕ → ℕ → Bool
outside none max = false
outside (some n) max = n == 0 || ltb max n

-- The first check that fails.
unfoldable pub validate_config : Value → Option ConfigError
unfolding outside
validate_config config =
    let overall = get_u64 (text "overall_seconds") config in
    let most = unwrap_or overall 1800 in
    if outside overall 86400
    then some (validation_error (text "overall_seconds must be in (0, 86400]"))
    else if outside (get_u64 (text "idle_log_seconds") config) most
    then some
        (validation_error (text "idle_log_seconds must be in (0, " ++ decimal most ++ text "]"))
    else if outside (get_u64 (text "connect_timeout_seconds") config) 300
    then some (validation_error (text "connect_timeout_seconds must be in (0, 300]"))
    else none

-- A file of a configuration: its path, and what `load_toml_file` makes of it.
pub record ConfigFile : Type 0 where
  pub path : Text
  pub load : Result (Value × Text) ConfigError

-- A layer with its source; a missing file and missing overrides give none.
abbrev pub Layer : Type 0
Layer = Value × ConfigSource

unfoldable pub file_layer : ConfigOrigin → Option ConfigFile → Result (List Layer) ConfigError
file_layer origin none = ok []
file_layer origin (some f) = elim (f.load) [
  | err e ↦ err e
  | ok (v, digest) ↦
      ok ((v, record { origin = origin; path = some f.path; digest = some digest }) ∷ [])
]

unfoldable pub cli_layer : Option Value → List Layer
cli_layer none = []
cli_layer (some v) = (v, record { origin = cli; path = none; digest = none }) ∷ []

abbrev pub builtin_layer : Layer
builtin_layer = (to_value default, record { origin = builtin; path = none; digest = none })

abbrev pub all_layers : List Layer → List Layer → Option Value → List Layer
all_layers h r overrides = builtin_layer ∷ (h ++ r ++ cli_layer overrides)

module _ (lower : Text → Text) where
  -- What `build` makes of its layers.
  unfoldable pub assemble : List Layer → Result EffectiveConfig ConfigError
  unfolding validate_config
  assemble layers =
      let out = redact_secrets lower (merge_layers (map (λ (l : Layer). l.0) layers)) in
      elim (validate_config out.0) [
        | some e ↦ err e
        | none ↦ ok (record {
          run_id = none;
          job_id = none;
          job_key = none;
          config = out.0;
          sources = map (λ (l : Layer). l.1) layers;
          redactions = out.1;
        })
      ]

  unfoldable pub build :
      Option ConfigFile → Option ConfigFile → Option Value → Result EffectiveConfig ConfigError
  unfolding file_layer cli_layer assemble
  build host_config repo_config cli_overrides =
      file_layer host host_config
      >>= (λ h. file_layer repo repo_config >>= (λ r. assemble (all_layers h r cli_overrides)))
