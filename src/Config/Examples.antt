-- ===== src/Config/Examples.antt =====
-- The theorems on src/config for one file and one override.
use rch_mac.Base.{
  ℕ, true, false, Option, none, some, Text, text, List, [], ◌∷◌, ◌++◌, All, Value, unsigned, string,
  array, nil, cons, object, member, end, Result, ok, err, ◌≡◌, ◌↔◌, refl, arith,
}
use rch_mac.Config.Merge.{merge_layers, get_path}
use rch_mac.Config.Layers.{merge_layers-last}
use rch_mac.Config.Redact.{redact_secrets}
use rch_mac.Config.Secrets.{IsClean, redact_secrets-IsClean}
use rch_mac.Config.Effective.{
  ConfigFile, EffectiveConfig, Layer, all_layers, build, builtin_layer, default, to_value,
  validate_config,
}
use rch_mac.Config.Effective as Effective
use rch_mac.Config.Laws.{Timed, Loaded, effective, build_iff}

-- The keys of the example stand in small letters.
abbrev lower : Text → Text
lower k = k

abbrev repo : Value
repo = object (
    member (text "token") (string (text "hush"))
      (member (text "idle_log_seconds") (unsigned 60) end))

abbrev overrides : Value
overrides =
    object (member (text "cache") (object (member (text "spm") (string (text "on")) end)) end)

abbrev file : ConfigFile
file = record { path = text "rch.toml"; load = ok (repo, text "digest") }

abbrev spm : List Text
spm = text "cache" ∷ text "spm" ∷ []

merge_layers-last_example :
    get_path spm (merge_layers ((to_value default ∷ []) ++ overrides ∷ repo ∷ []))
    ≡ some (string (text "on"))
unfolding rch_mac.Config.Layers.IsDistinct rch_mac.Base.find_member rch_mac.Base.text_eq
    rch_mac.Config.Layers.silent get_path rch_mac.Base.get_key
merge_layers-last_example =
    merge_layers-last spm (to_value default ∷ []) (repo ∷ []) overrides (string (text "on"))
      (refl, (refl, tt, tt), tt) ((refl, tt, (refl, tt, tt)), tt) (refl, tt) refl refl

redact_secrets-IsClean_example :
    IsClean lower (redact_secrets lower repo).0
    × (redact_secrets lower (redact_secrets lower repo).0 ≡ redact_secrets lower repo)
redact_secrets-IsClean_example = redact_secrets-IsClean lower repo

abbrev config : EffectiveConfig
config = record {
  run_id = none;
  job_id = none;
  job_key = none;
  config = (redact_secrets lower (merge_layers (to_value default ∷ repo ∷ overrides ∷ []))).0;
  sources =
      builtin_layer.1
      ∷ record {
        origin = Effective.repo;
        path = some (text "rch.toml");
        digest = some (text "digest");
      }
      ∷ record { origin = Effective.cli; path = none; digest = none }
      ∷ [];
  redactions = (redact_secrets lower (merge_layers (to_value default ∷ repo ∷ overrides ∷ []))).1;
}

build_iff_example : (build lower none (some file) (some overrides) ≡ ok config) ↔ (
    (h : List Layer) × (r : List Layer) × Loaded Effective.host none h
    × Loaded Effective.repo (some file) r
    × (config ≡ effective lower (all_layers h r (some overrides)))
    × Timed config.config)
build_iff_example = build_iff lower none (some file) (some overrides) config
