-- ===== src/Config/Laws.antt =====
-- What src/config/effective.rs builds.
use mathlib.Core.Option.{some-injective}
use mathlib.Core.List.{map-append}
use rch_mac.Base.{
  ℕ, ◌≤◌, true, false, Option, none, some, unwrap_or, if◌then◌else◌, Text, text, text_eq,
  text_eq_iff, List, [], ◌∷◌, ◌++◌, map, is_empty, Value, null, bool, unsigned, other_number,
  as_u64, ok-injective, string, array, object, Members, end, member, find_member, get_key, All, ok,
  Result-cases, Option-cases, Bool-cases, inl, inr, ◌≡◌, ◌↔◌, refl, sym, ◌∙◌, ap, subst, arith,
}
use rch_mac.Config.Merge.{merge_layers, get_path}
use rch_mac.Config.Layers.{IsDistinct, merge_layers-last}
use rch_mac.Config.Redact.{is_scalar, is_secret, redact_recursive, redact_members, redact_secrets}
use rch_mac.Config.Secrets.{redact-scalar}
use rch_mac.Config.Effective.{
  ConfigError, ConfigFile, ConfigOrigin, ConfigSource, EffectiveConfig, Layer, all_layers, assemble,
  build, builtin_layer, cli_layer, file_layer, get_u64, outside, validate_config,
}
use rch_mac.Config.Effective as Effective

-- A time that is absent, a number in (0, max], or a value that reads as no unsigned number, which is
-- held against no bound.
pub data InRange (max : ℕ) : Option Value → Type 0 where
  absent : InRange max none
  number : (n : ℕ) → 1 ≤ n → n ≤ max → InRange max (some (unsigned n))
  unread : (w : Value) → as_u64 w ≡ none → InRange max (some w)

-- The three times of a configuration. An idle time without an overall time is held against 1800.
abbrev pub Timed : Value → Type 0
Timed v =
    InRange 86400 (get_key (text "overall_seconds") v)
    × InRange (unwrap_or (get_u64 (text "overall_seconds") v) 1800)
        (get_key (text "idle_log_seconds") v)
    × InRange 300 (get_key (text "connect_timeout_seconds") v)

abbrev number_of : Option Value → Option ℕ
number_of o = elim o [ none ↦ none | some w ↦ as_u64 w ]

InRange→outside : (max : ℕ) (o : Option Value) → InRange max o → outside (number_of o) max ≡ false
unfolding outside
InRange→outside max o absent = refl
InRange→outside max o (number n low high) = ground arith
InRange→outside max o (unread w e) = rw e

outside→InRange : (max : ℕ) (o : Option Value) → outside (number_of o) max ≡ false → InRange max o
unfolding outside
outside→InRange max none h = absent
outside→InRange max (some (unsigned n)) h = number n (ground arith) (ground arith)
outside→InRange max (some null) h = unread null refl
outside→InRange max (some (bool b)) h = unread (bool b) refl
outside→InRange max (some (other_number t)) h = unread (other_number t) refl
outside→InRange max (some (string t)) h = unread (string t) refl
outside→InRange max (some (array l)) h = unread (array l) refl
outside→InRange max (some (object m)) h = unread (object m) refl

validate_config_iff : (v : Value) → (validate_config v ≡ none) ↔ Timed v
unfolding validate_config
validate_config_iff v =
    let overall = get_key (text "overall_seconds") v in
    let idle = get_key (text "idle_log_seconds") v in
    let connect = get_key (text "connect_timeout_seconds") v in
    let most = unwrap_or (get_u64 (text "overall_seconds") v) 1800 in
    (
      λ h. (
        outside→InRange 86400 overall (ground arith),
        outside→InRange most idle (ground arith),
        outside→InRange 300 connect (ground arith),
      ),
      λ (a, b, c).
          let x = InRange→outside 86400 overall a in
          let y = InRange→outside most idle b in
          let z = InRange→outside 300 connect c in ground arith,
    )

-- The layer of a file: none without the file, and otherwise what it was read as.
pub data Loaded (origin : ConfigOrigin) : Option ConfigFile → List Layer → Type 0 where
  missing : Loaded origin none []
  read :
      (f : ConfigFile) (v : Value) (digest : Text)
      → f.load ≡ ok (v, digest)
      → Loaded origin
          (some f)
          ((v, record { origin = origin; path = some f.path; digest = some digest }) ∷ [])

file_layer→Loaded :
    (origin : ConfigOrigin) (o : Option ConfigFile) (l : List Layer)
    → file_layer origin o ≡ ok l
    → Loaded origin o l
unfolding file_layer
file_layer→Loaded origin none l h = subst (Loaded origin none) (ok-injective h) missing
file_layer→Loaded origin (some f) l h = elim (Result-cases (f.load)) [
  | inl ((v, digest), e) ↦
      let l0 : List Layer =
        (v, record { origin = origin; path = some f.path; digest = some digest }) ∷ [] in
      let q : file_layer origin (some f) ≡ ok l0 = ground arith in
      subst (Loaded origin (some f)) (ok-injective (sym q ∙ h)) (read f v digest e)
  | inr (x, e) ↦ absurd (ground arith)
]

Loaded→file_layer :
    (origin : ConfigOrigin) (o : Option ConfigFile) (l : List Layer)
    → Loaded origin o l
    → file_layer origin o ≡ ok l
unfolding file_layer
Loaded→file_layer origin o l missing = refl
Loaded→file_layer origin o l (read f v digest e) = rw e

-- The overrides are the last layer.
last_layer :
    (h r : List Layer) (overrides : Value)
    → map (λ (l : Layer). l.0) (all_layers h r (some overrides))
      ≡ map (λ (l : Layer). l.0) (builtin_layer ∷ (h ++ r)) ++ overrides ∷ []
unfolding cli_layer
last_layer h r overrides =
    ap (λ ls. Effective.to_value Effective.default ∷ ls)
      (map-append (λ (l : Layer). l.0) (h ++ r) _)

module _ (lower : Text → Text) where
  -- What `assemble` returns.
  assemble_lem :
      (layers : List Layer) (e : EffectiveConfig)
      → assemble lower layers ≡ ok e
      → let out = redact_secrets lower (merge_layers (map (λ (l : Layer). l.0) layers)) in
        (e.config ≡ out.0)
        × (e.redactions ≡ out.1)
        × (validate_config out.0 ≡ none)
        × (e.sources ≡ map (λ (l : Layer). l.1) layers)
  unfolding assemble
  assemble_lem layers e h =
      let out = redact_secrets lower (merge_layers (map (λ (l : Layer). l.0) layers)) in
      elim (Option-cases (validate_config out.0)) [
        | inl v ↦ (ground arith, ground arith, v, ground arith)
        | inr (x, v) ↦ absurd (ground arith)
      ]

  -- The layers that `build` assembles.
  build_lem :
      (host repo : Option ConfigFile) (overrides : Option Value) (e : EffectiveConfig)
      → build lower host repo overrides ≡ ok e
      → (h : List Layer) × (r : List Layer) × (assemble lower (all_layers h r overrides) ≡ ok e)
  unfolding build
  build_lem host repo overrides e q = elim (Result-cases (file_layer Effective.host host)) [
    | inr (x, f) ↦ absurd (ground arith)
    | inl (h, f) ↦ elim (Result-cases (file_layer Effective.repo repo)) [
      | inr (x, g) ↦ absurd (ground arith)
      | inl (r, g) ↦ (h, r, ground arith)
    ]
  ]

  -- The configuration of the layers: their merge, redacted, with their sources in order.
  abbrev pub effective : List Layer → EffectiveConfig
  effective layers =
      let out = redact_secrets lower (merge_layers (map (λ (l : Layer). l.0) layers)) in
      record {
        run_id = none;
        job_id = none;
        job_key = none;
        config = out.0;
        sources = map (λ (l : Layer). l.1) layers;
        redactions = out.1;
      }

  assemble_iff :
      (layers : List Layer) (e : EffectiveConfig)
      → (assemble lower layers ≡ ok e) ↔ ((e ≡ effective layers) × Timed e.config)
  unfolding assemble
  assemble_iff layers e =
      let out = redact_secrets lower (merge_layers (map (λ (l : Layer). l.0) layers)) in
      (
        λ h. elim (Option-cases (validate_config out.0)) [
          | inl v ↦
              let q : assemble lower layers ≡ ok (effective layers) = ground arith in
              let same : e ≡ effective layers = ok-injective (sym h ∙ q) in
              (
                same,
                subst (λ (x : EffectiveConfig). Timed x.config) (sym same)
                    ((validate_config_iff out.0).0 v),
              )
          | inr (x, v) ↦ absurd (ground arith)
        ],
        λ (same, t).
            let timed = subst (λ (x : EffectiveConfig). Timed x.config) same t in
            let v = (validate_config_iff out.0).1 timed in
            let made : assemble lower layers ≡ ok (effective layers) = ground arith in
            made ∙ ap ok (sym same),
      )

  -- What is built, exactly: both files are absent or are read, the configuration is the redacted merge of
  -- the defaults, the file of the host, the file of the repository and the overrides, with its sources in
  -- that order, and each of its three times that reads as an unsigned number lies in its bounds: the
  -- overall time in (0, 86400], the idle time in (0, overall], with 1800 where no overall time reads as
  -- such a number, and the connection time in (0, 300]. A time that is negative, a fraction or no number
  -- is held against no bound, and everything else makes the building fail.
  pub build_iff :
      (host repo : Option ConfigFile) (overrides : Option Value) (e : EffectiveConfig)
      → (build lower host repo overrides ≡ ok e) ↔ (
          (h : List Layer) × (r : List Layer) × Loaded Effective.host host h
          × Loaded Effective.repo repo r
          × (e ≡ effective (all_layers h r overrides))
          × Timed e.config)
  unfolding build
  build_iff host repo overrides e = (
    λ q. elim (Result-cases (file_layer Effective.host host)) [
      | inr (x, f) ↦ absurd (ground arith)
      | inl (h, f) ↦ elim (Result-cases (file_layer Effective.repo repo)) [
        | inr (x, g) ↦ absurd (ground arith)
        | inl (r, g) ↦
            let (same, timed) = (assemble_iff (all_layers h r overrides) e).0 (ground arith) in
            (
              h,
              r,
              file_layer→Loaded Effective.host host h f,
              file_layer→Loaded Effective.repo repo r g,
              same,
              timed,
            )
      ]
    ],
    λ (h, r, lh, lr, same, timed).
        let f = Loaded→file_layer Effective.host host h lh in
        let g = Loaded→file_layer Effective.repo repo r lr in
        let made = (assemble_iff (all_layers h r overrides) e).1 (same, timed) in ground arith,
  )

  -- The redaction keeps a member under a key that names no secret, redacted within.
  find-redact_members :
      (path k : Text) (m : Members) (w : Value)
      → is_secret lower k ≡ false
      → find_member k m ≡ some w
      → (p : Text) × (find_member k (redact_members lower path m).0
          ≡ some (redact_recursive lower p w).0)
  unfolding redact_recursive find_member
  find-redact_members path k end w s h = absurd (ground arith)
  find-redact_members path k (member j v m) w s h =
      let p = if is_empty path then j else path ++ text "." ++ j in
      elim (Bool-cases (text_eq j k)) [
        | inl e ↦
            let same = (text_eq_iff j k).0 e in
            let plain : is_secret lower j ≡ false = ap (is_secret lower) same ∙ s in
            let value : v ≡ w = some-injective _ _ (ground arith) in (p, ground arith)
        | inr e ↦
            let (p', rest) = find-redact_members path k m w s (ground arith) in (p', ground arith)
      ]

  -- A scalar on a path without secret keys survives the redaction.
  redact-get_path :
      (path : Text) (ks : List Text) (v x : Value)
      → All (λ k. is_secret lower k ≡ false) ks
      → is_scalar lower x ≡ true
      → get_path ks v ≡ some x
      → get_path ks (redact_recursive lower path v).0 ≡ some x
  unfolding get_path get_key redact_recursive
  redact-get_path path [] v x s c h =
      let same : v ≡ x = some-injective _ _ h in
      let kept = redact-scalar lower path v (ap (is_scalar lower) same ∙ c) in ground arith
  redact-get_path path (k ∷ ks) (object m) x s c h = elim (Option-cases (find_member k m)) [
    | inl e ↦ absurd (ground arith)
    | inr (w, e) ↦
        let (p, found) = find-redact_members path k m w s.0 e in
        let rest = redact-get_path p ks w x s.1 c (ground arith) in ground arith
  ]
  redact-get_path path (k ∷ ks) null x s c h = absurd (ground arith)
  redact-get_path path (k ∷ ks) (bool b) x s c h = absurd (ground arith)
  redact-get_path path (k ∷ ks) (unsigned n) x s c h = absurd (ground arith)
  redact-get_path path (k ∷ ks) (other_number t) x s c h = absurd (ground arith)
  redact-get_path path (k ∷ ks) (string t) x s c h = absurd (ground arith)
  redact-get_path path (k ∷ ks) (array l) x s c h = absurd (ground arith)

  redact_secrets-get_path :
      (ks : List Text) (v x : Value)
      → All (λ k. is_secret lower k ≡ false) ks
      → is_scalar lower x ≡ true
      → get_path ks v ≡ some x
      → get_path ks (redact_secrets lower v).0 ≡ some x
  unfolding redact_secrets
  redact_secrets-get_path ks v x s c h = redact-get_path [] ks v x s c h

  -- What the command line overrides with a scalar, on a path whose keys name no secret, is what the
  -- configuration has there, whatever the files say.
  build-get_path :
      (host repo : Option ConfigFile) (overrides x : Value) (e : EffectiveConfig) (path : List Text)
      → build lower host repo (some overrides) ≡ ok e
      → IsDistinct overrides
      → All (λ k. is_secret lower k ≡ false) path
      → is_scalar lower x ≡ true
      → get_path path overrides ≡ some x
      → get_path path e.config ≡ some x
  build-get_path host repo overrides x e path q d s c h =
      let (hs, rs, made) = build_lem host repo (some overrides) e q in
      let layers = all_layers hs rs (some overrides) in
      let (config, red, valid, sources) = assemble_lem layers e made in
      let before = map (λ (l : Layer). l.0) (builtin_layer ∷ (hs ++ rs)) in
      let order : map (λ (l : Layer). l.0) layers ≡ before ++ overrides ∷ [] =
        last_layer hs rs overrides in
      let found : get_path path (merge_layers (before ++ overrides ∷ [])) ≡ some x =
        merge_layers-last path before [] overrides x d tt tt (ground arith) h in
      let there = ap (λ ls. get_path path (merge_layers ls)) order ∙ found in
      ap (get_path path) config
      ∙ redact_secrets-get_path path (merge_layers (map (λ (l : Layer). l.0) layers)) x s c there
