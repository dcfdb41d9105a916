-- ===== src/Classifier/Flags.antt =====
-- The check of one flag against the lists of `Classifier::new` and the configuration.
-- (src/classifier/mod.rs, the loop of `classify`)
use rch_mac.Base.{
  Bool, true, false, ◌&&◌, not, Option, none, some, Text, text, text_eq, text_eq_iff, contains,
  contains_iff, List, [], ◌∷◌, is_empty, Mem, ◌≡◌, ◌↔◌, ◌⊎◌, inl, inr, refl, sym, subst, arith,
  Bool-cases, if◌then◌else◌,
}
use rch_mac.Classifier.{
  ClassifierConfig, RejectionReason, new, check_flag, check_pinned, scheme_mismatch,
}

-- The seven flags that may pass.
pub data AllowedFlag (flag : Text) : Type 0 where
  workspace : flag ≡ text "-workspace" → AllowedFlag flag
  project : flag ≡ text "-project" → AllowedFlag flag
  scheme : flag ≡ text "-scheme" → AllowedFlag flag
  destination : flag ≡ text "-destination" → AllowedFlag flag
  configuration : flag ≡ text "-configuration" → AllowedFlag flag
  sdk : flag ≡ text "-sdk" → AllowedFlag flag
  quiet : flag ≡ text "-quiet" → AllowedFlag flag

-- A value agrees with the pinned one, if one is pinned.
abbrev pub Pins : Option Text → Text → Type 0
Pins none v = Unit {0}
Pins (some e) v = v ≡ e

abbrev pub Permits : List Text → Text → Type 0
Permits l v = (l ≡ []) ⊎ Mem v l

-- A flag with its value, as the configuration allows it. A flag without a value is held to nothing.
pub data FlagOk (c : ClassifierConfig) (flag : Text) : Option Text → Type 0 where
  valueless : AllowedFlag flag → FlagOk c flag none
  in_workspace : {v : Text} → flag ≡ text "-workspace" → Pins c.workspace v → FlagOk c flag (some v)
  in_project : {v : Text} → flag ≡ text "-project" → Pins c.project v → FlagOk c flag (some v)
  of_scheme : {v : Text} → flag ≡ text "-scheme" → v ≡ c.scheme → FlagOk c flag (some v)
  in_configuration :
      {v : Text}
      → flag ≡ text "-configuration"
      → Permits c.allowed_configurations v
      → FlagOk c flag (some v)
  for_destination : {v : Text} → flag ≡ text "-destination" → FlagOk c flag (some v)
  with_sdk : {v : Text} → flag ≡ text "-sdk" → FlagOk c flag (some v)
  with_quiet : {v : Text} → flag ≡ text "-quiet" → FlagOk c flag (some v)

allowed_cases :
    (c : ClassifierConfig) (flag : Text)
    → contains (new c).allowed_flags flag ≡ true
    → AllowedFlag flag
unfolding new contains
allowed_cases c flag h = elim (Bool-cases (text_eq (text "-workspace") flag)) [
  | inl e ↦ workspace (sym ((text_eq_iff _ flag).0 e))
  | inr e0 ↦ elim (Bool-cases (text_eq (text "-project") flag)) [
    | inl e ↦ project (sym ((text_eq_iff _ flag).0 e))
    | inr e1 ↦ elim (Bool-cases (text_eq (text "-scheme") flag)) [
      | inl e ↦ scheme (sym ((text_eq_iff _ flag).0 e))
      | inr e2 ↦ elim (Bool-cases (text_eq (text "-destination") flag)) [
        | inl e ↦ destination (sym ((text_eq_iff _ flag).0 e))
        | inr e3 ↦ elim (Bool-cases (text_eq (text "-configuration") flag)) [
          | inl e ↦ configuration (sym ((text_eq_iff _ flag).0 e))
          | inr e4 ↦ elim (Bool-cases (text_eq (text "-sdk") flag)) [
            | inl e ↦ sdk (sym ((text_eq_iff _ flag).0 e))
            | inr e5 ↦ elim (Bool-cases (text_eq (text "-quiet") flag)) [
              | inl e ↦ quiet (sym ((text_eq_iff _ flag).0 e))
              | inr e6 ↦ absurd (ground arith)
            ]
          ]
        ]
      ]
    ]
  ]
]

Pins-iff :
    (reason : Text → Text → RejectionReason) (o : Option Text) (v : Text)
    → (check_pinned reason o v ≡ none) ↔ Pins o v
unfolding check_pinned
Pins-iff reason none v = (λ _. tt, λ _. refl)
Pins-iff reason (some e) v =
    (λ h. ground (arith, text_eq_iff v e), λ h. ground (arith, text_eq_iff v e))

Permits-iff :
    (l : List Text) (v : Text) → ((not (is_empty l) && not (contains l v)) ≡ false) ↔ Permits l v
Permits-iff [] v = (λ _. inl refl, λ _. refl)
Permits-iff (x ∷ l) v = (
  (λ h. inr ((contains_iff (x ∷ l) v).0 (ground arith))),
  elim [ inl e ↦ ground arith | inr m ↦ ground (arith, (contains_iff (x ∷ l) v).1 m) ],
)

test_none : {A : Type 0} (b : Bool) (a : A) → (if b then some a else none) ≡ none → b ≡ false
test_none true a h = cc
test_none false a h = refl

-- The check at one of the flags that may pass.
at_flag :
    (c : ClassifierConfig) {flag : Text} (name : Text) (value : Option Text)
    → flag ≡ name
    → check_flag (new c) flag value ≡ none
    → check_flag (new c) name value ≡ none
at_flag c name value e h = subst (λ w. check_flag (new c) w value ≡ none) e h

check_flag-allowed :
    (c : ClassifierConfig) (flag : Text) (value : Option Text)
    → check_flag (new c) flag value ≡ none
    → AllowedFlag flag
unfolding check_flag
check_flag-allowed c flag value h = allowed_cases c flag (ground arith)

check_flag→FlagOk :
    (c : ClassifierConfig) (flag : Text) (value : Option Text)
    → AllowedFlag flag
    → check_flag (new c) flag value ≡ none
    → FlagOk c flag value
unfolding check_flag new contains text_eq
check_flag→FlagOk c flag none a h = valueless a
check_flag→FlagOk c flag (some v) (workspace e) h =
    in_workspace e ((Pins-iff _ c.workspace v).0 (at_flag c _ (some v) e h))
check_flag→FlagOk c flag (some v) (project e) h =
    in_project e ((Pins-iff _ c.project v).0 (at_flag c _ (some v) e h))
check_flag→FlagOk c flag (some v) (scheme e) h =
    of_scheme e ((Pins-iff scheme_mismatch (some c.scheme) v).0 (at_flag c _ (some v) e h))
check_flag→FlagOk c flag (some v) (destination e) h = for_destination e
check_flag→FlagOk c flag (some v) (configuration e) h =
    in_configuration e
      ((Permits-iff c.allowed_configurations v).0 (test_none _ _ (at_flag c _ (some v) e h)))
check_flag→FlagOk c flag (some v) (sdk e) h = with_sdk e
check_flag→FlagOk c flag (some v) (quiet e) h = with_quiet e

FlagOk→check_flag :
    (c : ClassifierConfig) (flag : Text) (value : Option Text)
    → FlagOk c flag value
    → check_flag (new c) flag value ≡ none
unfolding check_flag new contains text_eq
FlagOk→check_flag c flag value (valueless (workspace e)) = rw e
FlagOk→check_flag c flag value (valueless (project e)) = rw e
FlagOk→check_flag c flag value (valueless (scheme e)) = rw e
FlagOk→check_flag c flag value (valueless (destination e)) = rw e
FlagOk→check_flag c flag value (valueless (configuration e)) = rw e
FlagOk→check_flag c flag value (valueless (sdk e)) = rw e
FlagOk→check_flag c flag value (valueless (quiet e)) = rw e
FlagOk→check_flag c flag value (in_workspace {v} e p) = rw e ((Pins-iff _ c.workspace v).1 p)
FlagOk→check_flag c flag value (in_project {v} e p) = rw e ((Pins-iff _ c.project v).1 p)
FlagOk→check_flag c flag value (of_scheme {v} e p) =
    rw e ((Pins-iff scheme_mismatch (some c.scheme) v).1 p)
FlagOk→check_flag c flag value (in_configuration {v} e p) =
    rw (e, (Permits-iff c.allowed_configurations v).1 p)
FlagOk→check_flag c flag value (for_destination e) = rw e
FlagOk→check_flag c flag value (with_sdk e) = rw e
FlagOk→check_flag c flag value (with_quiet e) = rw e

-- The check of one flag finds nothing exactly if the flag is in order.
pub check_flag_iff :
    (c : ClassifierConfig) (flag : Text) (value : Option Text)
    → (check_flag (new c) flag value ≡ none) ↔ FlagOk c flag value
check_flag_iff c flag value = (
  (λ h. check_flag→FlagOk c flag value (check_flag-allowed c flag value h) h),
  FlagOk→check_flag c flag value,
)
