-- ===== src/Allowlist/Flags.antt =====
-- The check of one flag of src/crates/rch-classifier/src/lib.rs against its lists and the configuration.
use rch_mac.Base.{
  Bool, true, false, ◌&&◌, ◌||◌, not, Option, none, some, is_some, Text, text, text_eq, text_eq_iff,
  contains, contains_iff, List, [], ◌∷◌, Mem, all→Mem, Bool-cases, Option-cases, ◌↔◌, ◌⊎◌, ◌≡◌,
  refl, sym, subst, inl, inr, arith,
}
use rch_mac.Allowlist.{
  ClassifierConfig, RejectionReason, allowed_boolean_flags, denied_flags, is_constrained, mismatch,
  is_allowed, pinned, listed,
}

-- The five flags whose values the gate checks.
pub data Checked (flag : Text) : Type 0 where
  workspace : flag ≡ text "-workspace" → Checked flag
  project : flag ≡ text "-project" → Checked flag
  scheme : flag ≡ text "-scheme" → Checked flag
  destination : flag ≡ text "-destination" → Checked flag
  configuration : flag ≡ text "-configuration" → Checked flag

-- The flags that pass with whatever value they have.
abbrev pub free_flags : List Text
free_flags =
    text "-sdk"
    ∷ text "-arch"
    ∷ text "-target"
    ∷ text "-quiet"
    ∷ text "-verbose"
    ∷ text "-enableCodeCoverage"
    ∷ text "-showBuildSettings"
    ∷ text "-showdestinations"
    ∷ []

abbrev pub Pins : Option Text → Text → Type 0
Pins none v = Unit {0}
Pins (some w) v = v ≡ w

abbrev pub Permits : List Text → Text → Type 0
Permits l v = (l ≡ []) ⊎ Mem v l

-- A flag with its value, as the configuration allows it.
pub data FlagOk (c : ClassifierConfig) (flag : Text) : Option Text → Type 0 where
  valueless : Checked flag → FlagOk c flag none
  in_workspace : {v : Text} → flag ≡ text "-workspace" → Pins c.workspace v → FlagOk c flag (some v)
  in_project : {v : Text} → flag ≡ text "-project" → Pins c.project v → FlagOk c flag (some v)
  of_scheme :
      {v : Text} → flag ≡ text "-scheme" → Permits c.allowed_schemes v → FlagOk c flag (some v)
  for_destination :
      {v : Text} → flag ≡ text "-destination" → Pins c.destination v → FlagOk c flag (some v)
  in_configuration :
      {v : Text}
      → flag ≡ text "-configuration"
      → Permits c.allowed_configurations v
      → FlagOk c flag (some v)
  free : (value : Option Text) → Mem flag free_flags → FlagOk c flag value

-- The Boolean that the three tests of a flag come to.
abbrev pub fine : (denied allowed named : Bool) → ClassifierConfig → Text → Option Text → Bool
fine true allowed named c flag value = false
fine false false named c flag value = false
fine false true true c flag none = true
fine false true true c flag (some v) = not (is_some (mismatch c flag v))
fine false true false c flag value = true

abbrev pub flag_ok : ClassifierConfig → Text × Option Text → Bool
flag_ok c f = fine (contains denied_flags f.0) (is_allowed f.0) (is_constrained f.0) c f.0 f.1

Checked-cases : (flag : Text) → is_constrained flag ≡ true → Checked flag
unfolding contains
Checked-cases flag h = elim (Bool-cases (text_eq (text "-workspace") flag)) [
  | inl e ↦ workspace (sym ((text_eq_iff _ flag).0 e))
  | inr e0 ↦ elim (Bool-cases (text_eq (text "-project") flag)) [
    | inl e ↦ project (sym ((text_eq_iff _ flag).0 e))
    | inr e1 ↦ elim (Bool-cases (text_eq (text "-scheme") flag)) [
      | inl e ↦ scheme (sym ((text_eq_iff _ flag).0 e))
      | inr e2 ↦ elim (Bool-cases (text_eq (text "-destination") flag)) [
        | inl e ↦ destination (sym ((text_eq_iff _ flag).0 e))
        | inr e3 ↦ elim (Bool-cases (text_eq (text "-configuration") flag)) [
          | inl e ↦ configuration (sym ((text_eq_iff _ flag).0 e))
          | inr e4 ↦ absurd (ground arith)
        ]
      ]
    ]
  ]
]

-- Eight tests and five, of which the first five are those of the flags that are checked.
sort_out :
    (a b c d e f g h : Bool) (rest : Bool)
    → ((a || (b || (c || (d || (e || (f || (g || (h || false)))))))) || rest) ≡ true
    → (a || (b || (c || (d || (e || false))))) ≡ false
    → (f || (g || (h || rest))) ≡ true
sort_out true b c d e f g h rest k m = absurd (cc)
sort_out false true c d e f g h rest k m = absurd (cc)
sort_out false false true d e f g h rest k m = absurd (cc)
sort_out false false false true e f g h rest k m = absurd (cc)
sort_out false false false false true f g h rest k m = absurd (cc)
sort_out false false false false false true g h rest k m = refl
sort_out false false false false false false true h rest k m = refl
sort_out false false false false false false false true rest k m = refl
sort_out false false false false false false false false rest k m = k

Mem-free_flags :
    (flag : Text) → is_allowed flag ≡ true → is_constrained flag ≡ false → Mem flag free_flags
unfolding contains
Mem-free_flags flag h k = (contains_iff free_flags flag).0 (
    sort_out (text_eq (text "-workspace") flag) (text_eq (text "-project") flag)
      (text_eq (text "-scheme") flag) (text_eq (text "-destination") flag)
      (text_eq (text "-configuration") flag) (text_eq (text "-sdk") flag)
      (text_eq (text "-arch") flag) (text_eq (text "-target") flag)
      (contains allowed_boolean_flags flag) h k)

-- A flag that passes with any value is allowed, is not denied and is not checked.
free_flags_lem :
    (flag : Text)
    → Mem flag free_flags
    → (not (contains denied_flags flag) && (is_allowed flag && not (is_constrained flag))) ≡ true
unfolding contains text_eq
free_flags_lem flag m =
    all→Mem (λ f. not (contains denied_flags f) && (is_allowed f && not (is_constrained f)))
      free_flags flag refl m

Pins-iff :
    (reason : Text → Text → RejectionReason) (o : Option Text) (v : Text)
    → (pinned o v reason ≡ none) ↔ Pins o v
Pins-iff reason none v = (λ _. tt, λ _. refl)
Pins-iff reason (some w) v =
    (λ h. ground (arith, text_eq_iff v w), λ h. ground (arith, text_eq_iff v w))

Permits-iff :
    (reason : RejectionReason) (l : List Text) (v : Text) → (listed l v reason ≡ none) ↔ Permits l v
Permits-iff reason [] v = (λ _. inl refl, λ _. refl)
Permits-iff reason (x ∷ l) v = (
  λ h. inr ((contains_iff (x ∷ l) v).0 (ground arith)),
  elim [ inl e ↦ absurd (ground arith) | inr m ↦ ground (arith, (contains_iff (x ∷ l) v).1 m) ],
)

-- At a flag that is checked, what the code finds is what the value asks for.
mismatch→FlagOk :
    (c : ClassifierConfig) (flag v : Text)
    → Checked flag
    → mismatch c flag v ≡ none
    → FlagOk c flag (some v)
unfolding mismatch text_eq
mismatch→FlagOk c flag v (workspace e) h =
    in_workspace e ((Pins-iff _ c.workspace v).0 (subst (λ w. mismatch c w v ≡ none) e h))
mismatch→FlagOk c flag v (project e) h =
    in_project e ((Pins-iff _ c.project v).0 (subst (λ w. mismatch c w v ≡ none) e h))
mismatch→FlagOk c flag v (scheme e) h =
    of_scheme e ((Permits-iff _ c.allowed_schemes v).0 (subst (λ w. mismatch c w v ≡ none) e h))
mismatch→FlagOk c flag v (destination e) h =
    for_destination e ((Pins-iff _ c.destination v).0 (subst (λ w. mismatch c w v ≡ none) e h))
mismatch→FlagOk c flag v (configuration e) h =
    in_configuration e
      ((Permits-iff _ c.allowed_configurations v).0 (subst (λ w. mismatch c w v ≡ none) e h))

FlagOk→flag_ok :
    (c : ClassifierConfig) (flag : Text) (value : Option Text)
    → FlagOk c flag value
    → flag_ok c (flag, value) ≡ true
unfolding mismatch contains text_eq
FlagOk→flag_ok c flag value (valueless (workspace e)) = rw e
FlagOk→flag_ok c flag value (valueless (project e)) = rw e
FlagOk→flag_ok c flag value (valueless (scheme e)) = rw e
FlagOk→flag_ok c flag value (valueless (destination e)) = rw e
FlagOk→flag_ok c flag value (valueless (configuration e)) = rw e
FlagOk→flag_ok c flag value (in_workspace {v} e p) = rw (e, (Pins-iff _ c.workspace v).1 p)
FlagOk→flag_ok c flag value (in_project {v} e p) = rw (e, (Pins-iff _ c.project v).1 p)
FlagOk→flag_ok c flag value (of_scheme {v} e p) =
    rw (e, (Permits-iff (RejectionReason.scheme_mismatch v) c.allowed_schemes v).1 p)
FlagOk→flag_ok c flag value (for_destination {v} e p) = rw (e, (Pins-iff _ c.destination v).1 p)
FlagOk→flag_ok c flag value (in_configuration {v} e p) =
    rw (e, (Permits-iff (RejectionReason.configuration_mismatch v) c.allowed_configurations v).1 p)
FlagOk→flag_ok c flag value (free w m) =
    fine_free (contains denied_flags flag) (is_allowed flag) (is_constrained flag)
      (free_flags_lem flag m)
  where
    fine_free : (d a n : Bool) → (not d && (a && not n)) ≡ true → fine d a n c flag value ≡ true
    fine_free true a n h = absurd (cc)
    fine_free false false n h = absurd (cc)
    fine_free false true true h = absurd (cc)
    fine_free false true false h = refl

fine-allowed :
    (d a n : Bool) (c : ClassifierConfig) (flag : Text) (value : Option Text)
    → fine d a n c flag value ≡ true
    → a ≡ true
fine-allowed true a n c flag value h = absurd (cc)
fine-allowed false false n c flag value h = absurd (cc)
fine-allowed false true n c flag value h = refl

fine-mismatch :
    (d a n : Bool) (c : ClassifierConfig) (flag v : Text)
    → n ≡ true
    → fine d a n c flag (some v) ≡ true
    → mismatch c flag v ≡ none
fine-mismatch true a n c flag v k h = absurd (cc)
fine-mismatch false false n c flag v k h = absurd (cc)
fine-mismatch false true false c flag v k h = absurd (cc)
fine-mismatch false true true c flag v k h = elim (Option-cases (mismatch c flag v)) [
  | inl e ↦ e
  | inr e ↦ absurd (ground arith)
]

flag_ok→FlagOk :
    (c : ClassifierConfig) (flag : Text) (value : Option Text)
    → flag_ok c (flag, value) ≡ true
    → FlagOk c flag value
flag_ok→FlagOk c flag value h = elim (Bool-cases (is_constrained flag)) [
  | inr e ↦ free value (
      Mem-free_flags flag
        (fine-allowed (contains denied_flags flag) (is_allowed flag) (is_constrained flag) c flag
          value h)
        e)
  | inl e ↦ by_value value e h
]
  where
    by_value :
        (o : Option Text)
        → is_constrained flag ≡ true
        → flag_ok c (flag, o) ≡ true
        → FlagOk c flag o
    by_value none e k = valueless (Checked-cases flag e)
    by_value (some v) e k = mismatch→FlagOk c flag v (Checked-cases flag e) (
        fine-mismatch (contains denied_flags flag) (is_allowed flag) (is_constrained flag) c flag v
          e k)

pub flag_ok_iff :
    (c : ClassifierConfig) (flag : Text) (value : Option Text)
    → (flag_ok c (flag, value) ≡ true) ↔ FlagOk c flag value
flag_ok_iff c flag value = (flag_ok→FlagOk c flag value, FlagOk→flag_ok c flag value)
