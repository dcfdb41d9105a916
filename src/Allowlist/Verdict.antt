-- ===== src/Allowlist/Verdict.antt =====
-- What the gate accepts.
use rch_mac.Base.{
  Bool, true, false, ◌&&◌, ◌||◌, Option, none, some, is_some, Text, text, text_eq, contains, any,
  all, Result, ok, err, List, [], ◌∷◌, ◌++◌, is_empty, Bool-cases, Option-cases, ◌↔◌, ◌≡◌, refl,
  sym, ◌∙◌, ap, arith, inl, inr, text_eq_iff, subst, ◌⊎◌, contains_char, starts_with_char, Mem,
  insert,
}
use rch_mac.Base.Sort.{sort_by}
use rch_mac.Allowlist.Parser.{ParsedArgv, parse_argv, takes_next}
use rch_mac.Allowlist.Flags.{fine, flag_ok}
use rch_mac.Allowlist.Denied.{Denied, check_flags-Denied, verdict-keeps}
use rch_mac.Allowlist.Acceptable.{
  ActionOk, ActionOk→action_ok, Acceptable, Accepts, Accepts→Acceptable, Acceptable→Accepts, both,
  names_scheme, action_ok,
}
use rch_mac.Allowlist.{
  ClassifierConfig, MatchedConstraints, RejectionReason, Scan, denied_flags, denied_actions,
  allowed_actions, is_constrained, mismatch, note, check_flag, check_flags, route, is_allowed,
  check_action, start, verdict, classify,
}

and_assoc : (a b c : Bool) → ((a && b) && c) ≡ (a && (b && c))
and_assoc true b c = refl
and_assoc false b c = refl

or_shift : (a b c : Bool) → (b || (a || c)) ≡ ((a || b) || c)
or_shift a b c = ground arith

is_empty-snoc : {A : Type 0} (l : List A) (a : A) → is_empty (l ++ (a ∷ [])) ≡ false
is_empty-snoc [] a = refl
is_empty-snoc (x ∷ l) a = refl

route-reasons :
    (d a n : Bool) (c : ClassifierConfig) (flag : Text) (value : Option Text) (s : Scan)
    → is_empty (route d a n c flag value s).reasons
      ≡ (is_empty s.reasons && fine d a n c flag value)
route-reasons true a n c flag value s =
    let m = is_empty-snoc s.reasons (RejectionReason.denied_flag flag) in ground arith
route-reasons false false n c flag value s =
    let m = is_empty-snoc s.reasons (RejectionReason.unknown_flag flag) in ground arith
route-reasons false true true c flag none s = ground arith
route-reasons false true true c flag (some v) s = elim (Option-cases (mismatch c flag v)) [
  | inl f ↦ ground arith
  | inr (r, f) ↦ let m = is_empty-snoc s.reasons r in ground arith
]
route-reasons false true false c flag value s = ground arith

note-scheme :
    (flag v : Text) (m : MatchedConstraints)
    → is_some (note flag v m).scheme ≡ (text_eq flag (text "-scheme") || is_some m.scheme)
unfolding note
note-scheme flag v m = elim (Bool-cases (text_eq flag (text "-scheme"))) [
  | inl e ↦
      let is = (text_eq_iff flag (text "-scheme")).0 e in
      subst (λ f. is_some (note f v m).scheme ≡ (text_eq f (text "-scheme") || is_some m.scheme))
        (sym is) (unfold text_eq in refl)
  | inr e ↦ ground arith
]

-- Where the gate names the flag, or the flag is not the scheme, what passes is noted.
route-scheme :
    (d a n : Bool) (c : ClassifierConfig) (flag : Text) (value : Option Text) (s : Scan)
    → (text_eq flag (text "-scheme") ≡ true → n ≡ true)
    → fine d a n c flag value ≡ true
    → is_some (route d a n c flag value s).matched.scheme
      ≡ (names_scheme (flag, value) || is_some s.matched.scheme)
route-scheme true a n c flag value s k h = absurd (cc)
route-scheme false false n c flag value s k h = absurd (cc)
route-scheme false true true c flag none s k h = ground arith
route-scheme false true true c flag (some v) s k h =
    let e = note-scheme flag v s.matched in
    elim (Option-cases (mismatch c flag v)) [ inl f ↦ ground arith | inr f ↦ absurd (ground arith) ]
route-scheme false true false c flag value s k h = ground arith

scheme_named : (flag : Text) → text_eq flag (text "-scheme") ≡ true → is_constrained flag ≡ true
scheme_named flag h =
    subst (λ f. is_constrained f ≡ true) (sym ((text_eq_iff flag (text "-scheme")).0 h))
      (unfold contains text_eq in refl)

check_flags-reasons :
    (c : ClassifierConfig) (fs : List (Text × Option Text)) (s : Scan)
    → is_empty (check_flags c fs s).reasons ≡ (is_empty s.reasons && all (flag_ok c) fs)
unfolding check_flag
check_flags-reasons c [] s = ground arith
check_flags-reasons c ((flag, value) ∷ fs) s =
    let rest = check_flags-reasons c fs (check_flag c flag value s) in
    let here =
      route-reasons (contains denied_flags flag) (is_allowed flag) (is_constrained flag) c flag
        value s in
    rest
    ∙ ap (λ b. b && all (flag_ok c) fs) here
    ∙ and_assoc (is_empty s.reasons) (flag_ok c (flag, value)) (all (flag_ok c) fs)

check_flags-scheme :
    (c : ClassifierConfig) (fs : List (Text × Option Text)) (s : Scan)
    → all (flag_ok c) fs ≡ true
    → is_some (check_flags c fs s).matched.scheme
      ≡ (any names_scheme fs || is_some s.matched.scheme)
unfolding check_flag
check_flags-scheme c [] s h = refl
check_flags-scheme c ((flag, value) ∷ fs) s h =
    let (first, others) = both (flag_ok c (flag, value)) (all (flag_ok c) fs) h in
    let rest = check_flags-scheme c fs (check_flag c flag value s) others in
    let here =
      route-scheme (contains denied_flags flag) (is_allowed flag) (is_constrained flag) c flag value
        s (scheme_named flag) first in
    rest
    ∙ ap (λ b. any names_scheme fs || b) here
    ∙ or_shift (names_scheme (flag, value)) (any names_scheme fs) (is_some s.matched.scheme)

check_action_cases :
    (o : Option Text)
    → ((a : Text) × (check_action o ≡ ok a) × (action_ok o ≡ true))
      ⊎ ((r : RejectionReason) × (check_action o ≡ err r) × (action_ok o ≡ false))
unfolding check_action
check_action_cases none = inl (text "build", refl, refl)
check_action_cases (some a) = elim (Bool-cases (contains denied_actions a)) [
  | inl d ↦ inr (RejectionReason.denied_action a, ground arith, ground arith)
  | inr d ↦ elim (Bool-cases (contains allowed_actions a)) [
    | inl e ↦ inl (a, ground arith, ground arith)
    | inr e ↦ inr (RejectionReason.unknown_action a, ground arith, ground arith)
  ]
]

verdict-accepted :
    (c : ClassifierConfig) (action : Text) (s : Scan)
    → (verdict c action s).accepted
      ≡ (is_empty s.reasons && (is_empty c.allowed_schemes || is_some s.matched.scheme))
verdict-accepted c action s = elim (Bool-cases (is_empty s.reasons)) [
  | inl e ↦ elim (Bool-cases (is_empty c.allowed_schemes || is_some s.matched.scheme)) [
    | inl f ↦ ground arith
    | inr f ↦ ground arith
  ]
  | inr e ↦ ground arith
]

-- The gate accepts a command line exactly when it parses, its action, if there is one, is `build` or
-- `test`, each of its flags is one that may pass, with the workspace, the project or the destination that
-- the configuration pins, with a scheme or a configuration of those that it lists, or with whatever value
-- where the gate checks none, and a scheme is given where the configuration lists schemes. A checked flag
-- without a value passes. Where a command line parses and its action is such a one, each
-- `-resultBundlePath` and each `-derivedDataPath` among its flags is reported as a denied flag.
pub accepted_iff :
    (argv : List Text) (c : ClassifierConfig)
    → (((classify argv c).accepted ≡ true)
        ↔ ((p : ParsedArgv) × (parse_argv argv ≡ ok p) × Acceptable c p))
      × ((p : ParsedArgv) (flag : Text) (value : Option Text)
            (before after : List (Text × Option Text))
          → parse_argv argv ≡ ok p
          → ActionOk p.action
          → p.flags ≡ before ++ ((flag, value) ∷ after)
          → Denied flag
          → Mem (RejectionReason.denied_flag flag) (classify argv c).rejection_reasons)
unfolding classify
accepted_iff argv c = (by_parse (parse_argv argv) refl, reported)
  where
    judged :
        (p : ParsedArgv)
        → parse_argv argv ≡ ok p
        → ((classify argv c).accepted ≡ true) ↔ Accepts c p
    judged p h = elim (check_action_cases p.action) [
      | inr (r, e, f) ↦ (λ q. absurd (ground arith), λ (a, _, _). absurd (ground arith))
      | inl (action, e, f) ↦
          let s = check_flags c p.flags start in
          let v = verdict-accepted c action s in
          let flags = check_flags-reasons c p.flags start in
          let scheme = check_flags-scheme c p.flags start in
          (
            λ q.
                let (good, named) =
                  both (is_empty s.reasons) (is_empty c.allowed_schemes || is_some s.matched.scheme)
                    (ground arith) in
                let fine_flags = sym flags ∙ good in
                let e2 = scheme fine_flags in (f, fine_flags, ground arith),
            λ (_, b, d). let e2 = scheme b in ground arith,
          )
    ]

    by_parse :
        (r : Result ParsedArgv Text)
        → parse_argv argv ≡ r
        → ((classify argv c).accepted ≡ true)
          ↔ ((p : ParsedArgv) × (parse_argv argv ≡ ok p) × Acceptable c p)
    by_parse (err e) h = (λ q. absurd (ground arith), λ (p, k, a). absurd (ground arith))
    by_parse (ok p) h = (
      λ q. (p, h, Accepts→Acceptable c p ((judged p h).0 q)),
      λ (p', k, a). (judged p' k).1 (Acceptable→Accepts c p' a),
    )

    reported :
        (p : ParsedArgv) (flag : Text) (value : Option Text)
        (before after : List (Text × Option Text))
        → parse_argv argv ≡ ok p
        → ActionOk p.action
        → p.flags ≡ before ++ ((flag, value) ∷ after)
        → Denied flag
        → Mem (RejectionReason.denied_flag flag) (classify argv c).rejection_reasons
    reported p flag value before after h a k d =
        let may = ActionOk→action_ok p.action a in
        elim (check_action_cases p.action) [
          | inr (r, e, f) ↦ absurd (ground arith)
          | inl (action, e, f) ↦
              let r = RejectionReason.denied_flag flag in
              let s = check_flags c p.flags start in
              let same : (classify argv c).rejection_reasons
                  ≡ (verdict c action s).rejection_reasons =
                ground arith in
              let m =
                subst (λ fs. Mem r (check_flags c fs start).reasons) (sym k)
                  (check_flags-Denied c flag value before after start d) in
              subst (Mem r) (sym same) (verdict-keeps c action s r m)
        ]

-- The value of an allowed flag is taken unseen, also where it looks like a flag that is denied: under a
-- configuration without restrictions, any text behind `-scheme` is accepted, and stands as an argument
-- of its own in the sanitized command line.
pub scheme_swallows :
    (v : Text) (c : ClassifierConfig)
    → c.allowed_schemes ≡ []
    → ((classify (text "-scheme" ∷ v ∷ []) c).accepted ≡ true)
      × ((classify (text "-scheme" ∷ v ∷ []) c).sanitized_argv
          ≡ some (text "build" ∷ text "-scheme" ∷ v ∷ []))
unfolding classify parse_argv takes_next contains text_eq contains_char starts_with_char insert
    sort_by
scheme_swallows v c h = (ground arith, ground arith)
