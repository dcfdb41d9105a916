-- ===== src/Classifier/Verdict.antt =====
-- When the classifier accepts: a description of the accepted command lines that does not go through
-- the code's tests, for the lists of `Classifier::new`.
use mathlib.Core.Bool.{false≢true}
use rch_mac.Base.{
  Bool, true, false, ◌&&◌, not, Option, none, some, is_some, Text, text, text_eq, text_eq_iff,
  contains, Dict, get, contains_key, Result, ok, err, List, [], ◌∷◌, ◌++◌, is_empty, all, all-perm,
  All, Perm, ◌≡◌, ◌↔◌, ◌⊎◌, inl, inr, refl, sym, ◌∙◌, subst, ap, arith,
}
use rch_mac.Classifier.Parser.{ParsedXcodebuildArgs, parse_xcodebuild_argv}
use rch_mac.Classifier.{
  ClassifierConfig, Classifier, RejectionReason, new, check_flag, flag_reasons, missing_flags,
  action_reasons, all_reasons, judge, classify, rejected,
}
use rch_mac.Classifier.Flags.{FlagOk, check_flag_iff}

-- The loop over the flags finds nothing exactly if no flag gives a reason.
abbrev pub clean : Classifier → Text × Option Text → Bool
clean k e = not (is_some (check_flag k e.0 e.1))

clean_iff :
    (c : ClassifierConfig) (e : Text × Option Text) → (clean (new c) e ≡ true) ↔ FlagOk c e.0 e.1
clean_iff c e = (
  (λ h. (check_flag_iff c e.0 e.1).0 (nothing (check_flag (new c) e.0 e.1) h)),
  (λ f. ap (λ o. not (is_some o)) ((check_flag_iff c e.0 e.1).1 f)),
)
  where
    nothing : (o : Option RejectionReason) → not (is_some o) ≡ true → o ≡ none
    nothing none h = refl
    nothing (some r) h = cc

is_empty-flag_reasons :
    (k : Classifier) (entries : Dict (Option Text))
    → is_empty (flag_reasons k entries) ≡ all (clean k) entries
unfolding flag_reasons
is_empty-flag_reasons k [] = refl
is_empty-flag_reasons k ((flag, value) ∷ entries) = ground (arith, is_empty-flag_reasons k entries)

all-clean :
    (c : ClassifierConfig) (entries : Dict (Option Text))
    → (all (clean (new c)) entries ≡ true) ↔ All (λ e. FlagOk c e.0 e.1) entries
all-clean c [] = (λ _. tt, λ _. refl)
all-clean c (e ∷ entries) = (
  (λ h. ((clean_iff c e).0 (ground arith), (all-clean c entries).0 (ground arith))),
  (λ h. ground (arith, (clean_iff c e).1 h.0, (all-clean c entries).1 h.1)),
)

-- The flag is given, with a value or without.
abbrev pub Given : Text → Dict (Option Text) → Type 0
Given flag flags = (v : Option Text) × (get flag flags ≡ some v)

-- The command lines that may pass: one of two actions, only flags that are in order, and the flags
-- that the configuration requires.
pub record Acceptable (c : ClassifierConfig) (p : ParsedXcodebuildArgs) : Type 0 where
  pub action_ok : (p.action ≡ some (text "build")) ⊎ (p.action ≡ some (text "test"))
  pub flags_ok : All (λ e. FlagOk c e.0 e.1) p.flags
  pub workspace_given : (c.workspace ≡ none) ⊎ Given (text "-workspace") p.flags
  pub project_given : (c.project ≡ none) ⊎ Given (text "-project") p.flags
  pub scheme_given : Given (text "-scheme") p.flags

abbrev ActionOk : Option Text → Type 0
ActionOk o = (o ≡ some (text "build")) ⊎ (o ≡ some (text "test"))

action_reasons→ActionOk :
    (c : ClassifierConfig) (o : Option Text)
    → is_empty (action_reasons (new c) o) ≡ true
    → ActionOk o
unfolding action_reasons new contains
action_reasons→ActionOk c none h = cc
action_reasons→ActionOk c (some a) h =
    ground (arith, text_eq_iff (text "build") a, text_eq_iff (text "test") a)

ActionOk→action_reasons :
    (c : ClassifierConfig) (o : Option Text)
    → ActionOk o
    → is_empty (action_reasons (new c) o) ≡ true
unfolding action_reasons new contains text_eq
ActionOk→action_reasons c o (inl e) =
    subst (λ w. is_empty (action_reasons (new c) w) ≡ true) (sym e) refl
ActionOk→action_reasons c o (inr e) =
    subst (λ w. is_empty (action_reasons (new c) w) ≡ true) (sym e) refl

Given-iff :
    (flag : Text) (flags : Dict (Option Text)) → (contains_key flag flags ≡ true) ↔ Given flag flags
Given-iff flag flags = ((λ h. ground arith), (λ g. ap is_some g.1))

needed_iff :
    (o : Option Text) (flag : Text) (flags : Dict (Option Text))
    → ((is_some o && not (contains_key flag flags)) ≡ false) ↔ ((o ≡ none) ⊎ Given flag flags)
needed_iff none flag flags = ((λ _. inl refl), (λ _. refl))
needed_iff (some w) flag flags = (
  (λ h. inr ((Given-iff flag flags).0 (ground arith))),
  elim [ inl e ↦ cc | inr g ↦ ground (arith, (Given-iff flag flags).1 g) ],
)

is_empty-missing_flags :
    (c : ClassifierConfig) (flags : Dict (Option Text))
    → is_empty (missing_flags c flags) ≡ (
        not (is_some c.workspace && not (contains_key (text "-workspace") flags))
        && (not (is_some c.project && not (contains_key (text "-project") flags))
            && contains_key (text "-scheme") flags))
unfolding missing_flags
is_empty-missing_flags c flags = ground arith

is_empty-append {ℓ} :
    {A : Type ℓ} (xs ys : List A) → is_empty (xs ++ ys) ≡ (is_empty xs && is_empty ys)
is_empty-append [] ys = refl
is_empty-append (x ∷ xs) ys = refl

-- The three groups of reasons, with the flags in any order.
pub is_empty-all_reasons :
    (k : Classifier) (o : Option Text) (flags entries : Dict (Option Text))
    → Perm entries flags
    → is_empty (all_reasons k o flags entries) ≡ (
        is_empty (action_reasons k o)
        && (all (clean k) flags && is_empty (missing_flags k.config flags)))
unfolding all_reasons
is_empty-all_reasons k o flags entries p =
    simp (is_empty-append, is_empty-flag_reasons, all-perm (clean k) entries flags p)

accepted-judge :
    (k : Classifier) (p : ParsedXcodebuildArgs) (entries : Dict (Option Text))
    → (judge k p entries).accepted ≡ is_empty (all_reasons k p.action p.flags entries)
unfolding judge
accepted-judge k p entries = ground arith

-- Once the arguments are parsed, the verdict is `Acceptable`, whatever the order of the map.
pub judge_iff :
    (c : ClassifierConfig) (p : ParsedXcodebuildArgs) (entries : Dict (Option Text))
    → Perm entries p.flags
    → ((judge (new c) p entries).accepted ≡ true) ↔ Acceptable c p
unfolding new
judge_iff c p entries q =
    let verdict : (judge (new c) p entries).accepted ≡ (
        is_empty (action_reasons (new c) p.action)
        && (all (clean (new c)) p.flags && is_empty (missing_flags c p.flags))) =
      accepted-judge (new c) p entries ∙ is_empty-all_reasons (new c) p.action p.flags entries q in
    let missing = is_empty-missing_flags c p.flags in
    (
      (λ h. record {
        action_ok = action_reasons→ActionOk c p.action (ground arith);
        flags_ok = (all-clean c p.flags).0 (ground arith);
        workspace_given = (needed_iff c.workspace _ p.flags).0 (ground arith);
        project_given = (needed_iff c.project _ p.flags).0 (ground arith);
        scheme_given = (Given-iff _ p.flags).0 (ground arith);
      }),
      (λ a. ground (
        arith,
        ActionOk→action_reasons c p.action a.action_ok,
        (all-clean c p.flags).1 a.flags_ok,
        (needed_iff c.workspace (text "-workspace") p.flags).1 a.workspace_given,
        (needed_iff c.project (text "-project") p.flags).1 a.project_given,
        (Given-iff (text "-scheme") p.flags).1 a.scheme_given,
      )),
    )

-- A command line is accepted exactly when it parses into `Acceptable` arguments, whatever the
-- order in which the map of flags is iterated.
pub classify_iff :
    (order : Dict (Option Text) → Dict (Option Text))
    → ((m : Dict (Option Text)) → Perm (order m) m)
    → (c : ClassifierConfig) (argv : List Text)
    → ((classify order (new c) argv).accepted ≡ true)
      ↔ ((p : ParsedXcodebuildArgs) × (parse_xcodebuild_argv argv ≡ ok p) × Acceptable c p)
unfolding classify
classify_iff order fair c argv = by_parse (parse_xcodebuild_argv argv) refl
  where
    by_parse :
        (r : Result ParsedXcodebuildArgs Text)
        → parse_xcodebuild_argv argv ≡ r
        → ((classify order (new c) argv).accepted ≡ true)
          ↔ ((p : ParsedXcodebuildArgs) × (parse_xcodebuild_argv argv ≡ ok p) × Acceptable c p)
    by_parse (ok p) e = (
      (λ h. (p, e, (judge_iff c p (order p.flags) (fair p.flags)).0 (rw (e, classify) at h))),
      (λ (q, f, a).
          let same : ok p ≡ ok q = sym e ∙ f in
          rw (f, classify) ((judge_iff c q (order q.flags) (fair q.flags)).1 a)),
    )
    by_parse (err x) e =
        ((λ h. absurd (false≢true (rw (e, classify, rejected) at h))), (λ (q, f, a). absurd (cc)))
