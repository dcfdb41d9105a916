-- ===== src/Classifier/FixedPoint.antt =====
-- The sanitized command line of src/classifier/ is accepted again, as it stands.
use mathlib.Core.List.Perm
use rch_mac.Base.{
  true, Option, none, some, unwrap_or, Text, text, Dict, ok, Result-cases, List, [], Perm, ◌≡◌, inl,
  inr, ◌⊎◌, refl, sym, ◌∙◌, subst, ap, arith,
}
use rch_mac.Base.Sort.{sort_by, sort_by-perm, sort_by-All}
use rch_mac.Classifier.Parser.{ParsedXcodebuildArgs, parse_xcodebuild_argv}
use rch_mac.Classifier.{
  ClassifierConfig, Classifier, new, classify, judge, rejected, by_key, build_sanitized_argv,
}
use rch_mac.Classifier.Flags.{FlagOk}
use rch_mac.Classifier.Entries.{Parsed, parse-Parsed}
use rch_mac.Classifier.Reparse.{get-sort_by}
use rch_mac.Classifier.Verdict.{Acceptable, Given, judge_iff}
use rch_mac.Classifier.Canonical.{parse-sanitized, argv_unique, IsAction}

-- The arguments in canonical form: the action, and the flags in order.
abbrev sorted : Text → ParsedXcodebuildArgs → ParsedXcodebuildArgs
sorted a p = record { action = some a; flags = sort_by by_key p.flags }

judge-some :
    (k : Classifier) (p : ParsedXcodebuildArgs) (es : Dict (Option Text)) (s : List Text)
    → (judge k p es).sanitized_argv ≡ some s
    → ((judge k p es).accepted ≡ true)
      × ((judge k p es).action ≡ p.action)
      × (build_sanitized_argv (unwrap_or p.action []) es ≡ s)
unfolding judge
judge-some k p es s h = ground arith

judge-true :
    (k : Classifier) (p : ParsedXcodebuildArgs) (es : Dict (Option Text))
    → (judge k p es).accepted ≡ true
    → ((judge k p es).action ≡ p.action)
      × ((judge k p es).sanitized_argv ≡ some (build_sanitized_argv (unwrap_or p.action []) es))
unfolding judge
judge-true k p es h = ground arith

still-Given :
    (flag : Text) (p : ParsedXcodebuildArgs)
    → Parsed p
    → Given flag p.flags
    → Given flag (sort_by by_key p.flags)
still-Given flag p d (v, e) = (v, get-sort_by flag p.flags d.distinct ∙ e)

sorted-Acceptable :
    (c : ClassifierConfig) (p : ParsedXcodebuildArgs) (a : Text)
    → Parsed p
    → p.action ≡ some a
    → Acceptable c p
    → Acceptable c (sorted a p)
sorted-Acceptable c p a d e h = record {
  action_ok = subst (λ o. (o ≡ some (text "build")) ⊎ (o ≡ some (text "test"))) e h.action_ok;
  flags_ok = sort_by-All (λ x. FlagOk c x.0 x.1) by_key p.flags h.flags_ok;
  workspace_given = elim h.workspace_given [ inl n ↦ inl n | inr g ↦ inr (still-Given _ p d g) ];
  project_given = elim h.project_given [ inl n ↦ inl n | inr g ↦ inr (still-Given _ p d g) ];
  scheme_given = still-Given _ p d h.scheme_given;
}

none≢some : {A : Type 0} {a : A} → ¬ (none ≡ some a)
none≢some h = cc

-- The accepted action.
the_action :
    (c : ClassifierConfig) (p : ParsedXcodebuildArgs)
    → Acceptable c p
    → (a : Text) × (p.action ≡ some a) × IsAction a
the_action c p h = elim h.action_ok [
  | inl e ↦ (text "build", e, inl refl)
  | inr e ↦ (text "test", e, inr refl)
]

module _ (order : Dict (Option Text) → Dict (Option Text))
    (fair : (m : Dict (Option Text)) → Perm (order m) m) (c : ClassifierConfig) where
  fixed :
      (argv s : List Text) (p : ParsedXcodebuildArgs)
      → parse_xcodebuild_argv argv ≡ ok p
      → (judge (new c) p (order p.flags)).sanitized_argv ≡ some s
      → ((classify order (new c) s).sanitized_argv ≡ some s)
        × ((classify order (new c) s).action ≡ p.action)
  unfolding classify
  fixed argv s p e h =
      let d = parse-Parsed argv p e in
      let (yes_, act, spelled) = judge-some (new c) p (order p.flags) s h in
      let ok_p = (judge_iff c p (order p.flags) (fair p.flags)).0 yes_ in
      let (a, ea, ia) = the_action c p ok_p in
      let q = sorted a p in
      let pq : Perm (order q.flags) p.flags =
        Perm.trans (fair q.flags) (sort_by-perm by_key p.flags) in
      let same_s : build_sanitized_argv a p.flags ≡ s =
        argv_unique a p p.flags (order p.flags) d (Perm.refl p.flags) (fair p.flags)
        ∙ subst (λ o. build_sanitized_argv (unwrap_or o []) (order p.flags) ≡ s) ea spelled in
      let again : parse_xcodebuild_argv s ≡ ok q =
        subst (λ w. parse_xcodebuild_argv w ≡ ok q) same_s
          (parse-sanitized c p a d ok_p.flags_ok ia) in
      let accepted =
        (judge_iff c q (order q.flags) (fair q.flags)).1 (sorted-Acceptable c p a d ea ok_p) in
      let (act', argv') = judge-true (new c) q (order q.flags) accepted in
      let same_q : build_sanitized_argv a (order q.flags) ≡ s =
        argv_unique a p (order q.flags) p.flags d pq (Perm.refl p.flags) ∙ same_s in
      (rw (again, classify) (argv' ∙ ap some same_q), rw (again, classify) (act' ∙ sym ea))

  -- A sanitized command line that the classifier gives out is its own sanitized command line,
  -- and has the action of the command line that it was made of.
  pub sanitized-fixed :
      (argv s : List Text)
      → (classify order (new c) argv).sanitized_argv ≡ some s
      → ((classify order (new c) s).sanitized_argv ≡ some s)
        × ((classify order (new c) s).action ≡ (classify order (new c) argv).action)
  unfolding classify
  sanitized-fixed argv s h = elim (Result-cases (parse_xcodebuild_argv argv)) [
    | inl (p, e) ↦
        let h' : (judge (new c) p (order p.flags)).sanitized_argv ≡ some s =
          rw (e, classify) at h in
        let act = (judge-some (new c) p (order p.flags) s h').1 in
        let (one, two) = fixed argv s p e h' in (one, two ∙ sym (rw (e, classify) act))
    | inr (x, e) ↦ absurd (none≢some (rw (e, classify, rejected) at h))
  ]
