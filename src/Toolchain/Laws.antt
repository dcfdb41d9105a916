-- ===== src/Toolchain/Laws.antt =====
-- What `resolve_toolchain` answers (src/toolchain/mod.rs), for a constraint that asks for something.
use mathlib.Core.List.{not-mem-nil}
use rch_mac.Base.{is_empty as no_elements, is_empty→nil}
use rch_mac.Base.{
  Ordering, Bool, true, false, Option, none, some, Text, text_eq_iff, ok, err, List, [], filter,
  find?-some, find?-none, mem-filter_iff, Mem, ◌≡◌, ◌≢◌, ◌↔◌, ◌⊎◌, inl, inr, refl, sym, subst,
  arith, Bool-cases, ◌∙◌,
}
use rch_mac.Base.Compare.{compare_text-IsOrder, then_with-IsOrder, on-IsOrder, IsOrder}
use rch_mac.Base.Max.{max_by, max_by-mem, max_by-ge, max_by-none}
use rch_mac.Capabilities.{Capabilities, XcodeVersion}
use rch_mac.Toolchain.Versions.{compare_versions, compare_versions-IsOrder}
use rch_mac.Toolchain.{
  XcodeConstraint, ToolchainResolution, resolve_toolchain, identity, find_by_build, find_by_version,
  find_min_version, by_version, by_build, has_version, reaches, at_least, is_empty, by_constraint,
  expect, no_xcode_installed,
}

by_version-IsOrder : IsOrder by_version
by_version-IsOrder =
    then_with-IsOrder (on-IsOrder (λ (x : XcodeVersion). x.version) compare_versions-IsOrder)
      (on-IsOrder (λ (x : XcodeVersion). x.build) compare_text-IsOrder)

-- The installation is what the constraint asks for: the build if it names one, else the version if it
-- names one, else at least the minimum version.
pub data Meets (k : XcodeConstraint) (x : XcodeVersion) : Type 0 where
  same_build : k.build ≡ some x.build → Meets k x
  same_version : k.build ≡ none → k.version ≡ some x.version → Meets k x
  min_version :
      {m : Text}
      → k.build ≡ none
      → k.version ≡ none
      → k.min_version ≡ some m
      → compare_versions x.version m ≢ Ordering.lt
      → Meets k x

at_least_iff : (o : Ordering) → (at_least o ≡ true) ↔ (o ≢ Ordering.lt)
at_least_iff Ordering.lt = ((λ h. cc), (λ h. absurd (h refl)))
at_least_iff Ordering.eq = ((λ h e. cc), (λ h. refl))
at_least_iff Ordering.gt = ((λ h e. cc), (λ h. refl))

-- The greatest of those that pass a test.
best_sound :
    (cmp : XcodeVersion → XcodeVersion → Ordering) (p : XcodeVersion → Bool)
    (xs : List XcodeVersion) {x : XcodeVersion}
    → max_by cmp (filter p xs) ≡ some x
    → Mem x xs × (p x ≡ true)
best_sound cmp p xs {x} h = (mem-filter_iff p xs x).0 (max_by-mem cmp (filter p xs) h)

best_none :
    (cmp : XcodeVersion → XcodeVersion → Ordering) (p : XcodeVersion → Bool)
    (xs : List XcodeVersion) (x : XcodeVersion)
    → max_by cmp (filter p xs) ≡ none
    → Mem x xs
    → ¬ (p x ≡ true)
best_none cmp p xs x h m t =
    not-mem-nil
      (subst (Mem x) ((max_by-none cmp (filter p xs)).0 h) ((mem-filter_iff p xs x).1 (m, t)))

expect_ok :
    (c : Capabilities) (o : Option XcodeVersion) (t : Text) (b : Bool)
    (w : XcodeVersion → Option Text) {r : ToolchainResolution}
    → expect c o t b w ≡ ok r
    → (o ≡ some r.xcode) × (r.identity ≡ identity r.xcode c.macos)
unfolding expect
expect_ok c none t b w h = cc
expect_ok c (some x) t b w h = ground arith

sound_by :
    (c : Capabilities) (k : XcodeConstraint) (b v m : Option Text) {r : ToolchainResolution}
    → k.build ≡ b
    → k.version ≡ v
    → k.min_version ≡ m
    → is_empty k ≡ false
    → by_constraint c b v m ≡ ok r
    → Mem r.xcode c.xcode_versions × Meets k r.xcode × (r.identity ≡ identity r.xcode c.macos)
unfolding by_constraint find_by_build find_by_version find_min_version is_empty
sound_by c k (some b) v m {r} eb ev em ne h =
    let (f, i) = expect_ok c _ _ _ _ h in
    let (mem, t) = find?-some _ c.xcode_versions f in
    (mem, same_build (ground (arith, text_eq_iff r.xcode.build b)), i)
sound_by c k none (some v) m {r} eb ev em ne h =
    let (f, i) = expect_ok c _ _ _ _ h in
    let (mem, t) = best_sound by_build (has_version v) c.xcode_versions f in
    (mem, same_version eb (ground (arith, text_eq_iff r.xcode.version v)), i)
sound_by c k none none (some m) {r} eb ev em ne h =
    let (f, i) = expect_ok c _ _ _ _ h in
    let (mem, t) = best_sound by_version (reaches m) c.xcode_versions f in
    (mem, min_version eb ev em ((at_least_iff _).0 t), i)
sound_by c k none none none {r} eb ev em ne h = absurd (ground arith)

resolve_cases :
    (c : Capabilities) (k : XcodeConstraint)
    → ((c.xcode_versions ≡ []) × (resolve_toolchain c k ≡ err no_xcode_installed))
      ⊎ (resolve_toolchain c k ≡ by_constraint c k.build k.version k.min_version)
unfolding resolve_toolchain
resolve_cases c k = elim (Bool-cases (no_elements c.xcode_versions)) [
  | inl e ↦ inl (is_empty→nil c.xcode_versions e, ground arith)
  | inr e ↦ inr (ground arith)
]

-- For a constraint that asks for something, what is resolved is an installation of the worker
-- that meets it, and the identity is made of it and of the worker's macOS.
pub resolve_toolchain-Meets :
    (c : Capabilities) (k : XcodeConstraint) {r : ToolchainResolution}
    → is_empty k ≡ false
    → resolve_toolchain c k ≡ ok r
    → Mem r.xcode c.xcode_versions × Meets k r.xcode × (r.identity ≡ identity r.xcode c.macos)
resolve_toolchain-Meets c k {r} ne h = elim (resolve_cases c k) [
  | inl (e, f) ↦ absurd (cc)
  | inr f ↦ sound_by c k k.build k.version k.min_version refl refl refl ne (sym f ∙ h)
]

expect_some :
    (c : Capabilities) (o : Option XcodeVersion) (t : Text) (b : Bool)
    (w : XcodeVersion → Option Text)
    → ¬ (o ≡ none)
    → (r : ToolchainResolution) × (expect c o t b w ≡ ok r)
unfolding expect
expect_some c none t b w h = absurd (h refl)
expect_some c (some x) t b w h = (_, refl)

differ : {b : Bool} → b ≡ true → b ≡ false → ⊥
differ h k = cc

total_by :
    (c : Capabilities) (k : XcodeConstraint) (x : XcodeVersion)
    → Mem x c.xcode_versions
    → Meets k x
    → (r : ToolchainResolution) × (by_constraint c k.build k.version k.min_version ≡ ok r)
unfolding by_constraint find_by_build find_by_version find_min_version
total_by c k x m (same_build e) =
    rw (e, by_constraint)
      (expect_some c _ _ _ _
        (λ n. differ ((text_eq_iff x.build x.build).1 refl) (find?-none _ c.xcode_versions x n m)))
total_by c k x m (same_version eb e) =
    rw (eb, e, by_constraint)
      (expect_some c _ _ _ _ (λ n.
        best_none by_build (has_version x.version) c.xcode_versions x n m
          ((text_eq_iff x.version x.version).1 refl)))
total_by c k x m (min_version {m = v} eb ev e ge) =
    rw (eb, ev, e, by_constraint)
      (expect_some c _ _ _ _
        (λ n. best_none by_version (reaches v) c.xcode_versions x n m ((at_least_iff _).1 ge)))

-- When an installation of the worker meets the constraint, the resolution succeeds.
pub resolve_toolchain-total :
    (c : Capabilities) (k : XcodeConstraint) (x : XcodeVersion)
    → Mem x c.xcode_versions
    → Meets k x
    → (r : ToolchainResolution) × (resolve_toolchain c k ≡ ok r)
resolve_toolchain-total c k x m h = elim (resolve_cases c k) [
  | inl (e, f) ↦ absurd (not-mem-nil (subst (Mem x) e m))
  | inr f ↦ let (r, g) = total_by c k x m h in (r, f ∙ g)
]

-- Under a minimum version alone the answer is the newest installation that reaches it: none that
-- reaches it has a greater version, or the same version and a greater build.
resolve_toolchain-newest :
    (c : Capabilities) (v : Text) {r : ToolchainResolution}
    → resolve_toolchain c (record { build = none; version = none; min_version = some v }) ≡ ok r
    → (y : XcodeVersion) → Mem y c.xcode_versions
    → compare_versions y.version v ≢ Ordering.lt
    → by_version y r.xcode ≢ Ordering.gt
unfolding by_constraint find_min_version
resolve_toolchain-newest c v {r} h y m ge =
    elim (resolve_cases c (record { build = none; version = none; min_version = some v })) [
      | inl (e, f) ↦ absurd (not-mem-nil (subst (Mem y) e m))
      | inr f ↦
          let (best, i) = expect_ok c _ _ _ _ (sym f ∙ h) in
          max_by-ge by_version by_version-IsOrder (filter (reaches v) c.xcode_versions) best y
            ((mem-filter_iff (reaches v) c.xcode_versions y).1 (m, (at_least_iff _).1 ge))
    ]
