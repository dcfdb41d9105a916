-- ===== src/Selection/Eligible.antt =====
-- What makes a worker fit in src/selection/mod.rs, and the order of preference.
use mathlib.Core.Option.{some-injective}
use rch_mac.Base.{
  ℕ, ◌≤◌, Ordering, true, Option, none, some, Text, contains, contains_iff, Result, ok, err, is_ok,
  List, [], ◌∷◌, mem-filter_iff, all, All, Mem, ◌≡◌, ◌↔◌, ◌⊎◌, inl, inr, refl, ◌∙◌, ap, arith,
  Bool-cases, unwrap_or,
}
use rch_mac.Base.Compare.{
  IsOrder, then_with-IsOrder, on-IsOrder, desc-IsOrder, compare-IsOrder, compare_text-IsOrder,
}
use rch_mac.Base.Max.{compare_ℤ-IsOrder}
use rch_mac.Capabilities.{XcodeVersion}
use rch_mac.Inventory.{has_tags}
use rch_mac.Toolchain.{resolve_toolchain, is_empty as unconstrained, XcodeConstraint}
use rch_mac.Toolchain.Laws.{Meets, resolve_toolchain-Meets, resolve_toolchain-total}
use rch_mac.Destination.{ResolvedDestination, resolve_destination}
use rch_mac.Destination.Constraint.{DestinationConstraint}
use rch_mac.Selection.Types.{
  SelectionMode, deterministic, adaptive, WorkerCandidate, SelectionConstraints,
}
use rch_mac.Selection.{
  Candidates, by_preference, by_metrics, protocols_meet, xcode_fits, destination_fits, tagged,
  with_xcode, with_destination, compatible,
}

constant-IsOrder : IsOrder (λ (a b : WorkerCandidate). Ordering.eq)
constant-IsOrder = record {
  swap = λ a b. refl;
  lt_trans = λ a b c h k. cc;
  eq_cong = λ a b c h. refl;
}

by_metrics-IsOrder : (mode : SelectionMode) → IsOrder (by_metrics mode)
by_metrics-IsOrder deterministic = constant-IsOrder
by_metrics-IsOrder adaptive =
    then_with-IsOrder
      (desc-IsOrder (
        on-IsOrder (λ (c : WorkerCandidate). c.capabilities.capacity.disk_free_bytes)
          compare-IsOrder))
      (desc-IsOrder (
        on-IsOrder
          (λ (c : WorkerCandidate). unwrap_or c.capabilities.capacity.memory_available_bytes 0)
          compare-IsOrder))

-- The comparison of the sort is a total order, in both modes.
pub by_preference-IsOrder : (mode : SelectionMode) → IsOrder (by_preference mode)
by_preference-IsOrder mode =
    then_with-IsOrder (on-IsOrder (λ (c : WorkerCandidate). c.worker.priority) compare_ℤ-IsOrder) (
      then_with-IsOrder (by_metrics-IsOrder mode)
        (on-IsOrder (λ (c : WorkerCandidate). c.worker.name) compare_text-IsOrder))

module _ (lower : Text → Text) where
  -- What a worker must have: the tags, an Xcode that the constraint asks for if it asks for one, a
  -- destination if one is asked for, and a protocol version in common with the host.
  pub record Eligible (k : SelectionConstraints) (range : ℕ × ℕ) (c : WorkerCandidate)
      : Type 0 where
    pub tags : All (λ t. Mem t c.worker.tags) k.required_tags
    pub xcode :
        (unconstrained k.xcode ≡ true)
        ⊎ ((x : XcodeVersion) × Mem x c.capabilities.xcode_versions × Meets k.xcode x)
    pub destination :
        (k.destination ≡ none)
        ⊎ ((d : DestinationConstraint) × (r : ResolvedDestination) × (k.destination ≡ some d)
            × (resolve_destination lower d c.capabilities ≡ ok r))
    pub below : range.0 ≤ c.capabilities.protocol_max
    pub above : c.capabilities.protocol_min ≤ range.1

tags_iff :
    (ts required : List Text) → (all (contains ts) required ≡ true) ↔ All (λ t. Mem t ts) required
tags_iff ts [] = ((λ _. tt), (λ _. refl))
tags_iff ts (t ∷ required) = (
  (λ h. ((contains_iff ts t).0 (ground arith), (tags_iff ts required).0 (ground arith))),
  (λ h. ground (arith, (contains_iff ts t).1 h.0, (tags_iff ts required).1 h.1)),
)

is_ok_iff : {A E : Type 0} (r : Result A E) → (is_ok r ≡ true) ↔ ((a : A) × (r ≡ ok a))
is_ok_iff (ok a) = ((λ _. (a, refl)), (λ _. refl))
is_ok_iff (err e) = ((λ h. absurd (cc)), (λ (a, h). absurd (cc)))

xcode_iff :
    (k : XcodeConstraint) (c : WorkerCandidate)
    → (xcode_fits k c ≡ true) ↔ (
        (unconstrained k ≡ true)
        ⊎ ((x : XcodeVersion) × Mem x c.capabilities.xcode_versions × Meets k x))
unfolding xcode_fits
xcode_iff k c = elim (Bool-cases (unconstrained k)) [
  | inl e ↦ ((λ h. inl e), (λ h. ground arith))
  | inr e ↦ (
    (λ h.
        let (r, f) = (is_ok_iff (resolve_toolchain c.capabilities k)).0 (ground arith) in
        let (m, meets, i) = resolve_toolchain-Meets c.capabilities k e f in
        inr (r.xcode, m, meets)),
    elim [
      | inl f ↦ ground arith
      | inr (x, m, meets) ↦
          let r = resolve_toolchain-total c.capabilities k x m meets in
          ground (arith, (is_ok_iff (resolve_toolchain c.capabilities k)).1 r)
    ],
  )
]

module _ (lower : Text → Text) where
  -- A destination that is asked for resolves on the worker.
  abbrev pub Resolves : Option DestinationConstraint → WorkerCandidate → Type 0
  Resolves o c =
      (o ≡ none)
      ⊎ ((d : DestinationConstraint) × (r : ResolvedDestination) × (o ≡ some d)
          × (resolve_destination lower d c.capabilities ≡ ok r))

  destination_iff :
      (o : Option DestinationConstraint) (c : WorkerCandidate)
      → (destination_fits lower o c ≡ true) ↔ Resolves o c
  unfolding destination_fits
  destination_iff none c = ((λ h. inl refl), (λ h. refl))
  destination_iff (some d) c = (
    (λ h.
        let (r, e) = (is_ok_iff (resolve_destination lower d c.capabilities)).0 h in
        inr (d, r, refl, e)),
    elim [
      | inl f ↦ absurd (cc)
      | inr (d', r, f, e) ↦
          (is_ok_iff (resolve_destination lower d c.capabilities)).1
            (r, ap (λ w. resolve_destination lower w c.capabilities) (some-injective _ _ f) ∙ e)
    ],
  )

  protocols_iff :
      (range : ℕ × ℕ) (c : WorkerCandidate)
      → (protocols_meet range c ≡ true)
        ↔ ((range.0 ≤ c.capabilities.protocol_max) × (c.capabilities.protocol_min ≤ range.1))
  unfolding protocols_meet
  protocols_iff (a, b) c = ((λ h. (ground arith, ground arith)), (λ h. ground arith))

  -- The candidates that the phases leave are the eligible ones.
  pub compatible_iff :
      (k : SelectionConstraints) (range : ℕ × ℕ) (cs : Candidates) (c : WorkerCandidate)
      → Mem c (compatible lower k range cs) ↔ (Mem c cs × Eligible lower k range c)
  compatible_iff k range cs c = (forward, backward)
    where
      forward : Mem c (compatible lower k range cs) → Mem c cs × Eligible lower k range c
      forward m =
          let (m3, p) =
            (mem-filter_iff (protocols_meet range) (with_destination lower k cs) c).0 m in
          let (m2, d) =
            (mem-filter_iff (destination_fits lower k.destination) (with_xcode lower k cs) c).0
              m3 in
          let (m1, x) = (mem-filter_iff (xcode_fits k.xcode) (tagged lower k cs) c).0 m2 in
          let (m0, t) = (mem-filter_iff (λ e. has_tags e.worker k.required_tags) cs c).0 m1 in
          let (below, above) = (protocols_iff range c).0 p in
          (
            m0,
            record {
              tags = (tags_iff c.worker.tags k.required_tags).0 (unfold has_tags in t);
              xcode = (xcode_iff k.xcode c).0 x;
              destination = (destination_iff k.destination c).0 d;
              below = below;
              above = above;
            },
          )

      backward : Mem c cs × Eligible lower k range c → Mem c (compatible lower k range cs)
      backward (m, e) =
          let t : has_tags c.worker k.required_tags ≡ true =
            unfold has_tags in (tags_iff c.worker.tags k.required_tags).1 e.tags in
          let m1 = (mem-filter_iff (λ e. has_tags e.worker k.required_tags) cs c).1 (m, t) in
          let m2 =
            (mem-filter_iff (xcode_fits k.xcode) (tagged lower k cs) c).1
              (m1, (xcode_iff k.xcode c).1 e.xcode) in
          let m3 =
            (mem-filter_iff (destination_fits lower k.destination) (with_xcode lower k cs) c).1
              (m2, (destination_iff k.destination c).1 e.destination) in
          (mem-filter_iff (protocols_meet range) (with_destination lower k cs) c).1
            (m3, (protocols_iff range c).1 (e.below, e.above))
