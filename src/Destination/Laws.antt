-- ===== src/Destination/Laws.antt =====
-- What the resolution of a simulator in src/destination/mod.rs gives.
use rch_mac.Base.{
  true, ◌&&◌, some, Text, text_eq, text_eq_iff, ok, Result-cases, Option-cases, ok-injective, find?,
  find?-some, mem-filter_iff, is_empty, Mem, ◌≡◌, sym, ◌∙◌, ap, arith, Bool-cases, inl, inr,
}
use rch_mac.Capabilities.{Capabilities, Runtime}
use rch_mac.Destination.{
  ResolvedDestination, resolve_simulator_destination, resolve_os_version, matching,
  runtime_matches_platform, extract_platform_type,
}
use rch_mac.Destination.Constraint.{DestinationConstraint}

module _ (lower : Text → Text) (c : DestinationConstraint) (caps : Capabilities) where
  -- The destination comes from this runtime of the worker, which is available, is for the platform,
  -- and has the version that the constraint resolves to.
  pub record ComesFrom (r : ResolvedDestination) (x : Runtime) : Type 0 where
    pub installed : Mem x caps.runtimes
    pub available : x.available ≡ true
    pub platform : runtime_matches_platform lower x (extract_platform_type lower c.platform) ≡ true
    pub version : r.os_version ≡ x.version
    pub target : resolve_os_version c.os (matching lower c caps) ≡ ok x.version
    pub runtime : r.sim_runtime_identifier ≡ some x.identifier
    pub build : r.sim_runtime_build ≡ some x.build

  -- A simulator that is resolved runs on an available runtime of the worker for its platform, with the
  -- version that the constraint asks for.
  resolve_simulator-ComesFrom :
      (r : ResolvedDestination)
      → resolve_simulator_destination lower c caps ≡ ok r
      → (x : Runtime) × ComesFrom r x
  unfolding resolve_simulator_destination
  resolve_simulator-ComesFrom r h = elim (Bool-cases (is_empty (matching lower c caps))) [
    | inl e ↦ absurd (cc (rw (e, resolve_simulator_destination) at h))
    | inr e ↦ elim (Result-cases (resolve_os_version c.os (matching lower c caps))) [
      | inr (x, f) ↦ absurd (cc (rw (e, f, resolve_simulator_destination) at h))
      | inl (t, f) ↦
          elim (Option-cases
            (find? (λ (x : Runtime). text_eq x.version t) (matching lower c caps))) [
              | inl g ↦ absurd (cc (rw (e, f, g, resolve_simulator_destination) at h))
              | inr (x, g) ↦
                  let (m, v) =
                    find?-some (λ (x : Runtime). text_eq x.version t) (matching lower c caps) g in
                  let same = (text_eq_iff x.version t).0 v in
                  let (i, p) =
                    (mem-filter_iff
                        (λ (x : Runtime).
                          x.available
                          && runtime_matches_platform lower x
                              (extract_platform_type lower c.platform))
                        caps.runtimes x).0
                      m in
                  let k = ok-injective (rw (e, f, g, resolve_simulator_destination) at h) in
                  (
                    x,
                    record {
                      installed = i;
                      available = ground arith;
                      platform = ground arith;
                      version = ap (λ (w : ResolvedDestination). w.os_version) (sym k) ∙ sym same;
                      target = f ∙ ap ok (sym same);
                      runtime = ap (λ (w : ResolvedDestination). w.sim_runtime_identifier) (sym k);
                      build = ap (λ (w : ResolvedDestination). w.sim_runtime_build) (sym k);
                    },
                  )
            ]
    ]
  ]
