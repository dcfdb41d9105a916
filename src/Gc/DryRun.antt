-- ===== src/Gc/DryRun.antt =====
-- A dry run of the artifact collector against the run that it announces, and the order in which a
-- limit on the size takes runs away.
use rch_mac.Base.{
  ℕ, Bool, true, false, ◌&&◌, ltb, Option, none, Text, List, [], ◌∷◌, ◌++◌, All, Result, ok,
  Bool-cases, Option-cases, inl, inr, ◌≡◌, refl, ◌∙◌, ap, arith,
}
use rch_mac.Base.Sort.{sort_by, sort_by-All}
use rch_mac.Gc.Sweep.{for_each, gone-left-append}
use rch_mac.Gc.Artifact.{
  RetentionPolicy, ArtifactGcResult, RunInfo, Entry, Pass, collect_runs, is_live, newest_first,
  should_delete, visit, start, run, with_dry_run,
}
use rch_mac.Gc.Deletions.{visit-counts, removes, deletes, step, last, rest, last-removed, run_lem}

-- The loop of a dry run, with the same counters as the run that it announces.
abbrev Agrees : Pass → Pass → Type 0
Agrees s t =
    (s.result ≡ t.result) × (s.kept ≡ t.kept) × (s.current_size ≡ t.current_size) × (s.removed ≡ [])

module _ (remove_dir_all : Text → Option Text) (policy : RetentionPolicy) (now : ℕ)
    (fine : (path : Text) → remove_dir_all path ≡ none) (real : policy.dry_run ≡ false) where
  visit-Agrees :
      (r : RunInfo) (s t : Pass)
      → Agrees s t
      → Agrees
          (visit remove_dir_all (with_dry_run policy) now r s)
          (visit remove_dir_all policy now r t)
  unfolding visit should_delete
  visit-Agrees r s t (a, b, c, d) =
      let f = fine r.path in
      elim (Bool-cases (is_live r)) [
        | inl e ↦ ground arith
        | inr e ↦ elim (Bool-cases (should_delete policy now r t)) [
          | inl g ↦ ground arith
          | inr g ↦ ground arith
        ]
      ]

  for_each-Agrees :
      (rs : List RunInfo) (s t : Pass)
      → Agrees s t
      → Agrees
          (for_each (visit remove_dir_all (with_dry_run policy) now) rs s)
          (for_each (visit remove_dir_all policy now) rs t)
  for_each-Agrees [] s t h = h
  for_each-Agrees (r ∷ rs) s t h = for_each-Agrees rs _ _ (visit-Agrees r s t h)

  -- Where every removal would succeed, a dry run answers with the result of the real run under the
  -- same policy, and removes nothing.
  pub with_dry_run-result :
      (entries : List (Result Entry Text)) (runs : List RunInfo)
      → collect_runs entries ≡ ok runs
      → (result : ArtifactGcResult) × (removed : List RunInfo) × (run remove_dir_all policy now true
            none entries
          ≡ ok (result, removed))
        × (run remove_dir_all (with_dry_run policy) now true none entries ≡ ok (result, []))
  with_dry_run-result entries runs h =
      let (a, _, _, d) =
        for_each-Agrees (sort_by newest_first runs)
          (start remove_dir_all (with_dry_run policy) now runs)
          (start remove_dir_all policy now runs) (refl, refl, refl, refl) in
      (
        (last remove_dir_all policy now runs).result,
        (last remove_dir_all policy now runs).removed,
        run_lem remove_dir_all policy now entries runs h,
        run_lem remove_dir_all (with_dry_run policy) now entries runs h
            ∙ ap (λ (x : ArtifactGcResult × List RunInfo). ok x) (ground (arith, a, d)),
      )

module _ (remove_dir_all : Text → Option Text) (policy : RetentionPolicy) (now : ℕ)
    (fine : (path : Text) → remove_dir_all path ≡ none) (real : policy.dry_run ≡ false)
    (no_count : policy.max_runs ≡ 0) (no_age : policy.max_age_days ≡ 0) where
  above : Pass → Bool
  above s = ltb 0 policy.max_size_bytes && ltb policy.max_size_bytes s.current_size

  removes-above :
      (r : RunInfo) (s : Pass) → is_live r ≡ false → removes remove_dir_all policy now r s ≡ above s
  unfolding should_delete above
  removes-above r s h =
      let f = fine r.path in
      elim (Option-cases (r.created_at)) [ inl k ↦ ground arith | inr k ↦ ground arith ]

  above_stays :
      (r : RunInfo) (s : Pass)
      → is_live r ≡ false
      → above s ≡ false
      → above (step remove_dir_all policy now r s) ≡ false
  unfolding above
  above_stays r s h b =
      let (_, w, _, _, _) = visit-counts remove_dir_all policy now r s in
      elim (Bool-cases (deletes remove_dir_all policy now r s)) [
        | inl e ↦ ground arith
        | inr e ↦ ground arith
      ]

  -- Under a policy with a limit on the size alone, in a pass over runs of which none is live and in
  -- which every removal succeeds: what is removed is a first part of the runs, newest first. Every
  -- run that is removed is thus at least as new as every run that stays.
  pub run-newest :
      (entries : List (Result Entry Text)) (runs : List RunInfo)
      → collect_runs entries ≡ ok runs
      → All (λ r. is_live r ≡ false) runs
      → (result : ArtifactGcResult) × (removed : List RunInfo) × (left : List RunInfo) × (run
            remove_dir_all policy now true none entries
          ≡ ok (result, removed))
        × (removed ++ left ≡ sort_by newest_first runs)
  run-newest entries runs h dead = (
    (last remove_dir_all policy now runs).result,
    (last remove_dir_all policy now runs).removed,
    rest remove_dir_all policy now runs,
    run_lem remove_dir_all policy now entries runs h,
    ap (λ l. l ++ rest remove_dir_all policy now runs) (last-removed remove_dir_all policy now runs)
        ∙ gone-left-append (step remove_dir_all policy now) (removes remove_dir_all policy now)
            above (λ r. is_live r ≡ false) removes-above above_stays (sort_by newest_first runs)
            (start remove_dir_all policy now runs)
            (sort_by-All (λ r. is_live r ≡ false) newest_first runs dead),
  )
