-- ===== src/Gc/Deletions.antt =====
-- What a pass of the artifact collector deletes, what it counts, and how much it leaves.
use mathlib.Core.List.Perm
use mathlib.Core.List.{append-nil}
use rch_mac.Base.{
  ℕ, ◌+◌, ◌-◌, ◌%◌, ◌^◌, suc, Bool, true, false, ◌&&◌, ◌||◌, not, is_some, Option, none,
  if◌then◌else◌, Text, List, [], ◌∷◌, ◌++◌, length, length-append, Perm, All, Result, ok,
  Bool-cases, Option-cases, inl, inr, ◌≡◌, refl, sym, arith, subst,
}
use rch_mac.Base.Sort.{sort_by, sort_by-perm}
use rch_mac.Gc.Sweep.{total, for_each, gone, left, gone-left-perm, gone-All, log-gone, total-append}
use rch_mac.Gc.Artifact.{
  RetentionPolicy, ArtifactGcResult, RunInfo, Entry, Pass, collect_runs, is_live, newest_first,
  size, should_delete, visit, start, run,
}

module _ (remove_dir_all : Text → Option Text) (policy : RetentionPolicy) (now : ℕ) where
  -- The step removes the directory of the run.
  abbrev pub removes : RunInfo → Pass → Bool
  removes r s =
      not (is_live r)
      && should_delete policy now r s
      && not (policy.dry_run)
      && not (is_some (remove_dir_all r.path))

  abbrev pub step : RunInfo → Pass → Pass
  step = visit remove_dir_all policy now

  -- The step counts the run as deleted.
  abbrev pub deletes : RunInfo → Pass → Bool
  deletes r s =
      not (is_live r)
      && should_delete policy now r s
      && (policy.dry_run || not (is_some (remove_dir_all r.path)))

  -- What a step does to the log, to the size, to the two counters and to the skipped runs.
  pub visit-counts :
      (r : RunInfo) (s : Pass)
      → ((step r s).removed ≡ s.removed ++ (if removes r s then r ∷ [] else []))
        × ((step r s).current_size
            ≡ (if deletes r s then s.current_size - r.size_bytes else s.current_size))
        × ((step r s).result.deleted
            ≡ (if deletes r s then suc (s.result.deleted) else s.result.deleted))
        × ((step r s).result.bytes_reclaimed ≡ (
            if deletes r s
            then (s.result.bytes_reclaimed + r.size_bytes) % 2 ^ 64
            else s.result.bytes_reclaimed))
        × ((step r s).result.scanned ≡ s.result.scanned)
  unfolding visit
  visit-counts r s =
      let same = append-nil s.removed in
      elim (Bool-cases (is_live r)) [
        | inl a ↦ ground arith
        | inr a ↦ elim (Bool-cases (should_delete policy now r s)) [
          | inl b ↦ elim (Bool-cases (policy.dry_run)) [
            | inl c ↦ ground arith
            | inr c ↦ elim (Option-cases (remove_dir_all r.path)) [
              | inl d ↦ ground arith
              | inr d ↦ ground arith
            ]
          ]
          | inr b ↦ ground arith
        ]
      ]

  -- A run whose recorded state is not terminal stays, and so does one that cannot be removed.
  abbrev pub Removable : RunInfo → Type 0
  Removable r = (is_live r ≡ false) × (remove_dir_all r.path ≡ none)

  removes-Removable : (r : RunInfo) (s : Pass) → removes r s ≡ true → Removable r
  removes-Removable r s h = (ground arith, ground arith)

  module _ (runs : List RunInfo) where
    abbrev sorted : List RunInfo
    sorted = sort_by newest_first runs

    abbrev pub last : Pass
    last = for_each step sorted (start remove_dir_all policy now runs)

    abbrev taken : List RunInfo
    taken = gone step removes sorted (start remove_dir_all policy now runs)

    abbrev pub rest : List RunInfo
    rest = left step removes sorted (start remove_dir_all policy now runs)

    pub last-removed : last.removed ≡ taken
    last-removed =
        log-gone step removes (λ s. s.removed) (λ r s. (visit-counts r s).0) sorted
          (start remove_dir_all policy now runs)

    pub taken-perm : Perm runs (last.removed ++ rest)
    taken-perm = Perm.trans (Perm.symm (sort_by-perm newest_first runs)) (
        subst (λ l. Perm sorted (l ++ rest)) (sym last-removed)
          (gone-left-perm step removes sorted (start remove_dir_all policy now runs)))

    pub taken-Removable : All Removable last.removed
    taken-Removable =
        subst (All Removable) (sym last-removed)
          (gone-All step removes sorted (start remove_dir_all policy now runs) removes-Removable)

  -- The two counters follow the log.
  module _ (real : policy.dry_run ≡ false) where
    deletes-removes : (r : RunInfo) (s : Pass) → deletes r s ≡ removes r s
    deletes-removes r s = ground arith

    abbrev Counted : Pass → Type 0
    Counted s =
        (s.result.deleted ≡ length s.removed)
        × (s.result.bytes_reclaimed ≡ total size s.removed % 2 ^ 64)

    visit-Counted : (r : RunInfo) (s : Pass) → Counted s → Counted (step r s)
    visit-Counted r s (d, b) =
        let (log, _, del, bytes, _) = visit-counts r s in
        let same = deletes-removes r s in
        let one = length-append s.removed (r ∷ []) in
        let more = total-append size s.removed (r ∷ []) in
        let none_more = append-nil s.removed in
        elim (Bool-cases (removes r s)) [
          | inl e ↦ (ground arith, ground arith)
          | inr e ↦ (ground arith, ground arith)
        ]

    for_each-Counted : (rs : List RunInfo) (s : Pass) → Counted s → Counted (for_each step rs s)
    for_each-Counted [] s h = h
    for_each-Counted (r ∷ rs) s h = for_each-Counted rs (step r s) (visit-Counted r s h)

  -- Where the lock file opens and the runs are collected, `run` answers with the result and the log
  -- of the pass.
  pub run_lem :
      (entries : List (Result Entry Text)) (runs : List RunInfo)
      → collect_runs entries ≡ ok runs
      → run remove_dir_all policy now true none entries
        ≡ ok ((last runs).result, (last runs).removed)
  unfolding run
  run_lem entries runs h = ground arith

  -- Where the runs are collected and it is no dry run, the collector answers, and what it removed is
  -- some of the runs: none whose recorded state is not terminal, and none whose removal failed. It
  -- counts exactly the runs that it removed, and their bytes modulo 2^64.
  pub run-Removable :
      (entries : List (Result Entry Text)) (runs : List RunInfo)
      → collect_runs entries ≡ ok runs
      → policy.dry_run ≡ false
      → (result : ArtifactGcResult) × (removed : List RunInfo) × (left : List RunInfo) × (run
            remove_dir_all policy now true none entries
          ≡ ok (result, removed))
        × Perm runs (removed ++ left)
        × All Removable removed
        × (result.deleted ≡ length removed)
        × (result.bytes_reclaimed ≡ total size removed % 2 ^ 64)
  run-Removable entries runs h real =
      let counted =
        for_each-Counted real (sorted runs) (start remove_dir_all policy now runs) (refl, refl) in
      let (d, b) = counted in
      (
        (last runs).result,
        (last runs).removed,
        rest runs,
        run_lem entries runs h,
        taken-perm runs,
        taken-Removable runs,
        d,
        b,
      )
