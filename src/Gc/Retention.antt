-- ===== src/Gc/Retention.antt =====
-- How much the artifact collector leaves, and which runs a count keeps.
use mathlib.Core.List.{append_assoc, append-nil}
use rch_mac.Base.{
  ℕ, ◌-◌, ◌%◌, ◌^◌, ◌≤◌, ◌<◌, suc, zero, true, false, ltb, Option, none, Text, List, [], ◌∷◌, ◌++◌,
  drop, Perm, All, Result, ok, Bool-cases, inl, inr, ◌⊎◌, ◌≡◌, refl, sym, ◌∙◌, ap, arith,
}
use rch_mac.Base.Sort.{sort_by, sort_by-All}
use rch_mac.Gc.Sweep.{total, for_each, left-bound, total-sort_by}
use rch_mac.Gc.Artifact.{
  RetentionPolicy, ArtifactGcResult, RunInfo, Entry, Pass, collect_runs, is_live, newest_first,
  size, should_delete, visit, start, run, keep_last_n,
}
use rch_mac.Gc.Deletions.{visit-counts, removes, step, last, rest, taken-perm, run_lem}

module _ (remove_dir_all : Text → Option Text) (policy : RetentionPolicy) (now : ℕ) where
  -- Where every removal succeeds, a run that stays while the size is above the limit is live.
  stays-is_live :
      policy.dry_run ≡ false
      → ((path : Text) → remove_dir_all path ≡ none)
      → 0 < policy.max_size_bytes
      → (r : RunInfo) (s : Pass) → policy.max_size_bytes < s.current_size
      → removes remove_dir_all policy now r s ≡ false
      → is_live r ≡ true
  unfolding should_delete
  stays-is_live real fine pos r s h k = let f = fine r.path in ground arith

  -- With a limit on the size, in a pass in which every removal succeeds, over runs of less than 2^64
  -- bytes: the runs that are left hold at most the limit, or each of them is live.
  pub run-bound :
      (entries : List (Result Entry Text)) (runs : List RunInfo)
      → collect_runs entries ≡ ok runs
      → policy.dry_run ≡ false
      → ((path : Text) → remove_dir_all path ≡ none)
      → 0 < policy.max_size_bytes
      → total size runs < 2 ^ 64
      → (result : ArtifactGcResult) × (removed : List RunInfo) × (left : List RunInfo) × (run
            remove_dir_all policy now true none entries
          ≡ ok (result, removed))
        × Perm runs (removed ++ left)
        × ((total size left ≤ policy.max_size_bytes) ⊎ All (λ r. is_live r ≡ true) left)
  run-bound entries runs h real fine pos small =
      let go = step remove_dir_all policy now in
      let test = removes remove_dir_all policy now in
      let s = start remove_dir_all policy now runs in
      let counts = visit-counts remove_dir_all policy now in
      let whole : total size runs % 2 ^ 64 ≡ total size (sort_by newest_first runs) =
        omega (arith, total-sort_by size newest_first runs) in
      (
        (last remove_dir_all policy now runs).result,
        (last remove_dir_all policy now runs).removed,
        rest remove_dir_all policy now runs,
        run_lem remove_dir_all policy now entries runs h,
        taken-perm remove_dir_all policy now runs,
        left-bound go test size (λ t. t.current_size)
            (λ r t e. let (_, w, _, _, _) = counts r t in ground arith)
            (λ r t e. let (_, w, _, _, _) = counts r t in let f = fine r.path in ground arith)
            policy.max_size_bytes is_live (stays-is_live real fine pos) (sort_by newest_first runs)
            s whole,
      )

drop-nil : (k : ℕ) → ◌≡◌ {A = List RunInfo} (drop k []) []
drop-nil zero = refl
drop-nil (suc k) = refl

drop_below :
    (n k : ℕ) (r : RunInfo) (rs : List RunInfo)
    → k < n
    → drop (n - k) (r ∷ rs) ≡ drop (n - suc k) rs
drop_below n k r rs h = let e : n - k ≡ suc (n - suc k) = omega arith in ap (λ i. drop i (r ∷ rs)) e

drop_from : (n k : ℕ) (rs : List RunInfo) → n ≤ k → drop (n - k) rs ≡ rs
drop_from n k rs h = let e : n - k ≡ 0 = omega arith in ap (λ i. drop i rs) e

module _ (remove_dir_all : Text → Option Text) (n now : ℕ) (pos : 0 < n)
    (fine : (path : Text) → remove_dir_all path ≡ none) where
  go : RunInfo → Pass → Pass
  go = visit remove_dir_all (keep_last_n n) now

  -- A run that is not live is kept below the count, and removed from there on.
  keep_step :
      (r : RunInfo) (s : Pass)
      → is_live r ≡ false
      → ltb s.kept n ≡ true
      → ((go r s).kept ≡ suc (s.kept)) × ((go r s).removed ≡ s.removed)
  unfolding go visit should_delete
  keep_step r s h k = (ground arith, ground arith)

  drop_step :
      (r : RunInfo) (s : Pass)
      → is_live r ≡ false
      → ltb s.kept n ≡ false
      → ((go r s).kept ≡ s.kept) × ((go r s).removed ≡ s.removed ++ (r ∷ []))
  unfolding go visit should_delete
  drop_step r s h k = let f = fine r.path in (ground arith, ground arith)

  count_pass :
      (rs : List RunInfo) (s : Pass)
      → All (λ r. is_live r ≡ false) rs
      → (for_each go rs s).removed ≡ s.removed ++ drop (n - s.kept) rs
  count_pass [] s h = sym (ap (λ l. s.removed ++ l) (drop-nil (n - s.kept)) ∙ append-nil s.removed)
  count_pass (r ∷ rs) s h =
      let rest = count_pass rs (go r s) h.1 in
      elim (Bool-cases (ltb s.kept n)) [
        | inl e ↦
            let (k, l) = keep_step r s h.0 e in
            rest
            ∙ ap (λ l. l ++ drop (n - (go r s).kept) rs) l
            ∙ ap (λ i. s.removed ++ drop (n - i) rs) k
            ∙ ap (λ l. s.removed ++ l) (sym (drop_below n s.kept r rs (ground arith)))
        | inr e ↦
            let (k, l) = drop_step r s h.0 e in
            rest
            ∙ ap (λ l. l ++ drop (n - (go r s).kept) rs) l
            ∙ ap (λ i. s.removed ++ (r ∷ []) ++ drop (n - i) rs) k
            ∙ append_assoc s.removed (r ∷ []) (drop (n - s.kept) rs)
            ∙ ap (λ l. s.removed ++ (r ∷ l)) (drop_from n s.kept rs (ground arith))
            ∙ ap (λ l. s.removed ++ l) (sym (drop_from n s.kept (r ∷ rs) (ground arith)))
      ]

  -- Under a policy that keeps the last `n` runs, for a positive `n`, in a pass over runs of which none
  -- is live and in which every removal succeeds: what is removed is what follows the first `n` of the
  -- runs, newest first.
  pub keep_last_n-drop :
      (entries : List (Result Entry Text)) (runs : List RunInfo)
      → collect_runs entries ≡ ok runs
      → All (λ r. is_live r ≡ false) runs
      → (result : ArtifactGcResult) × (run remove_dir_all (keep_last_n n) now true none entries
          ≡ ok (result, drop n (sort_by newest_first runs)))
  unfolding go
  keep_last_n-drop entries runs h dead =
      let e =
        count_pass (sort_by newest_first runs) (start remove_dir_all (keep_last_n n) now runs)
          (sort_by-All (λ r. is_live r ≡ false) newest_first runs dead) in
      (
        (last remove_dir_all (keep_last_n n) now runs).result,
        run_lem remove_dir_all (keep_last_n n) now entries runs h
            ∙ ap (λ l. ok ((last remove_dir_all (keep_last_n n) now runs).result, l))
                (e ∙ ap (λ i. drop i (sort_by newest_first runs)) (omega arith)),
      )
