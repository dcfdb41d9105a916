-- ===== src/Gc/Examples.antt =====
-- The collectors on concrete directories.
use rch_mac.Base.{
  ℕ, ◌%◌, ◌^◌, ◌≤◌, true, false, Option, none, some, Text, text, contains, List, [], ◌∷◌, ◌++◌,
  length, drop, Perm, All, Result, ok, ◌⊎◌, ◌≡◌, refl, arith,
}
use rch_mac.Base.Sort.{sort_by}
use rch_mac.State.Run.{RunState}
use rch_mac.Gc.Sweep.{total}
use rch_mac.Gc.Artifact.{
  RetentionPolicy, ArtifactGcResult, RunInfo, Entry, collect_runs, is_live, newest_first, run,
  stats, keep_last_n,
}
use rch_mac.Gc.Deletions.{run-Removable, Removable}
use rch_mac.Gc.Retention.{run-bound, keep_last_n-drop}
use rch_mac.Gc.DryRun.{run-newest}
use rch_mac.Gc.Cache
use rch_mac.Gc.Cache.{
  GcResult, CacheEntryInfo, Dir, dir, unreadable, Dirs, none_left, more, Fs, Caches,
  collect_cache_entries, oldest_first, gc_directory, gc_results, size_based, unprotected,
}
use rch_mac.Gc.Protection.{Spared, gc_results-Spared, gc_directory-oldest}

abbrev entry : Text → Option RunState → ℕ → ℕ → Entry
entry name state created size = record {
  path = name;
  is_dir = true;
  file_name = some name;
  run_state_json = elim state [ none ↦ some none | some st ↦ some (some (st, created)) ];
  mtime = none;
  dir_size = ok size;
}

abbrev info : Text → Option RunState → ℕ → ℕ → RunInfo
info name state created size = record {
  path = name;
  run_id = name;
  state = state;
  created_at = elim state [ none ↦ none | some st ↦ some created ];
  size_bytes = size;
}

abbrev done : Option RunState
done = some RunState.succeeded

abbrev works : Text → Option Text
works path = none

-- Three finished runs, and a run that is still running.
abbrev three : List RunInfo
three = info (text "a") done 10 5 ∷ info (text "b") done 30 7 ∷ info (text "c") done 20 2 ∷ []

abbrev three_found : List (Result Entry Text)
three_found =
    ok (entry (text "a") done 10 5)
    ∷ ok (entry (text "b") done 30 7)
    ∷ ok (entry (text "c") done 20 2)
    ∷ []

abbrev busy : List RunInfo
busy = info (text "d") (some RunState.running) 5 9 ∷ three

abbrev busy_found : List (Result Entry Text)
busy_found = ok (entry (text "d") (some RunState.running) 5 9) ∷ three_found

three_collected : collect_runs three_found ≡ ok three
unfolding collect_runs
three_collected = refl

busy_collected : collect_runs busy_found ≡ ok busy
unfolding collect_runs
busy_collected = refl

abbrev by_size : ℕ → RetentionPolicy
by_size n = record { max_runs = 0; max_age_days = 0; max_size_bytes = n; dry_run = false }

busy_stats :
    stats busy_found
    ≡ ok (record { total_runs = 4; running_runs = 1; total_size_bytes = 23; oldest_run = some 5 })
unfolding stats
busy_stats = refl

-- A run whose state file does not parse counts as finished, and as older than every other.
lost_state :
    run works (keep_last_n 1) 100 true none (ok (entry (text "x") none 50 1) ∷ three_found)
    ≡ ok (
      record { scanned = 4; deleted = 3; bytes_reclaimed = 8; skipped = 0; errors = [] },
      info (text "c") done 20 2 ∷ info (text "a") done 10 5 ∷ info (text "x") none 50 1 ∷ [],
    )
unfolding run sort_by
lost_state = refl

run-Removable_example :
    (result : ArtifactGcResult) × (removed : List RunInfo) × (left : List RunInfo) × (run works
        (keep_last_n 1)
        100
        true
        none
        busy_found
      ≡ ok (result, removed))
    × Perm busy (removed ++ left)
    × All (Removable works (keep_last_n 1) 100) removed
    × (result.deleted ≡ length removed)
    × (result.bytes_reclaimed ≡ total (λ r. r.size_bytes) removed % 2 ^ 64)
run-Removable_example = run-Removable works (keep_last_n 1) 100 busy_found busy busy_collected refl

run-bound_example :
    (result : ArtifactGcResult) × (removed : List RunInfo) × (left : List RunInfo) × (run works
        (by_size 8)
        100
        true
        none
        busy_found
      ≡ ok (result, removed))
    × Perm busy (removed ++ left)
    × ((total (λ r. r.size_bytes) left ≤ 8) ⊎ All (λ r. is_live r ≡ true) left)
run-bound_example =
    run-bound works (by_size 8) 100 busy_found busy busy_collected refl (λ path. refl) (omega arith)
      (omega arith)

keep_last_n-drop_example :
    (result : ArtifactGcResult) × (run works (keep_last_n 1) 100 true none three_found
      ≡ ok (result, drop 1 (sort_by newest_first three)))
keep_last_n-drop_example =
    keep_last_n-drop works 1 100 (omega arith) (λ path. refl) three_found three three_collected
      (refl, (refl, (refl, tt)))

run-newest_example :
    (result : ArtifactGcResult) × (removed : List RunInfo) × (left : List RunInfo) × (run works
        (by_size 8)
        100
        true
        none
        three_found
      ≡ ok (result, removed))
    × (removed ++ left ≡ sort_by newest_first three)
run-newest_example =
    run-newest works (by_size 8) 100 (λ path. refl) refl refl refl three_found three three_collected
      (refl, (refl, (refl, tt)))

-- Two entries, one of them nested, and a directory that is none.
abbrev cached : Dirs
cached =
    more
      (dir (text "v") false none 0 (more (dir (text "v/k") true (some 6) 40 none_left) none_left))
      (more (dir (text "w") true (some 5) 30 none_left) none_left)

abbrev cached_entries : List CacheEntryInfo
cached_entries =
    record { path = text "v/k"; size_bytes = 6; last_accessed = 40 }
    ∷ record { path = text "w"; size_bytes = 5; last_accessed = 30 }
    ∷ []

cached_collected : collect_cache_entries cached ≡ ok cached_entries
unfolding collect_cache_entries
cached_collected = refl

abbrev disk : Fs
disk = record { is_locked = λ p. false; stat_fails = λ p. false; remove_dir_all = works }

abbrev caches : Caches
caches = record {
  derived_data = none;
  spm = some cached;
  results = some cached;
  original_job_id = λ p. some (text "job-1");
}

run_caches :
    Cache.run disk (size_based 8) 100 [] caches
    ≡ ok (
      record { scanned = 4; deleted = 2; bytes_reclaimed = 10; skipped = 0; errors = [] },
      record { path = text "w"; size_bytes = 5; last_accessed = 30 }
          ∷ record { path = text "w"; size_bytes = 5; last_accessed = 30 }
          ∷ [],
    )
unfolding Cache.run gc_directory sort_by contains
run_caches = refl

gc_results-Spared_example :
    (result : GcResult) × (removed : List CacheEntryInfo) × (gc_results disk
        (size_based 8)
        100
        (text "job-1" ∷ [])
        caches
      ≡ ok (result, removed))
    × All (Spared disk (text "job-1" ∷ []) (λ p. some (text "job-1"))) removed
gc_results-Spared_example =
    gc_results-Spared disk (size_based 8) 100 (text "job-1" ∷ []) caches cached cached_entries refl
      cached_collected

gc_directory-oldest_example :
    (result : GcResult) × (removed : List CacheEntryInfo) × (left : List CacheEntryInfo)
    × (gc_directory disk (size_based 8) 100 (λ p. true) (some cached) ≡ ok (result, removed))
    × (removed ++ left ≡ sort_by oldest_first cached_entries)
gc_directory-oldest_example =
    gc_directory-oldest disk (size_based 8) 100 (λ p. true) refl refl cached cached_entries
      cached_collected (refl, (refl, tt))
