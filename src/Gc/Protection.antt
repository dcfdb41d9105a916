-- ===== src/Gc/Protection.antt =====
-- Which results the collector spares for the jobs that run, and the order in which a limit on the
-- size takes cache entries away.
use rch_mac.Base.{
  ℕ, Bool, true, false, Option, some, Text, contains, List, [], ◌∷◌, ◌++◌, All, ok, Bool-cases, inl,
  inr, ◌≡◌, ◌∙◌, ap, arith,
}
use rch_mac.Base.Sort.{sort_by, sort_by-All}
use rch_mac.Gc.Sweep.{gone-left-append}
use rch_mac.Gc.Cache.{
  EvictionPolicy, GcResult, CacheEntryInfo, Dirs, Pass, Fs, Caches, collect_cache_entries,
  oldest_first, too_large, should_evict, gc_directory, gc_results, unprotected,
}
use rch_mac.Gc.Eviction.{
  removable, removes, deletes, step, visit-counts, begin, last, rest, last-removed, last-All,
  gc_directory_lem,
}

-- The entry is locked by nobody, and its metadata file names no job of the set.
abbrev pub Spared : Fs → List Text → (Text → Option Text) → CacheEntryInfo → Type 0
Spared fs jobs job_of e =
    (fs.is_locked e.path ≡ false)
    × ((id : Text) → job_of e.path ≡ some id → contains jobs id ≡ false)

module _ (fs : Fs) (policy : EvictionPolicy) (now : ℕ) (jobs : List Text) (c : Caches) where
  All-Spared :
      (es : List CacheEntryInfo)
      → All (λ e. removable fs policy now (unprotected jobs c.original_job_id) e ≡ true) es
      → All (Spared fs jobs c.original_job_id) es
  unfolding unprotected
  All-Spared [] h = tt
  All-Spared (e ∷ es) (a, b) = ((ground arith, λ id q. ground arith), All-Spared es b)

  -- Where the results directory exists and its entries are collected, the collector answers, and no
  -- entry that it removed was locked or belongs to a protected job.
  pub gc_results-Spared :
      (held : Dirs) (entries : List CacheEntryInfo)
      → c.results ≡ some held
      → collect_cache_entries held ≡ ok entries
      → (result : GcResult) × (removed : List CacheEntryInfo) × (gc_results fs policy now jobs c
          ≡ ok (result, removed))
        × All (Spared fs jobs c.original_job_id) removed
  unfolding gc_results
  gc_results-Spared held entries there h =
      let can = unprotected jobs c.original_job_id in
      (
        (last fs policy now can entries).result,
        (last fs policy now can entries).removed,
        ap (gc_directory fs policy now can) there
            ∙ gc_directory_lem fs policy now can held entries h,
        All-Spared (last fs policy now can entries).removed (last-All fs policy now can entries),
      )

module _ (fs : Fs) (policy : EvictionPolicy) (now : ℕ) (can_delete : Text → Bool)
    (real : policy.dry_run ≡ false) (no_age : policy.max_age_days ≡ 0) where
  over : Pass → Bool
  over s = too_large policy s.current_size

  removes-over :
      (e : CacheEntryInfo) (s : Pass)
      → removable fs policy now can_delete e ≡ true
      → removes fs policy now can_delete e s ≡ over s
  unfolding should_evict over
  removes-over e s h = ground arith

  over_stays :
      (e : CacheEntryInfo) (s : Pass)
      → removable fs policy now can_delete e ≡ true
      → over s ≡ false
      → over (step fs policy now can_delete e s) ≡ false
  unfolding over
  over_stays e s h b =
      let (_, w, _, _) = visit-counts fs policy now can_delete e s in
      elim (Bool-cases (deletes fs policy now can_delete e s)) [
        | inl q ↦ ground arith
        | inr q ↦ ground arith
      ]

  -- Under a limit on the size alone, outside a dry run, over entries that can all be removed: what the
  -- collector removes is a first part of the entries, the least recently used first.
  pub gc_directory-oldest :
      (held : Dirs) (entries : List CacheEntryInfo)
      → collect_cache_entries held ≡ ok entries
      → All (λ e. removable fs policy now can_delete e ≡ true) entries
      → (result : GcResult) × (removed : List CacheEntryInfo) × (left : List CacheEntryInfo)
        × (gc_directory fs policy now can_delete (some held) ≡ ok (result, removed))
        × (removed ++ left ≡ sort_by oldest_first entries)
  gc_directory-oldest held entries h able =
      let P = λ (e : CacheEntryInfo). removable fs policy now can_delete e ≡ true in
      let left = rest fs policy now can_delete entries in
      (
        (last fs policy now can_delete entries).result,
        (last fs policy now can_delete entries).removed,
        left,
        gc_directory_lem fs policy now can_delete held entries h,
        ap (λ l. l ++ left) (last-removed fs policy now can_delete entries)
            ∙ gone-left-append (step fs policy now can_delete) (removes fs policy now can_delete)
                over P removes-over over_stays (sort_by oldest_first entries)
                (begin fs policy now can_delete entries) (sort_by-All P oldest_first entries able),
      )
