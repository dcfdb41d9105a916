-- ===== src/Gc/Eviction.antt =====
-- What a pass of the cache collector evicts, what it counts, in which order, and how much it leaves.
use mathlib.Core.List.Perm
use mathlib.Core.List.{append-nil}
use rch_mac.Base.{
  ℕ, ◌+◌, ◌-◌, ◌%◌, ◌^◌, suc, Bool, true, ◌&&◌, ◌||◌, not, is_some, some, if◌then◌else◌, Text, List,
  [], ◌∷◌, ◌++◌, length, Perm, All, ok, Bool-cases, Option-cases, inl, inr, ◌≡◌, sym, arith, subst,
}
use rch_mac.Base.Sort.{sort_by}
use rch_mac.Gc.Sweep.{total, for_each, gone, left, gone-All, log-gone}
use rch_mac.Gc.Cache.{
  EvictionPolicy, CacheEntryInfo, Dirs, Pass, Fs, collect_cache_entries, oldest_first, size,
  should_evict, visit, start, gc_directory,
}

module _ (fs : Fs) (policy : EvictionPolicy) (now : ℕ) (can_delete : Text → Bool) where
  -- Nothing keeps the entry: no lock, no protected job, no failure.
  abbrev pub free : CacheEntryInfo → Bool
  free e = not (fs.is_locked e.path) && not (fs.stat_fails e.path) && can_delete e.path

  abbrev pub removable : CacheEntryInfo → Bool
  removable e = free e && not (is_some (fs.remove_dir_all e.path))

  abbrev pub removes : CacheEntryInfo → Pass → Bool
  removes e s = should_evict policy e s.current_size now && not (policy.dry_run) && removable e

  abbrev pub deletes : CacheEntryInfo → Pass → Bool
  deletes e s =
      should_evict policy e s.current_size now
      && free e
      && (policy.dry_run || not (is_some (fs.remove_dir_all e.path)))

  abbrev pub step : CacheEntryInfo → Pass → Pass
  step = visit fs policy now can_delete

  pub visit-counts :
      (e : CacheEntryInfo) (s : Pass)
      → ((step e s).removed ≡ s.removed ++ (if removes e s then e ∷ [] else []))
        × ((step e s).current_size
            ≡ (if deletes e s then s.current_size - e.size_bytes else s.current_size))
        × ((step e s).result.deleted
            ≡ (if deletes e s then suc (s.result.deleted) else s.result.deleted))
        × ((step e s).result.bytes_reclaimed ≡ (
            if deletes e s
            then (s.result.bytes_reclaimed + e.size_bytes) % 2 ^ 64
            else s.result.bytes_reclaimed))
  unfolding visit
  visit-counts e s =
      let same = append-nil s.removed in
      elim (Bool-cases (should_evict policy e s.current_size now)) [
        | inl a ↦ elim (Bool-cases (free e)) [
          | inl b ↦ elim (Bool-cases (policy.dry_run)) [
            | inl c ↦ ground arith
            | inr c ↦ elim (Option-cases (fs.remove_dir_all e.path)) [
              | inl d ↦ ground arith
              | inr d ↦ ground arith
            ]
          ]
          | inr b ↦ ground arith
        ]
        | inr a ↦ ground arith
      ]

  module _ (entries : List CacheEntryInfo) where
    abbrev pub sorted : List CacheEntryInfo
    sorted = sort_by oldest_first entries

    abbrev pub begin : Pass
    begin = start fs policy now can_delete entries

    abbrev pub last : Pass
    last = for_each step sorted begin

    abbrev pub rest : List CacheEntryInfo
    rest = left step removes sorted begin

    pub last-removed : last.removed ≡ gone step removes sorted begin
    last-removed = log-gone step removes (λ s. s.removed) (λ e s. (visit-counts e s).0) sorted begin

    pub last-All : All (λ e. removable e ≡ true) last.removed
    last-All =
        subst (All (λ e. removable e ≡ true)) (sym last-removed)
          (gone-All step removes sorted begin (λ e s h. ground arith))

  pub gc_directory_lem :
      (held : Dirs) (entries : List CacheEntryInfo)
      → collect_cache_entries held ≡ ok entries
      → gc_directory fs policy now can_delete (some held)
        ≡ ok ((last entries).result, (last entries).removed)
  unfolding gc_directory
  gc_directory_lem held entries h = ground arith

  abbrev Counted : Pass → Type 0
  Counted s =
      (s.result.deleted ≡ length s.removed)
      × (s.result.bytes_reclaimed ≡ total size s.removed % 2 ^ 64)
