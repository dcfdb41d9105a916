-- ===== src/Gc/Cache.antt =====
-- src/crates/rch-worker/src/cache/gc.rs: the eviction policy, the set of protected jobs, the entries
-- of a cache directory, and the pass that evicts them. A time is in nanoseconds since the epoch; the
-- counters of bytes wrap around at 2^64. The file system is a parameter: the directory tree, the
-- locks, the metadata files, and what each `remove_dir_all` answers.
use Prim.Native.Nat.{compare}
use rch_mac.Base.{
  ℕ, ◌+◌, ◌-◌, ◌*◌, ◌%◌, ◌^◌, suc, Bool, true, false, ◌&&◌, ◌||◌, not, ltb, leb, Ordering, Option,
  none, some, if◌then◌else◌, Text, text, text_eq, contains, List, [], ◌∷◌, ◌++◌, length, filter,
  Result, ok, err, ◌>>=◌,
}
use rch_mac.Base.Sort.{sort_by}
use rch_mac.Gc.Sweep.{total, for_each}

pub record EvictionPolicy : Type 0 where
  pub max_size_bytes : ℕ
  pub max_age_days : ℕ
  pub dry_run : Bool

abbrev pub default_policy : EvictionPolicy
default_policy = record {
  max_size_bytes = 10 * 1024 * 1024 * 1024;
  max_age_days = 7;
  dry_run = false;
}

abbrev pub size_based : ℕ → EvictionPolicy
size_based max_size_bytes = record {
  max_size_bytes = max_size_bytes;
  max_age_days = 0;
  dry_run = false;
}

abbrev pub age_based : ℕ → EvictionPolicy
age_based max_age_days = record { max_size_bytes = 0; max_age_days = max_age_days; dry_run = false }

abbrev pub with_dry_run : EvictionPolicy → EvictionPolicy
with_dry_run policy = record policy { dry_run = true }

pub record GcResult : Type 0 where
  pub scanned : ℕ
  pub deleted : ℕ
  pub bytes_reclaimed : ℕ
  pub skipped : ℕ
  pub errors : List Text

abbrev pub no_result : GcResult
no_result = record { scanned = 0; deleted = 0; bytes_reclaimed = 0; skipped = 0; errors = [] }

unfoldable pub merge : GcResult → GcResult → GcResult
merge r other = record {
  scanned = r.scanned + other.scanned;
  deleted = r.deleted + other.deleted;
  bytes_reclaimed = (r.bytes_reclaimed + other.bytes_reclaimed) % 2 ^ 64;
  skipped = r.skipped + other.skipped;
  errors = r.errors ++ other.errors;
}

pub record CacheEntryInfo : Type 0 where
  pub path : Text
  pub size_bytes : ℕ
  pub last_accessed : ℕ

-- `HashSet<String>` of the jobs that run: `protect_job` and `unprotect_job`.
abbrev pub protect_job : Text → List Text → List Text
protect_job job_id jobs = if contains jobs job_id then jobs else job_id ∷ jobs

abbrev pub unprotect_job : Text → List Text → List Text
unprotect_job job_id jobs = filter (λ id. not (text_eq id job_id)) jobs

-- A directory: its path, whether it holds the lock or the metadata of a cache entry, its size where
-- it can be read, when it was last used, and what it holds.
mutual
  pub data Dir : Type 0 where
    dir : Text → Bool → Option ℕ → ℕ → Dirs → Dir
    unreadable : Text → Dir

  pub data Dirs : Type 0 where
    none_left : Dirs
    more : Dir → Dirs → Dirs

-- A cache entry is not searched; an error ends the collection.
unfoldable mutual
  pub collect_dir : Dir → Result (List CacheEntryInfo) Text
  collect_dir (dir path true size accessed held) = ok (
      record {
        path = path;
        size_bytes = elim size [ none ↦ 0 | some n ↦ n ];
        last_accessed = accessed;
      }
      ∷ [])
  collect_dir (dir path false size accessed held) = collect_cache_entries held
  collect_dir (unreadable e) = err e

  pub collect_cache_entries : Dirs → Result (List CacheEntryInfo) Text
  collect_cache_entries none_left = ok []
  collect_cache_entries (more d ds) =
      collect_dir d >>= λ entries. collect_cache_entries ds >>= λ others. ok (entries ++ others)

abbrev pub oldest_first : CacheEntryInfo → CacheEntryInfo → Ordering
oldest_first a b = compare (a.last_accessed) (b.last_accessed)

abbrev pub size : CacheEntryInfo → ℕ
size e = e.size_bytes

-- `duration_since` fails where the entry is from the future.
abbrev pub too_old : EvictionPolicy → ℕ → CacheEntryInfo → Bool
too_old policy now e =
    ltb 0 policy.max_age_days
    && leb (e.last_accessed) now
    && ltb (policy.max_age_days * 24 * 60 * 60 * 1000000000) (now - e.last_accessed)

abbrev pub too_large : EvictionPolicy → ℕ → Bool
too_large policy current_size =
    ltb 0 policy.max_size_bytes && ltb policy.max_size_bytes current_size

unfoldable pub should_evict : EvictionPolicy → CacheEntryInfo → ℕ → ℕ → Bool
should_evict policy e current_size now = too_old policy now e || too_large policy current_size

-- The variables of the loop, and the entries that it removed.
pub record Pass : Type 0 where
  pub result : GcResult
  pub current_size : ℕ
  pub removed : List CacheEntryInfo

-- What the collector asks of the file system.
pub record Fs : Type 0 where
  pub is_locked : Text → Bool
  pub stat_fails : Text → Bool
  pub remove_dir_all : Text → Option Text

abbrev count_deleted : CacheEntryInfo → Pass → Pass
count_deleted e s = record s {
  result = record (s.result) {
    deleted = suc (s.result.deleted);
    bytes_reclaimed = (s.result.bytes_reclaimed + e.size_bytes) % 2 ^ 64;
  };
  current_size = s.current_size - e.size_bytes;
}

abbrev skip : Pass → Pass
skip s = record s { result = record (s.result) { skipped = suc (s.result.skipped) } }

abbrev fail : Text → Pass → Pass
fail e s = record s { result = record (s.result) { errors = s.result.errors ++ (e ∷ []) } }

module _ (fs : Fs) (policy : EvictionPolicy) (now : ℕ) (can_delete : Text → Bool) where
  unfoldable pub visit : CacheEntryInfo → Pass → Pass
  unfolding should_evict
  visit e s =
      if not (should_evict policy e s.current_size now)
      then s
      else if fs.is_locked e.path
      then skip s
      else if fs.stat_fails e.path
      then fail (text "Failed to stat: " ++ e.path) s
      else if not (can_delete e.path)
      then skip s
      else if policy.dry_run
      then count_deleted e s
      else elim (fs.remove_dir_all e.path) [
        | none ↦ record (count_deleted e s) { removed = s.removed ++ (e ∷ []) }
        | some x ↦ fail (text "Failed to delete " ++ e.path ++ text ": " ++ x) s
      ]

  abbrev pub start : List CacheEntryInfo → Pass
  start entries = record {
    result = record no_result { scanned = length entries };
    current_size = total size entries % 2 ^ 64;
    removed = [];
  }

  -- The base directory, where it exists.
  unfoldable pub gc_directory : Option Dirs → Result (GcResult × List CacheEntryInfo) Text
  unfolding visit collect_cache_entries
  gc_directory none = ok (no_result, [])
  gc_directory (some held) = collect_cache_entries held >>= λ entries.
      let s = for_each visit (sort_by oldest_first entries) (start entries) in
      ok (s.result, s.removed)

-- The three caches of a namespace, and the job that each metadata file of a result names.
pub record Caches : Type 0 where
  pub derived_data : Option Dirs
  pub spm : Option Dirs
  pub results : Option Dirs
  pub original_job_id : Text → Option Text

-- The callback of `gc_results`.
unfoldable pub unprotected : List Text → (Text → Option Text) → Text → Bool
unprotected jobs job_of path = elim (job_of path) [ none ↦ true | some id ↦ not (contains jobs id) ]

module _ (fs : Fs) (policy : EvictionPolicy) (now : ℕ) (jobs : List Text) where
  unfoldable pub gc_derived_data : Caches → Result (GcResult × List CacheEntryInfo) Text
  gc_derived_data c = gc_directory fs policy now (λ path. true) c.derived_data

  unfoldable pub gc_spm : Caches → Result (GcResult × List CacheEntryInfo) Text
  gc_spm c = gc_directory fs policy now (λ path. true) c.spm

  unfoldable pub gc_results : Caches → Result (GcResult × List CacheEntryInfo) Text
  unfolding unprotected
  gc_results c = gc_directory fs policy now (unprotected jobs c.original_job_id) c.results

  unfoldable pub run : Caches → Result (GcResult × List CacheEntryInfo) Text
  unfolding gc_derived_data gc_spm gc_results merge
  run c = gc_derived_data c >>= λ dd. gc_spm c >>= λ spm. gc_results c >>= λ res.
      ok (merge (merge (merge no_result dd.0) spm.0) res.0, dd.1 ++ spm.1 ++ res.1)
