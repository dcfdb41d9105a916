-- ===== src/Gc/Artifact.antt =====
-- src/src/artifact/gc.rs: the retention policy, what is known of the runs under the artifact root,
-- and the pass that deletes runs. A time is in nanoseconds since the epoch; the counters of bytes
-- wrap around at 2^64. The file system is a parameter: what the directory holds, and what each
-- `remove_dir_all` answers: an error, or none.
use Prim.Native.Nat.{compare}
use rch_mac.Base.{
  ℕ, ◌+◌, ◌-◌, ◌*◌, ◌%◌, ◌^◌, suc, Bool, true, false, ◌&&◌, ◌||◌, not, ltb, leb, Ordering, Option,
  none, some, unwrap_or, if◌then◌else◌, Text, text, List, [], ◌∷◌, ◌++◌, length, filter, Result, ok,
  err,
}
use rch_mac.Base.Sort.{sort_by}
use rch_mac.State.Run.{RunState, is_terminal}
use rch_mac.Gc.Sweep.{total, for_each}

pub record RetentionPolicy : Type 0 where
  pub max_runs : ℕ
  pub max_age_days : ℕ
  pub max_size_bytes : ℕ
  pub dry_run : Bool

abbrev pub default_policy : RetentionPolicy
default_policy = record { max_runs = 100; max_age_days = 30; max_size_bytes = 0; dry_run = false }

abbrev pub keep_last_n : ℕ → RetentionPolicy
keep_last_n count = record {
  max_runs = count;
  max_age_days = 0;
  max_size_bytes = 0;
  dry_run = false;
}

abbrev pub keep_days : ℕ → RetentionPolicy
keep_days days = record { max_runs = 0; max_age_days = days; max_size_bytes = 0; dry_run = false }

abbrev pub with_dry_run : RetentionPolicy → RetentionPolicy
with_dry_run policy = record policy { dry_run = true }

pub record ArtifactGcResult : Type 0 where
  pub scanned : ℕ
  pub deleted : ℕ
  pub bytes_reclaimed : ℕ
  pub skipped : ℕ
  pub errors : List Text

abbrev pub no_result : ArtifactGcResult
no_result = record { scanned = 0; deleted = 0; bytes_reclaimed = 0; skipped = 0; errors = [] }

pub record RunInfo : Type 0 where
  pub path : Text
  pub run_id : Text
  pub state : Option RunState
  pub created_at : Option ℕ
  pub size_bytes : ℕ

-- What a directory of `runs` shows: whether `run_state.json` is there, and the state and the time in
-- it where it reads and parses.
pub record Entry : Type 0 where
  pub path : Text
  pub is_dir : Bool
  pub file_name : Option Text
  pub run_state_json : Option (Option (RunState × ℕ))
  pub mtime : Option ℕ
  pub dir_size : Result ℕ Text

abbrev recorded : Entry → Option RunState × Option ℕ
recorded e = elim (e.run_state_json) [
  | none ↦ (none, e.mtime)
  | some none ↦ (none, none)
  | some (some (state, created)) ↦ (some state, some created)
]

-- An error while the directory is read ends the collection.
unfoldable pub collect_runs : List (Result Entry Text) → Result (List RunInfo) Text
collect_runs [] = ok []
collect_runs (err e ∷ es) = err e
collect_runs (ok e ∷ es) = elim (if e.is_dir then e.file_name else none) [
  | none ↦ collect_runs es
  | some run_id ↦ elim (collect_runs es) [
    | err x ↦ err x
    | ok runs ↦ ok (
        record {
          path = e.path;
          run_id = run_id;
          state = (recorded e).0;
          created_at = (recorded e).1;
          size_bytes = elim (e.dir_size) [ ok n ↦ n | err x ↦ 0 ];
        }
        ∷ runs)
  ]
]

-- `!state.is_terminal()`, where there is a state.
abbrev pub is_live : RunInfo → Bool
is_live run = elim (run.state) [ none ↦ false | some state ↦ not (is_terminal state) ]

abbrev pub created : RunInfo → ℕ
created run = unwrap_or (run.created_at) 0

abbrev pub newest_first : RunInfo → RunInfo → Ordering
newest_first a b = compare (created b) (created a)

abbrev pub size : RunInfo → ℕ
size run = run.size_bytes

abbrev nanoseconds_of_days : ℕ → ℕ
nanoseconds_of_days days = days * 24 * 60 * 60 * 1000000000

-- `duration_since` fails where the run is from the future.
abbrev pub too_old : RetentionPolicy → ℕ → RunInfo → Bool
too_old policy now run = elim (run.created_at) [
  | none ↦ false
  | some created ↦
      ltb 0 policy.max_age_days
      && leb created now
      && ltb (nanoseconds_of_days policy.max_age_days) (now - created)
]

-- The variables of the loop, and the directories that it removed.
pub record Pass : Type 0 where
  pub result : ArtifactGcResult
  pub kept : ℕ
  pub current_size : ℕ
  pub removed : List RunInfo

unfoldable pub should_delete : RetentionPolicy → ℕ → RunInfo → Pass → Bool
should_delete policy now run s =
    ltb 0 policy.max_runs && leb policy.max_runs s.kept
    || too_old policy now run
    || ltb 0 policy.max_size_bytes && ltb policy.max_size_bytes s.current_size

abbrev count_deleted : RunInfo → Pass → Pass
count_deleted run s = record s {
  result = record (s.result) {
    deleted = suc (s.result.deleted);
    bytes_reclaimed = (s.result.bytes_reclaimed + run.size_bytes) % 2 ^ 64;
  };
  current_size = s.current_size - run.size_bytes;
}

abbrev failed : RunInfo → Text → Pass → Pass
failed run e s = record s {
  result = record (s.result) {
    errors = s.result.errors ++ ((text "Failed to delete " ++ run.run_id ++ text ": " ++ e) ∷ []);
  };
}

module _ (remove_dir_all : Text → Option Text) (policy : RetentionPolicy) (now : ℕ) where
  unfoldable pub visit : RunInfo → Pass → Pass
  unfolding should_delete
  visit run s =
      if is_live run
      then record s {
        result = record (s.result) { skipped = suc (s.result.skipped) };
        kept = suc (s.kept);
      }
      else if not (should_delete policy now run s)
      then record s { kept = suc (s.kept) }
      else if policy.dry_run
      then count_deleted run s
      else elim (remove_dir_all run.path) [
        | none ↦ record (count_deleted run s) { removed = s.removed ++ (run ∷ []) }
        | some e ↦ failed run e s
      ]

  abbrev pub start : List RunInfo → Pass
  start runs = record {
    result = record no_result { scanned = length runs };
    kept = 0;
    current_size = total size runs % 2 ^ 64;
    removed = [];
  }

  -- `run`, from the test of the root on: the root and the lock file, then the runs newest first.
  unfoldable pub run :
      Bool → Option Text → List (Result Entry Text) → Result (ArtifactGcResult × List RunInfo) Text
  unfolding visit collect_runs
  run false lock entries = ok (no_result, [])
  run true (some e) entries =
      ok (record no_result { errors = (text "Failed to acquire GC lock: " ++ e) ∷ [] }, [])
  run true none entries = elim (collect_runs entries) [
    | err e ↦ err e
    | ok runs ↦
        let s = for_each visit (sort_by newest_first runs) (start runs) in ok (s.result, s.removed)
  ]

pub record ArtifactStats : Type 0 where
  pub total_runs : ℕ
  pub running_runs : ℕ
  pub total_size_bytes : ℕ
  pub oldest_run : Option ℕ

-- `filter_map` with `min`.
unfoldable pub oldest : List RunInfo → Option ℕ
oldest [] = none
oldest (run ∷ runs) =
    let rest = oldest runs in
    elim (run.created_at) [
      | none ↦ rest
      | some t ↦ elim rest [ none ↦ some t | some u ↦ some (if leb t u then t else u) ]
    ]

unfoldable pub stats : List (Result Entry Text) → Result ArtifactStats Text
unfolding oldest collect_runs
stats entries = elim (collect_runs entries) [
  | err e ↦ err e
  | ok runs ↦ ok (record {
    total_runs = length runs;
    running_runs = length (filter is_live runs);
    total_size_bytes = total size runs % 2 ^ 64;
    oldest_run = oldest runs;
  })
]
