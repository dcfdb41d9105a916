-- ===== src/Selection/Examples.antt =====
-- The choice of src/selection/mod.rs, and the resolutions that it goes through, for two workers.
use mathlib.Core.List.{mem-cons_self}
use mathlib.Core.List.Perm
use rch_mac.Base.{
  ◌+◌, ◌≤◌, min, leb, ◌&&◌, Ordering, true, false, none, some, if◌then◌else◌, Text, text, contains,
  text_eq, ok, [], ◌∷◌, map, Mem, ◌≡◌, ◌≢◌, inl, inr, refl, arith,
}
use rch_mac.Base.Max.{pos, compare_ℤ}
use rch_mac.Capabilities.{Capabilities, XcodeVersion}
use rch_mac.Inventory.{has_tags}
use rch_mac.Toolchain.{XcodeConstraint, resolve_toolchain, is_empty, find_by_build}
use rch_mac.Toolchain.Laws.{same_build}
use rch_mac.Base.Sort.{sort_by}
use rch_mac.Base.Compare.{compare_text}
use rch_mac.Selection.Types.{WorkerCandidate, SelectionConstraints, SelectionResult, adaptive}
use rch_mac.Selection.{
  Candidates, select_worker, by_preference, xcode_fits, destination_fits, protocols_meet,
}
use rch_mac.Selection.Eligible.{Eligible}
use rch_mac.Selection.Laws.{
  select_worker-Eligible, select_worker-best, select_worker-total, select_worker-perm,
}

-- `to_lowercase` on the letters of ASCII.
abbrev lower : Text → Text
lower = map (λ c. if leb 65 c && leb c 90 then c + 32 else c)

abbrev xcode : XcodeVersion
xcode = record {
  version = text "16.2";
  build = text "16C5032a";
  path = text "/Applications/Xcode.app";
  developer_dir = text "/Applications/Xcode.app/Contents/Developer";
}

abbrev sonoma : Capabilities
sonoma = record {
  schema_version = 1;
  schema_id = text "rch-xcode/capabilities@1";
  created_at = 0;
  rch_xcode_lane_version = text "0.1.0";
  protocol_min = 1;
  protocol_max = 2;
  features = [];
  xcode_versions = xcode ∷ [];
  active_xcode = none;
  macos = record { version = text "15.3"; build = text "24D60"; architecture = text "arm64" };
  simulators = [];
  runtimes = [];
  capacity = record {
    max_concurrent_jobs = 2;
    disk_free_bytes = 1000;
    disk_total_bytes = none;
    memory_available_bytes = none;
  };
}

abbrev mini : WorkerCandidate
mini = record {
  worker = record {
    name = text "mini";
    host = text "mini.local";
    port = 22;
    user = text "rch";
    tags = text "macos" ∷ text "xcode" ∷ [];
    ssh_key_path = none;
    priority = pos 100;
    known_host_fingerprint = none;
    attestation_pubkey_fingerprint = none;
  };
  capabilities = sonoma;
  snapshot_time = 0;
  fresh = true;
}

abbrev studio : WorkerCandidate
studio = record mini { worker = record (mini.worker) { name = text "studio"; priority = pos 10 } }

abbrev candidates : Candidates
candidates = mini ∷ studio ∷ []

abbrev asked_xcode : XcodeConstraint
asked_xcode = record { build = some (text "16C5032a"); version = none; min_version = none }

abbrev asked : SelectionConstraints
asked = record {
  required_tags = text "macos" ∷ [];
  xcode = asked_xcode;
  destination = none;
  mode = adaptive;
  probe_ttl_seconds = 300;
}

mini_fits : Eligible lower asked (1, 1) mini
mini_fits = record {
  tags = (mem-cons_self, tt);
  xcode = inr (xcode, mem-cons_self, same_build refl);
  destination = inl refl;
  below = omega arith;
  above = omega arith;
}

select_worker-total_example :
    (r : SelectionResult) × (select_worker lower candidates asked (1, 1) ≡ ok r)
select_worker-total_example =
    select_worker-total lower asked (1, 1) candidates mini mem-cons_self mini_fits

abbrev result : SelectionResult
result = record {
  candidate = studio;
  tag_filtered_count = 2;
  constraint_filtered_count = 2;
  negotiated_protocol_version = 1;
  filtered_no_xcode = [];
  filtered_no_destination = [];
  selection_mode = adaptive;
  adaptive_metrics = some (record {
    disk_free_bytes = 1000;
    memory_available_bytes = none;
    disk_was_tiebreaker = false;
    memory_was_tiebreaker = false;
  });
}

selects : select_worker lower candidates asked (1, 1) ≡ ok result
unfolding select_worker has_tags contains text_eq xcode_fits is_empty resolve_toolchain
    find_by_build destination_fits protocols_meet sort_by compare_text compare_ℤ
selects = refl

selects_swapped : select_worker lower (studio ∷ mini ∷ []) asked (1, 1) ≡ ok result
unfolding select_worker has_tags contains text_eq xcode_fits is_empty resolve_toolchain
    find_by_build destination_fits protocols_meet sort_by compare_text compare_ℤ
selects_swapped = refl

select_worker-Eligible_example :
    Mem studio candidates
    × Eligible lower asked (1, 1) studio
    × (1 ≡ min 2 1)
    × (1 ≤ 1)
    × (1 ≤ 1)
    × (1 ≤ 1)
select_worker-Eligible_example =
    select_worker-Eligible lower asked (1, 1) candidates selects (omega arith) (omega arith)

select_worker-best_example : by_preference adaptive studio mini ≢ Ordering.gt
select_worker-best_example =
    select_worker-best lower asked (1, 1) candidates selects mini mem-cons_self mini_fits

select_worker-perm_example : result.candidate.worker.name ≡ result.candidate.worker.name
select_worker-perm_example =
    select_worker-perm lower asked (1, 1) candidates (studio ∷ mini ∷ []) (Perm.swap studio mini [])
      selects selects_swapped
