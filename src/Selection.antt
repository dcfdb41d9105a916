-- ===== src/Selection.antt =====
-- src/selection/mod.rs: the choice of a worker. `lower` is `str::to_lowercase`.
pub mod Types
pub mod Eligible
pub mod Examples
pub mod Laws
use rch_mac.Base.{
  ℕ, ◌+◌, ◌-◌, ltb, leb, ◌==◌, compare, min, Ordering, Bool, true, false, ◌&&◌, ◌||◌, not, Option,
  none, some, unwrap_or, if◌then◌else◌, Text, text_eq, Result, ok, err, is_ok, List, [], ◌∷◌, map,
  filter, any, is_empty, length, head?,
}
use rch_mac.Base.Compare.{compare_text, then_with}
use rch_mac.Base.Sort.{sort_by}
use rch_mac.Base.Max.{compare_ℤ}
use rch_mac.Capabilities.{Capabilities}
use rch_mac.Inventory.{WorkerEntry, has_tags}
use rch_mac.Toolchain.{XcodeConstraint, resolve_toolchain, is_empty as unconstrained}
use rch_mac.Destination.{resolve_destination}
use rch_mac.Destination.Constraint.{DestinationConstraint}
use Types.{
  SelectionMode, deterministic, adaptive, WorkerCandidate, SelectionConstraints, SelectionError,
  no_tag_match, no_xcode_match, no_destination_match, no_workers_configured,
  no_protocol_intersection, AdaptiveMetrics, SelectionResult,
}

abbrev pub Candidates : Type 0
Candidates = List WorkerCandidate

-- Phase 4: the two ranges of protocol versions meet.
unfoldable pub protocols_meet : ℕ × ℕ → WorkerCandidate → Bool
protocols_meet (host_min, host_max) c =
    leb host_min c.capabilities.protocol_max && leb c.capabilities.protocol_min host_max

-- Phase 2: no constraint lets every worker pass.
unfoldable pub xcode_fits : XcodeConstraint → WorkerCandidate → Bool
xcode_fits k c = if unconstrained k then true else is_ok (resolve_toolchain c.capabilities k)

-- The tie-breakers of the adaptive mode: more free disk, then more memory, an unknown one being 0.
abbrev pub by_metrics : SelectionMode → WorkerCandidate → WorkerCandidate → Ordering
by_metrics deterministic a b = Ordering.eq
by_metrics adaptive a b =
    then_with
      (compare b.capabilities.capacity.disk_free_bytes a.capabilities.capacity.disk_free_bytes)
      (compare (unwrap_or b.capabilities.capacity.memory_available_bytes 0)
        (unwrap_or a.capabilities.capacity.memory_available_bytes 0))

-- Phase 5: the comparison of the sort.
abbrev pub by_preference : SelectionMode → WorkerCandidate → WorkerCandidate → Ordering
by_preference mode a b =
    then_with (compare_ℤ a.worker.priority b.worker.priority)
      (then_with (by_metrics mode a b) (compare_text a.worker.name b.worker.name))

same_priority : WorkerCandidate → WorkerCandidate → Bool
same_priority s c = elim (compare_ℤ c.worker.priority s.worker.priority) [
  | Ordering.eq ↦ true
  | _ ↦ false
]

same_memory : Option ℕ → Option ℕ → Bool
same_memory none none = true
same_memory (some a) (some b) = a == b
same_memory _ _ = false

-- Which metric was a deciding factor, as the artifact reports it.
metrics : SelectionMode → Candidates → WorkerCandidate → Option AdaptiveMetrics
unfolding same_priority same_memory
metrics deterministic sorted s = none
metrics adaptive sorted s =
    let tied = ltb 1 (length (filter (same_priority s) sorted)) in
    let disk =
      tied
      && ltb 1 (length sorted)
      && any
          (λ c.
            same_priority s c
            && not (
                c.capabilities.capacity.disk_free_bytes == s.capabilities.capacity.disk_free_bytes))
          sorted in
    let memory =
      tied
      && not disk
      && any
          (λ c.
            same_priority s c
            && not (
                same_memory c.capabilities.capacity.memory_available_bytes
                  s.capabilities.capacity.memory_available_bytes))
          sorted in
    some (record {
      disk_free_bytes = s.capabilities.capacity.disk_free_bytes;
      memory_available_bytes = s.capabilities.capacity.memory_available_bytes;
      disk_was_tiebreaker = disk;
      memory_was_tiebreaker = memory;
    })

-- Phases 5 and 6: the first of the sorted candidates.
abbrev pub best : SelectionMode → WorkerCandidate → Candidates → WorkerCandidate
best mode c cs = unwrap_or (head? (sort_by (by_preference mode) (c ∷ cs))) c

module _ (lower : Text → Text) where
  -- Phase 3.
  unfoldable pub destination_fits : Option DestinationConstraint → WorkerCandidate → Bool
  destination_fits none c = true
  destination_fits (some d) c = is_ok (resolve_destination lower d c.capabilities)

  -- The lists that the phases leave.
  abbrev pub tagged : SelectionConstraints → Candidates → Candidates
  tagged k cs = filter (λ c. has_tags c.worker k.required_tags) cs

  abbrev pub with_xcode : SelectionConstraints → Candidates → Candidates
  with_xcode k cs = filter (xcode_fits k.xcode) (tagged k cs)

  abbrev pub with_destination : SelectionConstraints → Candidates → Candidates
  with_destination k cs = filter (destination_fits k.destination) (with_xcode k cs)

  abbrev pub compatible : SelectionConstraints → ℕ × ℕ → Candidates → Candidates
  compatible k range cs = filter (protocols_meet range) (with_destination k cs)

  abbrev names_without : (WorkerCandidate → Bool) → Candidates → List Text
  names_without fits cs =
      map (λ (c : WorkerCandidate). c.worker.name) (filter (λ c. not (fits c)) cs)

  choose :
      SelectionConstraints
      → ℕ × ℕ
      → (all_candidates left : Candidates) → Result SelectionResult SelectionError
  unfolding metrics
  choose k range cs [] = err no_protocol_intersection
  choose k range cs (c ∷ rest) =
      let s = best k.mode c rest in
      ok (record {
        candidate = s;
        tag_filtered_count = length (tagged k cs);
        constraint_filtered_count = length (c ∷ rest);
        negotiated_protocol_version = min s.capabilities.protocol_max range.1;
        filtered_no_xcode = names_without (xcode_fits k.xcode) (tagged k cs);
        filtered_no_destination = names_without (destination_fits k.destination) (with_xcode k cs);
        selection_mode = k.mode;
        adaptive_metrics = metrics k.mode (sort_by (by_preference k.mode) (c ∷ rest)) s;
      })

  unfoldable pub select_worker :
      Candidates → SelectionConstraints → ℕ × ℕ → Result SelectionResult SelectionError
  unfolding choose
  select_worker cs k range =
      if is_empty cs
      then err no_workers_configured
      else if is_empty (tagged k cs)
      then err (no_tag_match k.required_tags)
      else if is_empty (with_xcode k cs)
      then err (no_xcode_match k.xcode)
      else if is_empty (with_destination k cs)
      then err (no_destination_match k.destination)
      else choose k range cs (compatible k range cs)
