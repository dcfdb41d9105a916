-- ===== src/Run/Resuming.antt =====
-- What a restarted host makes of a plan: src/run/resumption.rs.
use mathlib.Core.List.{append-nil, append_assoc}
use rch_mac.Base.{
  ℕ, suc, ◌+◌, ◌&&◌, Bool, true, false, not, Option, none, some, is_some, if◌then◌else◌, Text, List,
  [], ◌∷◌, ◌++◌, length, any, find?, map, ◌≡◌, ◌↔◌, refl, sym, ◌∙◌, arith, ok,
}
use rch_mac.Run.{PlanStep, RunPlan}
use rch_mac.Run.Resumption.{
  ResumptionState, ResumptionStepStatus, Scan, check_resumption_state, complete, is_fully_complete,
  needs_status_check, rejected, scan, steps_remaining, visit,
}

module _ (committed : Text → Bool) where
  -- A step that was to run and is not committed.
  abbrev pub pending : PlanStep → Bool
  pending s = not s.rejected && not (committed s.job_id)

  abbrev pub finished : PlanStep → Bool
  finished s = not s.rejected && committed s.job_id

  abbrev pub status_of : PlanStep → ResumptionStepStatus
  status_of s =
      if s.rejected then rejected else if committed s.job_id then complete else needs_status_check

  abbrev pub count : (PlanStep → Bool) → List PlanStep → ℕ
  count p [] = 0
  count p (s ∷ ss) = let rest = count p ss in if p s then suc rest else rest

  abbrev pub first_index : List PlanStep → Option ℕ
  first_index ss = elim (find? pending ss) [ none ↦ none | some s ↦ some s.index ]

  -- The loop, from any start.
  scan_lem :
      (ss : List PlanStep) (a : Scan)
      → let r = scan committed ss a in
        (r.statuses ≡ a.statuses ++ map (λ (s : PlanStep). (s.index, status_of s)) ss)
        × (r.complete_count ≡ count finished ss + a.complete_count)
        × (r.resume_from ≡ (if is_some a.resume_from then a.resume_from else first_index ss))
  unfolding scan visit
  scan_lem [] a = (sym (append-nil a.statuses), omega arith, ground arith)
  scan_lem (s ∷ ss) a =
      let (x, y, z) = scan_lem ss (visit committed s a) in
      let joined =
        append_assoc a.statuses ((s.index, status_of s) ∷ [])
          (map (λ (s : PlanStep). (s.index, status_of s)) ss) in
      (x ∙ (ground arith), ground arith, ground arith)

  abbrev start : Scan
  start = record { statuses = []; complete_count = 0; resume_from = none }

  any-find : (ss : List PlanStep) → is_some (find? pending ss) ≡ any pending ss
  any-find [] = refl
  any-find (s ∷ ss) = let rest = any-find ss in ground arith

  count-all :
      (ss : List PlanStep)
      → length ss ≡ count finished ss + count pending ss + count (λ (s : PlanStep). s.rejected) ss
  count-all [] = refl
  count-all (s ∷ ss) = let rest = count-all ss in ground arith

  -- A plan resumes at its first step that was to run and is not committed; every step is reported
  -- under its index with its status, and the committed ones are counted.
  pub check_resumption_state-first :
      (plan : RunPlan) (r : ResumptionState)
      → check_resumption_state committed (some plan) ≡ ok r
      → (r.resume_from ≡ first_index plan.steps)
        × (r.step_statuses ≡ map (λ (s : PlanStep). (s.index, status_of s)) plan.steps)
        × (r.complete_count ≡ count finished plan.steps)
        × ((is_fully_complete r ≡ true) ↔ (any pending plan.steps ≡ false))
  unfolding check_resumption_state is_fully_complete
  check_resumption_state-first plan r h =
      let (x, y, z) = scan_lem plan.steps start in
      let found = any-find plan.steps in
      (ground arith, ground arith, ground arith, (λ e. ground arith, λ e. ground arith))

  -- The steps that are said to remain are those that are pending and those that were rejected.
  steps_remaining-count :
      (plan : RunPlan) (r : ResumptionState)
      → check_resumption_state committed (some plan) ≡ ok r
      → steps_remaining r
        ≡ count pending plan.steps + count (λ (s : PlanStep). s.rejected) plan.steps
  unfolding steps_remaining check_resumption_state
  steps_remaining-count plan r h =
      let (x, y, z) = scan_lem plan.steps start in let all = count-all plan.steps in ground arith
