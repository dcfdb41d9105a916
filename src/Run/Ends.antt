-- ===== src/Run/Ends.antt =====
-- How the loop of `execute_run` of src/pipeline.rs comes to an end.
use rch_mac.Base.{
  ℕ, zero, suc, ◌+◌, ◌-◌, ◌≤◌, ◌<◌, Bool, true, false, not, Option, none, some, List, [], ◌∷◌, ◌++◌,
  length, length-append, get_elem?, ◌≡◌, refl, arith, if◌then◌else◌,
}
use rch_mac.Run.{
  PlanStep, RunPlan, StepResult, Status, RunExecution, Ending, finished, timed_out, new, next_step,
  record_result, update_state, should_continue, execute_steps, step_result, is_failure,
}
use rch_mac.Run.Laws.{last?-append}

get_elem?-bound : (l : List PlanStep) (i : ℕ) (s : PlanStep) → get_elem? l i ≡ some s → i < length l
get_elem?-bound [] i s h = absurd (cc)
get_elem?-bound (x ∷ l) zero s h = omega arith
get_elem?-bound (x ∷ l) (suc i) s h = omega (arith, get_elem?-bound l i s h)

get_elem?-past : (l : List PlanStep) (i : ℕ) → length l ≤ i → get_elem? l i ≡ none
get_elem?-past [] i h = refl
get_elem?-past (x ∷ l) zero h = absurd (omega (arith, h))
get_elem?-past (x ∷ l) (suc i) h = get_elem?-past l i (omega (arith, h))

by_tests :
    (rejected going timeout : Bool) (rest end cut : Option Ending)
    → ((x : Ending) × (rest ≡ some x))
    → ((x : Ending) × (end ≡ some x))
    → ((x : Ending) × (cut ≡ some x))
    → (x : Ending) × ((if rejected
          then rest
          else if not going
          then end
          else if timeout
          then cut
          else rest)
        ≡ some x)
by_tests true g t rest end cut r e c = r
by_tests false false t rest end cut r e c = e
by_tests false true true rest end cut r e c = c
by_tests false true false rest end cut r e c = r

module _ (execute_step : PlanStep → Status) (late : ℕ → Bool) where
  -- One turn, by what is the next step.
  turn_total :
      (n : ℕ) (e : RunExecution)
      → ((s : PlanStep)
          → next_step e ≡ some s
          → (x : Ending) × (execute_steps execute_step late n
                (record_result (step_result execute_step s) e)
              ≡ some x))
      → (o : Option PlanStep) → next_step e ≡ o
      → (x : Ending) × (execute_steps execute_step late (suc n) e ≡ some x)
  unfolding execute_steps
  turn_total n e ih none i = rw (i, execute_steps) (_, refl)
  turn_total n e ih (some s) i =
      rw (i, execute_steps)
        (by_tests s.rejected (should_continue (record_result (step_result execute_step s) e))
          (late (length (record_result (step_result execute_step s) e).results)) _ _ _ (ih s i)
          (finished (record_result (step_result execute_step s) e), refl)
          (timed_out (record_result (step_result execute_step s) e), refl))

  total_from :
      (n : ℕ) (e : RunExecution)
      → length e.plan.steps - length e.results < n
      → (x : Ending) × (execute_steps execute_step late n e ≡ some x)
  unfolding record_result update_state next_step
  total_from zero e h = absurd (omega (arith, h))
  total_from (suc n) e h =
      turn_total n e
        (λ s i.
          let r = step_result execute_step s in
          total_from n (record_result r e) (
            omega (
              arith,
              h,
              get_elem?-bound e.plan.steps (length e.results) s i,
              length-append e.results (r ∷ []),
            )))
        (next_step e) refl

  -- With fuel for each step and one more turn the loop ends, whether the overall timeout comes or not.
  pub execute_steps-total :
      (p : RunPlan) (n : ℕ)
      → length p.steps < n
      → (x : Ending) × (execute_steps execute_step late n (new p) ≡ some x)
  unfolding new
  execute_steps-total p n h = total_from n (new p) (omega (arith, h))

-- After a failure that is passed over, `should_continue` says yes even when it was the last step and
-- no step is left.
should_continue-past_end :
    (e : RunExecution) (r : StepResult)
    → e.plan.continue_on_failure ≡ true
    → is_failure r.status ≡ true
    → length e.plan.steps ≡ length e.results + 1
    → (should_continue (record_result r e) ≡ true) × (next_step (record_result r e) ≡ none)
unfolding should_continue record_result update_state next_step
should_continue-past_end e r go f l =
    let last = last?-append e.results r in
    (
      ground arith,
      get_elem?-past e.plan.steps (length (e.results ++ (r ∷ [])))
          (omega (arith, length-append e.results (r ∷ []))),
    )
