-- ===== src/Run/Laws.antt =====
-- The loop of `execute_run` of src/pipeline.rs over the executions of src/run/mod.rs.
use mathlib.Core.List.{append_assoc}
use rch_mac.Base.{
  ℕ, zero, suc, ◌+◌, ◌<◌, ltb, Bool, true, false, ◌&&◌, ◌||◌, not, Option, none, some, List, [],
  ◌∷◌, ◌++◌, length, length-append, any, last?, get_elem?, is_empty, ◌≡◌, refl, sym, ◌∙◌, ap, arith,
  Bool-cases, if◌then◌else◌, inl, inr,
}
use rch_mac.Run.{
  PlanStep, RunPlan, StepResult, ExecutionState, Status, RunExecution, Ending, finished, timed_out,
  new, next_step, record_result, update_state, should_continue, execute_steps, step_result,
  counts_as_failure, is_failure,
}
use rch_mac.Run.Spec.{expected, verdict, outcome}

get_elem?-append :
    (done : List PlanStep) (s : PlanStep) (todo : List PlanStep)
    → get_elem? (done ++ (s ∷ todo)) (length done) ≡ some s
get_elem?-append [] s todo = refl
get_elem?-append (d ∷ done) s todo = get_elem?-append done s todo

get_elem?-end : (l : List PlanStep) → get_elem? (l ++ []) (length l) ≡ none
get_elem?-end [] = refl
get_elem?-end (d ∷ l) = get_elem?-end l

pub last?-append : (rs : List StepResult) (r : StepResult) → last? (rs ++ (r ∷ [])) ≡ some r
last?-append [] r = refl
last?-append (x ∷ []) r = refl
last?-append (x ∷ y ∷ rs) r = last?-append (y ∷ rs) r

any-append :
    (p : StepResult → Bool) (rs qs : List StepResult) → any p (rs ++ qs) ≡ any p rs || any p qs
any-append p [] qs = refl
any-append p (r ∷ rs) qs = let rest = any-append p rs qs in ground arith

-- The state that `update_state` gives to the results `rs`.
judged : RunPlan → List StepResult → RunExecution
unfolding update_state
judged p rs = update_state (record { plan = p; results = rs; state = ExecutionState.pending })

should_continue-judged :
    (p : RunPlan) (rs : List StepResult) (r : StepResult)
    → should_continue (judged p (rs ++ (r ∷ []))) ≡ (
        if is_failure r.status
        then p.continue_on_failure
        else ltb (length (rs ++ (r ∷ []))) (length p.steps))
unfolding should_continue judged update_state
should_continue-judged p rs r = let e = last?-append rs r in ground arith

module _ (execute_step : PlanStep → Status) (late : ℕ → Bool) (p : RunPlan) where
  abbrev run_from : ℕ → List StepResult → ExecutionState → Option Ending
  run_from n rs st =
      execute_steps execute_step late n (record { plan = p; results = rs; state = st })

  -- One turn of the loop.
  turn :
      (n : ℕ) (rs : List StepResult) (st : ExecutionState) (s : PlanStep)
      → get_elem? p.steps (length rs) ≡ some s
      → run_from (suc n) rs st ≡ (
          let e = judged p (rs ++ (step_result execute_step s ∷ [])) in
          let rest = execute_steps execute_step late n e in
          if s.rejected
          then rest
          else if not (should_continue e)
          then some (finished e)
          else if late (length e.results)
          then some (timed_out e)
          else rest)
  unfolding execute_steps next_step record_result judged update_state
  turn n rs st s h = rw (h, execute_steps, next_step) refl

  stop :
      (n : ℕ) (rs : List StepResult) (st : ExecutionState)
      → get_elem? p.steps (length rs) ≡ none
      → run_from (suc n) rs st ≡ some (finished (record { plan = p; results = rs; state = st }))
  unfolding execute_steps next_step
  stop n rs st h = ground arith

  abbrev go : Bool
  go = p.continue_on_failure

  -- What the loop is to end with, from the results `rs` on with `todo` left.
  abbrev settled : List StepResult → ExecutionState → List PlanStep → RunExecution
  settled rs st [] = record { plan = p; results = rs; state = st }
  settled rs st (s ∷ todo) = judged p (rs ++ expected execute_step go (s ∷ todo))

  settled-judged :
      (rs : List StepResult) (r : StepResult) (todo : List PlanStep)
      → settled (rs ++ (r ∷ [])) (judged p (rs ++ (r ∷ []))).state todo
        ≡ judged p (rs ++ (r ∷ expected execute_step go todo))
  unfolding judged update_state
  settled-judged rs r [] = refl
  settled-judged rs r (s ∷ todo) =
      ap (judged p) (append_assoc rs (r ∷ []) (expected execute_step go (s ∷ todo)))

  -- Whether the loop stops after a step agrees with whether the results that are expected end there.
  expected-cons :
      (rs : List StepResult) (s : PlanStep) (todo : List PlanStep)
      → length rs + length (s ∷ todo) ≡ length p.steps
      → expected execute_step go (s ∷ todo) ≡ (
          if not s.rejected
            && not (should_continue (judged p (rs ++ (step_result execute_step s ∷ []))))
          then step_result execute_step s ∷ []
          else step_result execute_step s ∷ expected execute_step go todo)
  expected-cons rs s [] h = ground arith
  expected-cons rs s (t ∷ todo) h =
      let c = should_continue-judged p rs (step_result execute_step s) in
      let l = length-append rs (step_result execute_step s ∷ []) in
      elim (Bool-cases s.rejected) [ inl e ↦ ground arith | inr e ↦ ground arith ]

  by_tests :
      (ends : List StepResult → Option Ending) (rejected going timeout : Bool)
      (rest end cut : Option Ending) (short long : List StepResult)
      → timeout ≡ false
      → end ≡ ends short
      → rest ≡ ends long
      → (if rejected then rest else if not going then end else if timeout then cut else rest)
        ≡ ends (if not rejected && not going then short else long)
  by_tests f true true t rest end cut short long h e r = r
  by_tests f true false t rest end cut short long h e r = r
  by_tests f false true t rest end cut short long h e r = rw h r
  by_tests f false false t rest end cut short long h e r = e

  -- What one turn makes of what the rest of the loop ends with.
  turn_settled :
      ((n : ℕ) → late n ≡ false)
      → (n : ℕ) (rs : List StepResult) (st : ExecutionState) (s : PlanStep) (todo : List PlanStep)
      → get_elem? p.steps (length rs) ≡ some s
      → length rs + length (s ∷ todo) ≡ length p.steps
      → execute_steps execute_step late n (judged p (rs ++ (step_result execute_step s ∷ [])))
        ≡ some (
            finished
              (judged p (rs ++ (step_result execute_step s ∷ expected execute_step go todo))))
      → run_from (suc n) rs st ≡ some (finished (settled rs st (s ∷ todo)))
  turn_settled t n rs st s todo h l ih =
      let e = judged p (rs ++ (step_result execute_step s ∷ [])) in
      let ends : List StepResult → Option Ending = λ q. some (finished (judged p (rs ++ q))) in
      turn n rs st s h
      ∙ (by_tests ends s.rejected (should_continue e) (late (length e.results)) _ _ _ _ _
            (t (length e.results)) refl ih
          ∙ ap ends (sym (expected-cons rs s todo l)))

  -- The loop ends as it is to, when the overall timeout does not come.
  loop :
      ((n : ℕ) → late n ≡ false)
      → (done todo : List PlanStep) (rs : List StepResult) (st : ExecutionState) (n : ℕ)
      → p.steps ≡ done ++ todo
      → length rs ≡ length done
      → length todo < n
      → run_from n rs st ≡ some (finished (settled rs st todo))
  unfolding execute_steps judged
  loop t done [] rs st zero e l h = absurd (omega (arith, h))
  loop t done (s ∷ todo) rs st zero e l h = absurd (omega (arith, h))
  loop t done [] rs st (suc n) e l h =
      stop n rs st
        (ap (get_elem? p.steps) l ∙ (ap (λ w. get_elem? w (length done)) e ∙ get_elem?-end done))
  loop t done (s ∷ todo) rs st (suc n) e l h =
      let r = step_result execute_step s in
      let ih =
        loop t (done ++ (s ∷ [])) todo (rs ++ (r ∷ [])) (judged p (rs ++ (r ∷ []))).state n
          (e ∙ sym (append_assoc done (s ∷ []) todo))
          (omega (arith, length-append rs (r ∷ []), length-append done (s ∷ [])))
          (omega (arith, h)) in
      turn_settled t n rs st s todo
        (ap (get_elem? p.steps) l
          ∙ (ap (λ w. get_elem? w (length done)) e ∙ get_elem?-append done s todo))
        (omega (arith, length-append done (s ∷ todo), ap length e))
        (ih ∙ ap (λ w. some (finished w)) (settled-judged rs r todo))

length-expected_go :
    (execute_step : PlanStep → Status) (steps : List PlanStep)
    → length (expected execute_step true steps) ≡ length steps
length-expected_go f [] = refl
length-expected_go f (s ∷ steps) = let rest = length-expected_go f steps in ground arith

length-expected_quiet :
    (execute_step : PlanStep → Status) (go : Bool) (steps : List PlanStep)
    → any counts_as_failure (expected execute_step go steps) ≡ false
    → length (expected execute_step go steps) ≡ length steps
length-expected_quiet f go [] h = refl
length-expected_quiet f go (s ∷ steps) h = ground (arith, length-expected_quiet f go steps)

length-expected :
    (execute_step : PlanStep → Status) (go : Bool) (steps : List PlanStep)
    → any counts_as_failure (expected execute_step go steps) && not go ≡ false
    → length (expected execute_step go steps) ≡ length steps
length-expected f true steps h = length-expected_go f steps
length-expected f false steps h = length-expected_quiet f false steps (ground arith)

verdict-judged :
    (execute_step : PlanStep → Status) (p : RunPlan)
    → is_empty p.steps ≡ false
    → (judged p (expected execute_step p.continue_on_failure p.steps)).state
      ≡ verdict execute_step p
unfolding judged update_state
verdict-judged f p c = let a = length-expected f p.continue_on_failure p.steps in ground arith

settled-outcome :
    (execute_step : PlanStep → Status) (late : ℕ → Bool) (p : RunPlan) (l : List PlanStep)
    → p.steps ≡ l
    → settled execute_step late p [] ExecutionState.pending l ≡ outcome execute_step p
unfolding judged update_state
settled-outcome f late p [] h = rw h refl
settled-outcome f late p (s ∷ ss) h =
    let results = expected f p.continue_on_failure p.steps in
    ap (λ l. judged p (expected f p.continue_on_failure l)) (sym h)
    ∙ ap (λ st. record { plan = p; results = results; state = st })
        (verdict-judged f p (ap is_empty h))

-- With no overall timeout, and fuel for each step and one more turn, the loop ends, and with the
-- results and the state that the plan and the statuses of its steps make one expect.
pub execute_steps-outcome :
    (execute_step : PlanStep → Status) (late : ℕ → Bool) (p : RunPlan) (n : ℕ)
    → ((i : ℕ) → late i ≡ false)
    → length p.steps < n
    → execute_steps execute_step late n (new p) ≡ some (finished (outcome execute_step p))
unfolding new
execute_steps-outcome f late p n t h =
    loop f late p t [] p.steps [] ExecutionState.pending n refl refl h
    ∙ ap (λ w. some (finished w)) (settled-outcome f late p p.steps refl)
