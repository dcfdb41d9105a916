-- ===== src/Run/Plan.antt =====
-- The plan that `build_with_classifier_results` of src/run/mod.rs makes.
use rch_mac.Base.{
  ℕ, zero, suc, ◌+◌, ◌==◌, Bool, some, Text, ok, ok-injective, List, [], ◌∷◌, length, get_elem?,
  is_empty, ◌≡◌, refl, sym, ◌∙◌, ap, arith, Bool-cases, inl, inr,
}
use rch_mac.Run.{
  Action, RunPlan, RunPlanBuilder, WorkerSelection, plan_step, plan_steps,
  build_with_classifier_results,
}

get_elem?-plan_steps :
    (job_ids : ℕ → Text) (start i : ℕ) (actions : List Action) (results : List (Bool × List Text))
    {a : Action} {r : Bool × List Text}
    → get_elem? actions i ≡ some a
    → get_elem? results i ≡ some r
    → get_elem? (plan_steps job_ids start actions results) i
      ≡ some (plan_step (start + i) (job_ids (start + i)) a r)
unfolding plan_steps
get_elem?-plan_steps j k i [] results h g = absurd (cc)
get_elem?-plan_steps j k i (x ∷ actions) [] h g = absurd (cc)
get_elem?-plan_steps j k zero (x ∷ actions) (y ∷ results) h g = ground arith
get_elem?-plan_steps j k (suc i) (x ∷ actions) (y ∷ results) {a} {r} h g =
    get_elem?-plan_steps j (k + 1) i actions results h g
    ∙ ap (λ n. some (plan_step n (j n) a r)) (omega arith)

length-plan_steps :
    (job_ids : ℕ → Text) (start : ℕ) (actions : List Action) (results : List (Bool × List Text))
    → length results ≡ length actions
    → length (plan_steps job_ids start actions results) ≡ length actions
unfolding plan_steps
length-plan_steps j k [] results h = refl
length-plan_steps j k (x ∷ actions) [] h = absurd (omega (arith, h))
length-plan_steps j k (x ∷ actions) (y ∷ results) h =
    omega (arith, length-plan_steps j (k + 1) actions results (omega (arith, h)))

-- A plan is built only when there is one verdict for each action; it has a step for each action, in
-- order, which carries its index, the job id of that index, and is rejected, with the reasons, exactly
-- when the verdict was.
build-steps :
    (now : ℕ) (job_ids : ℕ → Text) (b : RunPlanBuilder) (results : List (Bool × List Text))
    (w : WorkerSelection) {p : RunPlan}
    → build_with_classifier_results now job_ids b results w ≡ ok p
    → (length results ≡ length b.actions)
      × (length p.steps ≡ length b.actions)
      × ((i : ℕ) (a : Action) (r : Bool × List Text)
          → get_elem? b.actions i ≡ some a
          → get_elem? results i ≡ some r
          → get_elem? p.steps i ≡ some (plan_step i (job_ids i) a r))
unfolding build_with_classifier_results
build-steps now j b results w {p} h = elim (Bool-cases (is_empty b.actions)) [
  | inl e ↦ absurd (cc (rw (e, build_with_classifier_results) at h))
  | inr e ↦ elim (Bool-cases (length results == length b.actions)) [
    | inl f ↦
        let same : length results ≡ length b.actions = ground arith in
        let steps : plan_steps j 0 b.actions results ≡ p.steps =
          ap (λ (q : RunPlan). q.steps)
            (ok-injective (rw (e, f, build_with_classifier_results) at h)) in
        (
          same,
          ap length (sym steps) ∙ length-plan_steps j 0 b.actions results same,
          λ i a r k l.
              ap (λ q. get_elem? q i) (sym steps)
              ∙ (get_elem?-plan_steps j 0 i b.actions results k l
                  ∙ ap (λ n. some (plan_step n (j n) a r)) (omega arith)),
        )
    | inr f ↦ absurd (cc (rw (e, f, build_with_classifier_results) at h))
  ]
]
