-- ===== src/Cancel/Laws.antt =====
-- The counts and the tracking of the cancellations of src/cancel/mod.rs.
use mathlib.Core.List.{append-nil, append_assoc}
use mathlib.Core.Option.{some-injective}
use rch_mac.Base.{
  ℕ, ◌+◌, Bool, true, false, ◌&&◌, not, Option, none, some, if◌then◌else◌, Text, text_eq,
  text_eq_iff, contains, contains_iff, List, [], ◌∷◌, ◌++◌, map, length, filter, mem-filter_iff,
  Mem, ◌≡◌, ◌↔◌, refl, sym, ◌∙◌, ap, subst, arith, Bool-cases, inl, inr,
}
use rch_mac.State.Job.{JobState, JobStateData, is_terminal}
use rch_mac.State.Job as Job
use rch_mac.Signal.{SignalState, unregister_job}
use rch_mac.Cancel.{
  CancelReason, JobCancellation, RunCancellation, Rpc, new, add, answer, unregister, cancel_job,
  cancel_each, cancel_run, cancel_collect, cancel_all_tracked, update_job_state_cancelled,
  all_succeeded,
}

-- Cancelling a job that is not at an end gives the state cancelled, and a job at an end stays; there is
-- no error in either case.
update_job_state_cancelled-terminal :
    (now c : ℕ) (d : JobStateData)
    → let o = update_job_state_cancelled now c d in
      (o.error ≡ none)
      × (is_terminal o.job.state ≡ true)
      × ((is_terminal d.state ≡ true) → o.job ≡ d)
      × ((is_terminal d.state ≡ false) → o.job.state ≡ JobState.cancelled)
unfolding update_job_state_cancelled Job.apply Job.transition Job.target Job.can_transition_to
update_job_state_cancelled-terminal now c d =
    (ground arith, ground arith, ground arith, ground arith)

abbrev pub count : (JobCancellation → Bool) → List JobCancellation → ℕ
count p l = length (filter p l)

-- The counters count the results.
pub record Counted (c : RunCancellation) : Type 0 where
  pub terminal :
      c.already_terminal_count ≡ count (λ (r : JobCancellation). r.already_terminal) c.jobs
  pub cancelled :
      c.cancelled_count
      ≡ count (λ (r : JobCancellation). not r.already_terminal && r.rpc_success) c.jobs
  pub failed :
      c.failed_count
      ≡ count (λ (r : JobCancellation). not r.already_terminal && not r.rpc_success) c.jobs

count-append :
    (p : JobCancellation → Bool) (l : List JobCancellation) (r : JobCancellation)
    → count p (l ++ (r ∷ [])) ≡ count p l + (if p r then 1 else 0)
count-append p [] r = ground arith
count-append p (x ∷ l) r = let rest = count-append p l r in ground arith

add-Counted : (r : JobCancellation) (c : RunCancellation) → Counted c → Counted (add r c)
unfolding add
add-Counted r c h =
    let a = h.terminal in
    let b = h.cancelled in
    let d = h.failed in
    let x = count-append (λ (r : JobCancellation). r.already_terminal) c.jobs r in
    let y =
      count-append (λ (r : JobCancellation). not r.already_terminal && r.rpc_success) c.jobs r in
    let z =
      count-append (λ (r : JobCancellation). not r.already_terminal && not r.rpc_success) c.jobs
        r in
    record { terminal = ground arith; cancelled = ground arith; failed = ground arith }

cancel_each-Counted :
    (rpc : Option Rpc) (reason : CancelReason) (js : List Text) (s : Option SignalState)
    (c : RunCancellation)
    → Counted c
    → Counted (cancel_each rpc reason js s c).1
      × ((cancel_each rpc reason js s c).1.jobs ≡ c.jobs ++ map (λ j. answer rpc j reason) js)
unfolding cancel_each cancel_job
cancel_each-Counted rpc reason [] s c h = (h, sym (append-nil c.jobs))
cancel_each-Counted rpc reason (j ∷ js) s c h =
    let r = answer rpc j reason in
    let (counted, jobs) =
      cancel_each-Counted rpc reason js (unregister j s) (add r c) (add-Counted r c h) in
    (
      counted,
      jobs
          ∙ (ap (λ l. l ++ map (λ j. answer rpc j reason) js) (add-jobs r c)
              ∙ append_assoc c.jobs (r ∷ []) _),
    )
  where
    add-jobs : (r : JobCancellation) (c : RunCancellation) → (add r c).jobs ≡ c.jobs ++ (r ∷ [])
    add-jobs r c = unfold add in ground arith

-- Cancelling a run asks for each of its jobs, in order, and counts the answers by their kind; all have
-- succeeded exactly when none of them failed.
cancel_run-Counted :
    (rpc : Option Rpc) (run_id : Text) (js : List Text) (reason : CancelReason)
    (s : Option SignalState)
    → let c = (cancel_run rpc run_id js reason s).1 in
      Counted c
      × (c.jobs ≡ map (λ j. answer rpc j reason) js)
      × ((all_succeeded c ≡ true) ↔ (
          count (λ (r : JobCancellation). not r.already_terminal && not r.rpc_success) c.jobs ≡ 0))
unfolding cancel_run new all_succeeded
cancel_run-Counted rpc run_id js reason s =
    let (c, jobs) =
      cancel_each-Counted rpc reason js s (new run_id)
        (record { terminal = refl; cancelled = refl; failed = refl }) in
    let f = c.failed in (c, jobs, ((λ h. ground arith), (λ h. ground arith)))

unregister_each : List Text → SignalState → SignalState
unregister_each [] s = s
unregister_each (j ∷ js) s = unregister_each js (unregister_job j s)

collect_state :
    (rpc : Option Rpc) (reason : CancelReason) (js : List Text) (s : SignalState)
    → cancel_collect rpc reason js (some s)
      ≡ (some (unregister_each js s), map (λ j. answer rpc j reason) js)
unfolding cancel_collect cancel_job unregister unregister_each
collect_state rpc reason [] s = refl
collect_state rpc reason (j ∷ js) s =
    let rest = collect_state rpc reason js (unregister_job j s) in
    ap (λ (t : Option SignalState × List JobCancellation). (t.0, answer rpc j reason ∷ t.1)) rest

unregister_each-Mem :
    (js : List Text) (s : SignalState) (i : Text)
    → Mem i (unregister_each js s).running_jobs
    → Mem i s.running_jobs × (contains js i ≡ false)
unfolding unregister_each unregister_job contains
unregister_each-Mem [] s i m = (m, refl)
unregister_each-Mem (j ∷ js) s i m =
    let (n, away) = unregister_each-Mem js (unregister_job j s) i m in
    let (k, other) = (mem-filter_iff (λ x. not (text_eq x j)) s.running_jobs i).0 n in
    let e = text_eq_iff i j in
    let f = text_eq_iff j i in
    (
      k,
      elim (Bool-cases (text_eq j i)) [
        | inl h ↦ absurd (cc (other, e.1 (sym (f.0 h))))
        | inr h ↦ ground arith
      ],
    )

-- Cancelling all that is tracked asks for every tracked job, in order, and no job is tracked after it.
cancel_all_tracked-empty :
    (rpc : Option Rpc) (reason : CancelReason) (s : SignalState)
    → let (after, answers) = cancel_all_tracked rpc reason (some s) in
      (answers ≡ map (λ j. answer rpc j reason) s.running_jobs)
      × ((t : SignalState) → after ≡ some t → (i : Text) → ¬ Mem i t.running_jobs)
unfolding cancel_all_tracked
cancel_all_tracked-empty rpc reason s =
    let e = collect_state rpc reason s.running_jobs s in
    (
      ap (λ w. w.1) e,
      λ t h i m.
          let same : unregister_each s.running_jobs s ≡ t =
            some-injective _ _ (sym (ap (λ w. w.0) e) ∙ h) in
          let (k, away) =
            unregister_each-Mem s.running_jobs s i
              (subst (λ w. Mem i w.running_jobs) (sym same) m) in
          absurd (cc ((contains_iff s.running_jobs i).1 k, away)),
    )
