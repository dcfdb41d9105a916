-- ===== src/State/Job/Laws.antt =====
-- What holds of a job record over any history of operations (src/state/job_state.rs).
use mathlib.Core.Bool.{false≢true}
use rch_mac.Base.{
  ℕ, ◌+◌, ◌≤◌, ◌<◌, ◌≡◌, ◌⊎◌, refl, sym, Bool, true, false, none, some, is_some, List, [], ◌∷◌,
  length, arith, ◌∙◌, inl, inr, if◌then◌else◌, Bool-cases,
}
use rch_mac.State.Counter.{u64_mod, next_seq}
use rch_mac.State.Job.{
  JobState, is_terminal, can_transition_to, JobStateData, Op, target, transition, apply, run,
  invalid_transition,
}

-- A job that a worker may still be executing.
abbrev pub is_live : JobState → Bool
is_live JobState.running = true
is_live JobState.cancel_requested = true
is_live _ = false

-- The diagram of PLAN.md: QUEUED → RUNNING → a terminal state, with CANCEL_REQUESTED between.
infix 40 ◌⟶◌
pub data ◌⟶◌ : JobState → JobState → Type 0 where
  begin : JobState.queued ⟶ JobState.running
  drop_queued : JobState.queued ⟶ JobState.cancelled
  fail_queued : JobState.queued ⟶ JobState.failed
  ask : JobState.running ⟶ JobState.cancel_requested
  finish : {s t : JobState} → is_live s ≡ true → is_terminal t ≡ true → s ⟶ t

ruleset edges = (begin, drop_queued, fail_queued, ask, finish)

can_transition_to-⟶ : (s t : JobState) → can_transition_to s t ≡ true → s ⟶ t
unfolding can_transition_to
can_transition_to-⟶ s t h = grind (arith, edges)

⟶-can_transition_to : {s t : JobState} → s ⟶ t → can_transition_to s t ≡ true
unfolding can_transition_to
⟶-can_transition_to begin = refl
⟶-can_transition_to drop_queued = refl
⟶-can_transition_to fail_queued = refl
⟶-can_transition_to ask = refl
⟶-can_transition_to (finish {s} {t} h k) = ground arith

-- A request is granted exactly along an edge of the diagram; then the record is in the requested
-- state with the stamps of this call, and otherwise record and counter are as they were and the
-- error names both states.
pub job_transition_cases :
    (t : JobState) (now c : ℕ) (d : JobStateData)
    → let o = transition t now c d in
      ((d.state ⟶ t)
        × (o.error ≡ none)
        × (o.job ≡ record d { state = t; updated_at = now; seq = (next_seq c).0 })
        × (o.counter ≡ (next_seq c).1))
      ⊎ ((¬ (d.state ⟶ t))
          × (o.error ≡ some (invalid_transition d.state t))
          × (o.job ≡ d)
          × (o.counter ≡ c))
unfolding transition
job_transition_cases t now c d = elim (Bool-cases (can_transition_to d.state t)) [
  | inl e ↦ inl (can_transition_to-⟶ d.state t e, ground arith, ground arith, ground arith)
  | inr e ↦ inr (
    (λ st. false≢true (sym e ∙ ⟶-can_transition_to st)),
    ground arith,
    ground arith,
    ground arith,
  )
]

-- A terminal state has no edge out of it.
terminal_stuck :
    (t : JobState) (now c : ℕ) (d : JobStateData)
    → is_terminal d.state ≡ true
    → transition t now c d
      ≡ record { error = some (invalid_transition d.state t); job = d; counter = c }
unfolding transition can_transition_to
terminal_stuck t now c d h = ground arith

-- A terminal job is final: whatever operations follow, record and counter stay as they are.
job_run-terminal :
    (ops : List (Op × ℕ)) (c : ℕ) (d : JobStateData)
    → is_terminal d.state ≡ true
    → run ops c d ≡ (d, c)
unfolding run apply
job_run-terminal [] c d h = refl
job_run-terminal ((op, now) ∷ ops) c d h =
    rw (terminal_stuck (target op) now c d h) (job_run-terminal ops c d h)

-- The operations of a history that are granted.
pub granted : List (Op × ℕ) → ℕ → JobStateData → List Op
granted [] c d = []
granted ((op, now) ∷ ops) c d =
    let o = apply op now c d in
    let rest = granted ops o.counter o.job in if is_some o.error then rest else op ∷ rest

abbrev rank : JobState → ℕ
rank JobState.queued = 3
rank JobState.running = 2
rank JobState.cancel_requested = 1
rank _ = 0

rank_falls :
    (op : Op) (now c : ℕ) (d : JobStateData)
    → let o = apply op now c d in
      (o.job.state ≡ d.state) × (is_some o.error ≡ true)
      ⊎ (rank o.job.state < rank d.state) × (is_some o.error ≡ false)
unfolding apply transition can_transition_to
rank_falls op now c d = ground arith

-- The granted operations of a history are at most 3 for a queued job, 2 for a running one, 1
-- after a request to cancel, and 0 at its end.
granted-bounded :
    (ops : List (Op × ℕ)) (c : ℕ) (d : JobStateData) → length (granted ops c d) ≤ rank d.state
unfolding granted
granted-bounded [] c d = omega arith
granted-bounded ((op, now) ∷ ops) c d =
    let o = apply op now c d in
    ground (arith, rank_falls op now c d, granted-bounded ops o.counter o.job)

-- What identifies a job.
abbrev pub SameIdentity : JobStateData → JobStateData → Type 0
SameIdentity d e =
    (e.run_id ≡ d.run_id)
    × (e.job_id ≡ d.job_id)
    × (e.job_key ≡ d.job_key)
    × (e.created_at ≡ d.created_at)
    × (e.schema_version ≡ d.schema_version)
    × (e.schema_id ≡ d.schema_id)

apply-SameIdentity :
    (op : Op) (now c : ℕ) (d : JobStateData) → SameIdentity d (apply op now c d).job
unfolding apply transition
apply-SameIdentity op now c d = ground arith

run-SameIdentity : (ops : List (Op × ℕ)) (c : ℕ) (d : JobStateData) → SameIdentity d (run ops c d).0
unfolding run
run-SameIdentity [] c d = (refl, refl, refl, refl, refl, refl)
run-SameIdentity ((op, now) ∷ ops) c d =
    let o = apply op now c d in
    ground (arith, apply-SameIdentity op now c d, run-SameIdentity ops o.counter o.job)

-- The stamp is older than the counter.
abbrev pub IsStamped : ℕ → JobStateData → Type 0
IsStamped c d = d.seq < c

apply_seq :
    (op : Op) (now c : ℕ) (d : JobStateData)
    → c + 1 < u64_mod
    → IsStamped c d
    → let o = apply op now c d in
      IsStamped o.counter o.job
      × (o.counter ≤ c + 1)
      × (d.seq ≤ o.job.seq)
      × (is_some o.error ≡ false → d.seq < o.job.seq)
unfolding apply transition next_seq
apply_seq op now c d h s = ground arith

-- While the counter lasts, the stamp of a job that is under the counter stays under it, and grows
-- by at least one with each operation of a history that is granted.
job_run_seq :
    (ops : List (Op × ℕ)) (c : ℕ) (d : JobStateData)
    → c + length ops < u64_mod
    → IsStamped c d
    → IsStamped (run ops c d).1 (run ops c d).0
      × (d.seq + length (granted ops c d) ≤ (run ops c d).0.seq)
unfolding run granted
job_run_seq [] c d h s = ground arith
job_run_seq ((op, now) ∷ ops) c d h s =
    let o = apply op now c d in
    ground (arith, apply_seq op now c d, job_run_seq ops o.counter o.job)
