-- ===== src/State/Run/Laws.antt =====
-- What holds of a run record over any history of operations (src/state/run_state.rs).
use mathlib.Core.Bool.{false≢true}
use rch_mac.Base.{
  ℕ, ◌+◌, ◌≤◌, ◌<◌, ◌≡◌, ◌⊎◌, refl, sym, ◌∙◌, true, Option, none, some, List, [], ◌∷◌, length,
  arith, inl, inr, if◌then◌else◌, Bool-cases, ltb,
}
use rch_mac.State.Counter.{u64_mod, next_seq}
use rch_mac.State.Run.{
  RunState, is_terminal, can_transition_to, RunStateData, LeaseInfo, Op, moves, steps, clears_step,
  leases, renews, clears_lease, resumes, transition, apply, run, set_current_step,
  clear_current_step, set_lease, mark_lease_renewed, clear_lease, mark_resumed, invalid_transition,
  renew,
}

-- The diagram of PLAN.md: QUEUED → RUNNING → a terminal state; a queued run may be dropped or fail.
infix 40 ◌⟶◌
pub data ◌⟶◌ : RunState → RunState → Type 0 where
  begin : RunState.queued ⟶ RunState.running
  drop_queued : RunState.queued ⟶ RunState.cancelled
  fail_queued : RunState.queued ⟶ RunState.failed
  finish : {t : RunState} → is_terminal t ≡ true → RunState.running ⟶ t

ruleset edges = (begin, drop_queued, fail_queued, finish)

can_transition_to-⟶ : (s t : RunState) → can_transition_to s t ≡ true → s ⟶ t
unfolding can_transition_to
can_transition_to-⟶ s t h = grind (arith, edges)

⟶-can_transition_to : {s t : RunState} → s ⟶ t → can_transition_to s t ≡ true
unfolding can_transition_to
⟶-can_transition_to begin = refl
⟶-can_transition_to drop_queued = refl
⟶-can_transition_to fail_queued = refl
⟶-can_transition_to (finish {t} h) = ground arith

-- A request is granted exactly along an edge of the diagram. Then the record is in the requested
-- state, without a current step if that state is terminal, and with the stamps of this call;
-- otherwise record and counter are as they were and the error names both states.
pub run_transition_cases :
    (t : RunState) (now c : ℕ) (d : RunStateData)
    → let o = transition t now c d in
      ((d.state ⟶ t)
        × (o.error ≡ none)
        × (o.run ≡ record d {
          state = t;
          updated_at = now;
          current_step = if is_terminal t then none else d.current_step;
          seq = (next_seq c).0;
        })
        × (o.counter ≡ (next_seq c).1))
      ⊎ ((¬ (d.state ⟶ t))
          × (o.error ≡ some (invalid_transition d.state t))
          × (o.run ≡ d)
          × (o.counter ≡ c))
unfolding transition
run_transition_cases t now c d = elim (Bool-cases (can_transition_to d.state t)) [
  | inl e ↦ inl (can_transition_to-⟶ d.state t e, ground arith, ground arith, ground arith)
  | inr e ↦ inr (
    (λ st. false≢true (sym e ∙ ⟶-can_transition_to st)),
    ground arith,
    ground arith,
    ground arith,
  )
]

apply_terminal :
    (op : Op) (now c : ℕ) (d : RunStateData)
    → is_terminal d.state ≡ true
    → (apply op now c d).run.state ≡ d.state
unfolding apply transition can_transition_to set_current_step clear_current_step set_lease
    mark_lease_renewed clear_lease mark_resumed
apply_terminal (moves t) now c d h = ground arith
apply_terminal (steps s) now c d h = refl
apply_terminal _ now c d h = refl

-- A terminal run is final: no history of operations changes its state.
run_run-terminal :
    (ops : List (Op × ℕ)) (c : ℕ) (d : RunStateData)
    → is_terminal d.state ≡ true
    → (run ops c d).0.state ≡ d.state
unfolding run
run_run-terminal [] c d h = refl
run_run-terminal ((op, now) ∷ ops) c d h =
    let o = apply op now c d in
    ground (arith, apply_terminal op now c d, run_run-terminal ops o.counter o.run)

-- How often a history asks to renew the lease.
abbrev pub renewals : List (Op × ℕ) → ℕ
renewals [] = 0
renewals ((renews, now) ∷ ops) = 1 + renewals ops
renewals ((_, now) ∷ ops) = renewals ops

-- The lease was renewed exactly if its count of renewals is not 0, and the count is at most `n`.
abbrev pub LeaseCounts : ℕ → Option LeaseInfo → Type 0
LeaseCounts n none = Unit {0}
LeaseCounts n (some l) = (l.renewed ≡ ltb 0 l.renewal_count) × (l.renewal_count ≤ n)

abbrev weight : Op → ℕ
weight renews = 1
weight _ = 0

LeaseCounts-renew :
    (n now : ℕ) (l : Option LeaseInfo)
    → n + 1 < 4294967296
    → LeaseCounts n l
    → LeaseCounts (n + 1) (renew now l)
unfolding renew
LeaseCounts-renew n now none h k = tt
LeaseCounts-renew n now (some l) h k = ground arith

LeaseCounts-mono : (n m : ℕ) (l : Option LeaseInfo) → n ≤ m → LeaseCounts n l → LeaseCounts m l
LeaseCounts-mono n m none h k = tt
LeaseCounts-mono n m (some l) h k = ground arith

apply_counts :
    (op : Op) (now c n : ℕ) (d : RunStateData)
    → n + weight op < 4294967296
    → LeaseCounts n d.lease
    → LeaseCounts (n + weight op) (apply op now c d).run.lease
unfolding apply transition set_current_step clear_current_step set_lease mark_lease_renewed
    clear_lease mark_resumed
apply_counts (moves t) now c n d h k = ground (arith, LeaseCounts-mono n (n + 0) d.lease)
apply_counts (steps s) now c n d h k = LeaseCounts-mono n (n + 0) d.lease (omega arith) k
apply_counts clears_step now c n d h k = LeaseCounts-mono n (n + 0) d.lease (omega arith) k
apply_counts (leases i t) now c n d h k = ground arith
apply_counts renews now c n d h k = LeaseCounts-renew n now d.lease h k
apply_counts clears_lease now c n d h k = tt
apply_counts resumes now c n d h k = LeaseCounts-mono n (n + 0) d.lease (omega arith) k

renewals_step :
    (op : Op) (now : ℕ) (ops : List (Op × ℕ))
    → renewals ((op, now) ∷ ops) ≡ weight op + renewals ops
renewals_step renews now ops = refl
renewals_step (moves t) now ops = omega arith
renewals_step _ now ops = omega arith

-- From a lease that is coherent for `n` renewals, and short of 2^32 renewals, a history leaves a
-- coherent one: `renewed` is set exactly if the count is positive, and the count is at most `n`
-- and the renewals asked for.
run-LeaseCounts :
    (ops : List (Op × ℕ)) (c n : ℕ) (d : RunStateData)
    → n + renewals ops < 4294967296
    → LeaseCounts n d.lease
    → LeaseCounts (n + renewals ops) (run ops c d).0.lease
unfolding run
run-LeaseCounts [] c n d h k = LeaseCounts-mono n (n + renewals []) d.lease (omega arith) k
run-LeaseCounts ((op, now) ∷ ops) c n d h k =
    let o = apply op now c d in
    let e = renewals_step op now ops in
    let k' : LeaseCounts (n + weight op) o.run.lease = apply_counts op now c n d (omega arith) k in
    LeaseCounts-mono (n + weight op + renewals ops) (n + renewals ((op, now) ∷ ops))
      (run ops o.counter o.run).0.lease (omega arith)
      (run-LeaseCounts ops o.counter (n + weight op) o.run (omega arith) k')

-- A granted operation draws a new number, larger than the record's, and leaves the run's identity.
apply_seq :
    (op : Op) (now c : ℕ) (d : RunStateData)
    → c + 1 < u64_mod
    → d.seq < c
    → let o = apply op now c d in
      (o.run.seq < o.counter)
      × (d.seq ≤ o.run.seq)
      × (o.counter ≤ c + 1)
      × (o.run.run_id ≡ d.run_id)
      × (o.run.created_at ≡ d.created_at)
unfolding apply transition next_seq set_current_step clear_current_step set_lease mark_lease_renewed
    clear_lease mark_resumed
apply_seq op now c d h s = ground arith

-- While the counter lasts, a history never moves the stamp of a run that is under the counter
-- back, and keeps it under the counter; the identity and the creation time of the run stay.
run_run_seq :
    (ops : List (Op × ℕ)) (c : ℕ) (d : RunStateData)
    → c + length ops < u64_mod
    → d.seq < c
    → let (e, c') = run ops c d in
      (e.seq < c') × (d.seq ≤ e.seq) × (e.run_id ≡ d.run_id) × (e.created_at ≡ d.created_at)
unfolding run
run_run_seq [] c d h s = ground arith
run_run_seq ((op, now) ∷ ops) c d h s =
    let o = apply op now c d in
    ground (arith, apply_seq op now c d, run_run_seq ops o.counter o.run)
