-- ===== src/Worker/Capacity.antt =====
-- The leases of a worker: how many are active, and whose ids are new.
use rch_mac.Base.{
  ℕ, suc, ◌+◌, ◌*◌, ◌%◌, ◌^◌, ◌≤◌, ◌<◌, leb, Bool, not, none, some, unwrap_or, Text, text, text_eq,
  text_eq_iff, ◌++◌, get, insert, get-insert, get-insert_self, count-insert, count-remove,
  count-retain, count-weaker, hex8, hex8-injective, Option-cases, Bool-cases, inl, inr, ◌≡◌, refl,
  sym, ◌∙◌, ap, subst, arith, ok,
}
use rch_mac.Worker.Protocol.{ReserveRequest, ReserveResponse}
use rch_mac.Worker.State.{
  Lease, MockState, is_expired, create_lease, generate_id, release_lease, is_lease_valid,
  active_lease_count, create_job_with_lease, schedule_transitions, append_job_log, set_job_state,
  process_transitions, add_source, cleanup_expired_leases,
}
use rch_mac.Worker.Handlers.{WorkerConfig, reserve, start, stop}
use rch_mac.Worker.Steps.{Step, Changes}
use rch_mac.Worker.Steps.Step.{
  reserved, released, started, processed, stopped, stored, swept, backstopped,
}
use rch_mac.Worker.Steps.Changes.{here, next}

Step-capacity :
    (config : WorkerConfig) (now : ℕ) {s t : MockState}
    → Step config now s t
    → active_lease_count now s ≤ config.max_concurrent_jobs
    → active_lease_count now t ≤ config.max_concurrent_jobs
unfolding active_lease_count create_lease generate_id release_lease add_source
    cleanup_expired_leases stop process_transitions start create_job_with_lease schedule_transitions
    append_job_log set_job_state
Step-capacity config now (reserved s ttl h) k =
    omega (arith, count-insert (λ (l : Lease). not (is_expired now l)) _ _ s.leases)
Step-capacity config now (released s id) k =
    omega (arith, count-remove (λ (l : Lease). not (is_expired now l)) id s.leases)
Step-capacity config now (started s req a b c) k = k
Step-capacity config now (processed s id) k = k
Step-capacity config now (stopped s id job h o) k = k
Step-capacity config now (stored s new content size h) k = k
Step-capacity config now (swept s) k =
    let p : Lease → Bool = λ l. not (is_expired now l) in omega (arith, count-retain p p s.leases)
Step-capacity config now (backstopped s id) k = k

pub Changes-capacity :
    (config : WorkerConfig) (now : ℕ) {s t : MockState}
    → Changes config now s t
    → active_lease_count now s ≤ config.max_concurrent_jobs
    → active_lease_count now t ≤ config.max_concurrent_jobs
Changes-capacity config now here k = k
Changes-capacity config now (next r st) k =
    Step-capacity config now st (Changes-capacity config now r k)

-- Leases only expire as time goes by.
pub active_lease_count_later :
    (now d : ℕ) (s : MockState) → active_lease_count (now + d) s ≤ active_lease_count now s
unfolding active_lease_count is_expired
active_lease_count_later now d s = count-weaker _ _ s.leases (λ l h. ground arith)

abbrev lease_name : ℕ → Text
lease_name n = text "lease" ++ text "-" ++ hex8 n

-- The leases carry names that the counter has given out.
abbrev pub Issued : MockState → Type 0
Issued s =
    (id : Text) (l : Lease)
    → get id s.leases ≡ some l
    → (n : ℕ) × (n ≤ s.id_counter) × (id ≡ lease_name n)

lease_name-injective : (m n : ℕ) → lease_name m ≡ lease_name n → m ≡ n
lease_name-injective m n h = hex8-injective m n (ground arith)

lease_name_new :
    (s : MockState) (n : ℕ) → Issued s → s.id_counter < n → get (lease_name n) s.leases ≡ none
lease_name_new s n h b = elim (Option-cases (get (lease_name n) s.leases)) [
  | inl e ↦ e
  | inr (l, e) ↦
      let (m, le, q) = h (lease_name n) l e in
      let same = lease_name-injective n m q in absurd (omega arith)
]

-- What `create_lease` does while the counter does not wrap around.
next_id :
    (s : MockState) → suc s.id_counter < 2 ^ 64 → (s.id_counter + 1) % 2 ^ 64 ≡ suc s.id_counter
next_id s b = omega arith

abbrev lease_for : ℕ → ℕ → MockState → Lease
lease_for now ttl s = record {
  lease_id = lease_name (suc s.id_counter);
  created_at = now;
  ttl = ttl * 1000;
}

create_lease_lem :
    (now ttl : ℕ) (s : MockState)
    → suc s.id_counter < 2 ^ 64
    → let l = lease_for now ttl s in
      create_lease now ttl s
      ≡ (record s { leases = insert l.lease_id l s.leases; id_counter = suc s.id_counter }, l)
unfolding create_lease generate_id
create_lease_lem now ttl s b = rw (next_id s b) refl

insert-Issued :
    (s : MockState) (l : Lease)
    → Issued s
    → Issued (record s {
      leases = insert (lease_name (suc s.id_counter)) l s.leases;
      id_counter = suc s.id_counter;
    })
insert-Issued s l h id k e =
    let name = lease_name (suc s.id_counter) in
    elim (Bool-cases (text_eq name id)) [
      | inl q ↦ (suc s.id_counter, omega arith, sym ((text_eq_iff name id).0 q))
      | inr q ↦
          let (n, le, same) = h id k (ground (arith, get-insert name id l s.leases)) in
          (n, omega arith, same)
    ]

abbrev created : ℕ → ℕ → MockState → MockState
created now ttl s =
    let l = lease_for now ttl s in
    record s { leases = insert l.lease_id l s.leases; id_counter = suc s.id_counter }

created-is_lease_valid :
    (now ttl d : ℕ) (s : MockState)
    → is_lease_valid (now + d) (lease_name (suc s.id_counter)) (created now ttl s)
      ≡ leb d (ttl * 1000)
unfolding is_lease_valid is_expired
created-is_lease_valid now ttl d s =
    let l = lease_for now ttl s in ground (arith, get-insert_self l.lease_id l s.leases)

-- A lease that is handed out has a new name, is valid for its time to live and no longer, and its
-- name is covered by the counter again; the counter may not wrap around.
reserve-fresh :
    (config : WorkerConfig) (now : ℕ) (req : ReserveRequest) (s : MockState) (r : ReserveResponse)
    → Issued s
    → suc s.id_counter < 2 ^ 64
    → (reserve config now req s).1 ≡ ok r
    → let s' = (reserve config now req s).0 in
      (get r.lease_id s.leases ≡ none)
      × (r.ttl_seconds ≡ unwrap_or req.ttl_seconds 1800)
      × ((d : ℕ) → is_lease_valid (now + d) r.lease_id s' ≡ leb d (r.ttl_seconds * 1000))
      × Issued s'
unfolding reserve
reserve-fresh config now req s r h b e =
    let ttl = unwrap_or req.ttl_seconds 1800 in
    let l = lease_for now ttl s in
    let made = create_lease_lem now ttl s b in
    let after : (reserve config now req s).0 ≡ (create_lease now ttl s).0 = ground arith in
    let answer : r ≡ record { lease_id = (create_lease now ttl s).1.lease_id; ttl_seconds = ttl } =
      ground arith in
    let state : (reserve config now req s).0 ≡ created now ttl s = after ∙ ap (λ p. p.0) made in
    let name : r.lease_id ≡ l.lease_id =
      ap (λ (x : ReserveResponse). x.lease_id) answer ∙ ap (λ p. p.1.lease_id) made in
    let time : r.ttl_seconds ≡ ttl = ap (λ (x : ReserveResponse). x.ttl_seconds) answer in
    (
      ap (λ i. get i s.leases) name ∙ lease_name_new s (suc s.id_counter) h (omega arith),
      time,
      λ d.
          ap (is_lease_valid (now + d) r.lease_id) state
          ∙ ap (λ i. is_lease_valid (now + d) i (created now ttl s)) name
          ∙ created-is_lease_valid now ttl d s
          ∙ ap (λ t. leb d (t * 1000)) (sym time),
      subst Issued (sym state) (insert-Issued s l h),
    )
