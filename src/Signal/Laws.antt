-- ===== src/Signal/Laws.antt =====
-- What the signals and the jobs of a run leave in the state of src/signal/mod.rs.
use rch_mac.Base.{
  ℕ, ◌+◌, ◌%◌, leb, Bool, true, false, not, ◌||◌, ◌&&◌, Text, text_eq, text_eq_iff, contains,
  contains_iff, List, [], ◌∷◌, ◌++◌, Mem, ◌≡◌, ◌↔◌, inl, inr, refl, sym, ap, filter, ◌∙◌, arith,
  Bool-cases,
}
use rch_mac.Signal.{
  SignalState, initiate_cancellation, immediate_exit, Event, signal, started, finished,
  handle_signal, fetch_add, register_job, unregister_job, with_grace_period, handle, handle_all,
}

-- The number of signals, `n` at the start.
abbrev pub signals : ℕ → List Event → ℕ
signals n [] = n
signals n (signal ∷ es) = signals (n + 1) es
signals n (started j ∷ es) = signals n es
signals n (finished j ∷ es) = signals n es

-- The counter holds the number of signals as far as a byte can, and the flags say that a first and a
-- second signal came.
pub record Counts (n : ℕ) (s : SignalState) : Type 0 where
  pub count : s.signal_count ≡ n % 256
  pub cancel : s.cancel_requested ≡ leb 1 n
  pub exit : s.immediate_exit_requested ≡ leb 2 n

signal-Counts : (n : ℕ) (s : SignalState) → Counts n s → Counts (n + 1) (handle signal s)
unfolding handle handle_signal fetch_add
signal-Counts n s c =
    let a = c.count in
    let b = c.cancel in
    let d = c.exit in record { count = ground arith; cancel = ground arith; exit = ground arith }

handle_all-Counts_from :
    (es : List Event) (n : ℕ) (s : SignalState)
    → Counts n s
    → Counts (signals n es) (handle_all es s)
unfolding handle_all handle register_job unregister_job
handle_all-Counts_from [] n s c = c
handle_all-Counts_from (signal ∷ es) n s c =
    handle_all-Counts_from es (n + 1) (handle signal s) (signal-Counts n s c)
handle_all-Counts_from (started j ∷ es) n s c =
    handle_all-Counts_from es n (handle (started j) s)
      (record { count = c.count; cancel = c.cancel; exit = c.exit })
handle_all-Counts_from (finished j ∷ es) n s c =
    handle_all-Counts_from es n (handle (finished j) s)
      (record { count = c.count; cancel = c.cancel; exit = c.exit })

-- After any events of a run, the first flag is set when a signal came and the second when two
-- came, and the counter holds the number of signals modulo 256.
handle_all-Counts :
    (g : ℕ) (es : List Event) → Counts (signals 0 es) (handle_all es (with_grace_period g))
unfolding with_grace_period
handle_all-Counts g es =
    handle_all-Counts_from es 0 (with_grace_period g)
      (record { count = refl; cancel = refl; exit = refl })

-- The next signal of a run asks for cancellation exactly when the number of signals before it is
-- 0 modulo 256, and for the immediate exit exactly when that number is 1 modulo 256.
next-action :
    (g : ℕ) (es : List Event)
    → (((handle_signal (handle_all es (with_grace_period g))).1 ≡ initiate_cancellation)
        ↔ (signals 0 es % 256 ≡ 0))
      × (((handle_signal (handle_all es (with_grace_period g))).1 ≡ immediate_exit)
          ↔ (signals 0 es % 256 ≡ 1))
unfolding handle_signal
next-action g es =
    let c = (handle_all-Counts g es).count in
    (((λ h. ground arith), (λ h. ground arith)), ((λ h. ground arith), (λ h. ground arith)))

-- Whether the last event about the job is its start.
abbrev pub runs : Text → Bool → List Event → Bool
runs j b [] = b
runs j b (signal ∷ es) = runs j b es
runs j b (started i ∷ es) = runs j (text_eq i j || b) es
runs j b (finished i ∷ es) = runs j (not (text_eq i j) && b) es

contains-append :
    (l : List Text) (i j : Text) → contains (l ++ (i ∷ [])) j ≡ text_eq i j || contains l j
unfolding contains
contains-append [] i j = refl
contains-append (x ∷ l) i j = let rest = contains-append l i j in ground arith

-- Removing the entries that are `i`.
contains-filter :
    (l : List Text) (i j : Text)
    → contains (filter (λ x. not (text_eq x i)) l) j ≡ not (text_eq i j) && contains l j
unfolding contains
contains-filter [] i j = ground arith
contains-filter (x ∷ l) i j =
    let rest = contains-filter l i j in
    let a = text_eq_iff x i in
    let b = text_eq_iff x j in
    let c = text_eq_iff i j in
    elim (Bool-cases (text_eq x i)) [
      | inl e ↦ let xi = a.0 e in ground arith
      | inr e ↦ elim (Bool-cases (text_eq x j)) [
        | inl f ↦ let xj = b.0 f in ground arith
        | inr f ↦ ground arith
      ]
    ]

handle_all-runs_from :
    (j : Text) (es : List Event) (b : Bool) (s : SignalState)
    → contains s.running_jobs j ≡ b
    → contains (handle_all es s).running_jobs j ≡ runs j b es
unfolding handle_all handle register_job unregister_job handle_signal fetch_add
handle_all-runs_from j [] b s h = h
handle_all-runs_from j (signal ∷ es) b s h =
    handle_all-runs_from j es b (handle signal s) (ground arith)
handle_all-runs_from j (started i ∷ es) b s h =
    handle_all-runs_from j es (text_eq i j || b) (handle (started i) s)
      (contains-append s.running_jobs i j ∙ ap (λ w. text_eq i j || w) h)
handle_all-runs_from j (finished i ∷ es) b s h =
    handle_all-runs_from j es (not (text_eq i j) && b) (handle (finished i) s)
      (contains-filter s.running_jobs i j ∙ ap (λ w. not (text_eq i j) && w) h)

-- The jobs to cancel are those whose last event in the run is a start.
handle_all-runs :
    (j : Text) (g : ℕ) (es : List Event)
    → Mem j (handle_all es (with_grace_period g)).running_jobs ↔ (runs j false es ≡ true)
unfolding with_grace_period contains
handle_all-runs j g es =
    let e = handle_all-runs_from j es false (with_grace_period g) refl in
    let i = contains_iff (handle_all es (with_grace_period g)).running_jobs j in
    ((λ m. sym e ∙ i.1 m), (λ h. i.0 (e ∙ h)))
