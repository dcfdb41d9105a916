-- ===== src/Worker/Logs.antt =====
-- What a host reads of a log, chunk by chunk: src/crates/rch-worker/src/handlers/tail.rs.
use rch_mac.Base.{
  ℕ, ◌+◌, ◌^◌, ◌≤◌, ◌<◌, ltb, true, false, none, some, unwrap_or, if◌then◌else◌, Text, List, [],
  ◌∷◌, ◌++◌, get, length, take, drop, is_empty, utf8, decimal, parse_usize, parse-decimal,
  Bool-cases, inl, inr, suc, zero, ◌-◌, ◌&&◌, ◌==◌, ok-injective, ◌⊎◌, ◌≡◌, refl, sym, ◌∙◌, ap,
  arith, ok,
}
use rch_mac.State.Job.{JobState, is_terminal}
use rch_mac.Worker.Protocol.{TailRequest, TailResponse}
use rch_mac.Worker.State.{MockJob, MockState, process_job, get_job_log, is_char_boundary, job_log}
use rch_mac.Worker.Handlers.{cursor_of}
use rch_mac.Worker.Reads.{tail, limit, next_cursor}
use rch_mac.Worker.Persistence.{Continues}
use rch_mac.Worker.Jobs.{get-process}

-- The bytes of a response, none where there is no chunk.
abbrev pub chunk_of : TailResponse → List ℕ
chunk_of a = elim (a.log_chunk) [ none ↦ [] | some c ↦ c ]

drop-length : (l m : List ℕ) → drop (length l) (l ++ m) ≡ m
drop-length [] m = refl
drop-length (x ∷ l) m = drop-length l m

drop_all : (l : List ℕ) → drop (length l) l ≡ []
drop_all [] = refl
drop_all (x ∷ l) = drop_all l

-- Text starts where a character starts.
utf8-is_char_boundary : (s : Text) → is_char_boundary 0 (utf8 s) ≡ true
unfolding is_char_boundary utf8
utf8-is_char_boundary [] = refl
utf8-is_char_boundary (c ∷ s) = ground arith

end-is_char_boundary : (l : List ℕ) (s : Text) → is_char_boundary (length l) (l ++ utf8 s) ≡ true
unfolding is_char_boundary
end-is_char_boundary l s =
    let start = utf8-is_char_boundary s in let rest = drop-length l (utf8 s) in ground arith

drop_past : (l : List ℕ) (c : ℕ) → ltb c (length l) ≡ false → drop c l ≡ []
drop_past [] zero h = refl
drop_past [] (suc c) h = refl
drop_past (x ∷ l) zero h = absurd (ground arith)
drop_past (x ∷ l) (suc c) h = drop_past l c (ground arith)

drop-append : (c : ℕ) (l m : List ℕ) → c ≤ length l → drop c l ++ m ≡ drop c (l ++ m)
drop-append zero l m h = refl
drop-append (suc c) [] m h = absurd (omega arith)
drop-append (suc c) (x ∷ l) m h = drop-append c l m (omega arith)

length-drop : (c : ℕ) (l : List ℕ) → length (drop c l) ≡ length l - c
length-drop zero l = omega arith
length-drop (suc c) [] = omega arith
length-drop (suc c) (x ∷ l) = let rest = length-drop c l in omega arith

-- The chunk of a job's log from a cursor on which a character starts.
job_log_lem :
    (job : MockJob) (c : ℕ)
    → is_char_boundary c job.log_buffer ≡ true
    → job_log job c ≡ (some (drop c job.log_buffer), length job.log_buffer)
unfolding job_log
job_log_lem job c h = let past = drop_past job.log_buffer c in ground arith

-- A response that reads a log from a cursor to its end: the chunk is what stands there, and the next
-- cursor, where there is one, spells the length of the log.
record Reads (log : List ℕ) (cursor : ℕ) (a : TailResponse) : Type 0 where
  pub chunk : chunk_of a ≡ drop cursor log
  pub next :
      (a.next_cursor ≡ some (decimal (length log)))
      ⊎ ((a.next_cursor ≡ none) × (cursor ≡ length log))

-- What `tail` answers on a job that is there, with the chunk that the limit leaves.
abbrev answer : TailRequest → JobState → ℕ → List ℕ → TailResponse
answer req state len chunk = record {
  job_id = req.job_id;
  next_cursor = next_cursor state (cursor_of req) len;
  log_chunk = if is_empty chunk then none else some chunk;
  events = [];
}

tail-get :
    (now : ℕ) (req : TailRequest) (s : MockState) (job : MockJob) (chunk : List ℕ)
    → get req.job_id s.jobs ≡ some job
    → is_char_boundary (cursor_of req) job.log_buffer ≡ true
    → limit req.max_bytes (drop (cursor_of req) job.log_buffer) ≡ some chunk
    → (tail now req s).1 ≡ ok (answer req (process_job now job).state (length job.log_buffer) chunk)
unfolding tail get_job_log process_job
tail-get now req s job chunk h b m =
    let c = cursor_of req in
    let there = get-process now req.job_id s job h in
    let log = job_log_lem (process_job now job) c b in ground arith

answer-chunk :
    (req : TailRequest) (state : JobState) (len : ℕ) (chunk : List ℕ)
    → chunk_of (answer req state len chunk) ≡ chunk
answer-chunk req state len [] = refl
answer-chunk req state len (x ∷ chunk) = refl

answer-next :
    (req : TailRequest) (state : JobState) (len : ℕ) (chunk : List ℕ)
    → let n = (answer req state len chunk).next_cursor in
      (n ≡ some (decimal len)) ⊎ ((n ≡ none) × (cursor_of req ≡ len))
unfolding next_cursor
answer-next req state len chunk = elim (Bool-cases (is_terminal state && len == cursor_of req)) [
  | inl e ↦ inr (ground arith, ground arith)
  | inr e ↦ inl (ground arith)
]

tail-Reads :
    (now : ℕ) (req : TailRequest) (s : MockState) (job : MockJob)
    → get req.job_id s.jobs ≡ some job
    → req.max_bytes ≡ none
    → is_char_boundary (cursor_of req) job.log_buffer ≡ true
    → (a : TailResponse) × ((tail now req s).1 ≡ ok a) × Reads job.log_buffer (cursor_of req) a
unfolding limit
tail-Reads now req s job h m b =
    let state = (process_job now job).state in
    let len = length job.log_buffer in
    let chunk = drop (cursor_of req) job.log_buffer in
    (
      answer req state len chunk,
      tail-get now req s job chunk h b (ground arith),
      record { chunk = answer-chunk req state len chunk; next = answer-next req state len chunk },
    )

-- Two reads of a log without a limit on the bytes, the first from a cursor within the log on which a
-- character starts, the second at the cursor that the first answered and at a later state of the job:
-- the two chunks are what the log of that state holds from the first cursor on, without a gap and without
-- an overlap. The log of the first read is shorter than 2^64 bytes.
pub tail_twice :
    (now later : ℕ) (req : TailRequest) (s t : MockState) (job job' : MockJob) (cursor : Text)
    (a b : TailResponse)
    → get req.job_id s.jobs ≡ some job
    → get req.job_id t.jobs ≡ some job'
    → Continues job job'
    → length job.log_buffer < 2 ^ 64
    → req.max_bytes ≡ none
    → is_char_boundary (cursor_of req) job.log_buffer ≡ true
    → cursor_of req ≤ length job.log_buffer
    → (tail now req s).1 ≡ ok a
    → a.next_cursor ≡ some cursor
    → (tail later (record req { cursor = some cursor }) t).1 ≡ ok b
    → chunk_of a ++ chunk_of b ≡ drop (cursor_of req) job'.log_buffer
unfolding cursor_of
tail_twice now later req s t job job' cursor a b h k c small m bound low e n f =
    let (a0, ea, ra) = tail-Reads now req s job h m bound in
    let len = length job.log_buffer in
    let req' = record req { cursor = some cursor } in
    let same_a : a ≡ a0 = ok-injective (sym e ∙ ea) in
    let spelt : cursor ≡ decimal len =
      spells a0 ra.next (ap (λ (x : TailResponse). x.next_cursor) (sym same_a) ∙ n) in
    let at : cursor_of req' ≡ len =
      ap (λ w. unwrap_or (parse_usize w) 0) spelt
      ∙ ap (λ o. unwrap_or o 0) (parse-decimal len small) in
    let edge : is_char_boundary (cursor_of req') job'.log_buffer ≡ true =
      ap (λ i. is_char_boundary i job'.log_buffer) at
      ∙ ap (is_char_boundary len) c.log
      ∙ end-is_char_boundary job.log_buffer c.added in
    let (b0, eb, rb) = tail-Reads later req' t job' k m edge in
    let same_b : b ≡ b0 = ok-injective (sym f ∙ eb) in
    let first : chunk_of a ≡ drop (cursor_of req) job.log_buffer = ap chunk_of same_a ∙ ra.chunk in
    let second : chunk_of b ≡ utf8 c.added =
      ap chunk_of same_b
      ∙ rb.chunk
      ∙ ap (λ i. drop i job'.log_buffer) at
      ∙ ap (drop len) c.log
      ∙ drop-length job.log_buffer (utf8 c.added) in
    ap (λ x. x ++ chunk_of b) first
    ∙ ap (λ x. drop (cursor_of req) job.log_buffer ++ x) second
    ∙ drop-append (cursor_of req) job.log_buffer (utf8 c.added) low
    ∙ ap (drop (cursor_of req)) (sym c.log)
  where
    spells :
        (x : TailResponse)
        → (x.next_cursor ≡ some (decimal (length job.log_buffer)))
          ⊎ ((x.next_cursor ≡ none) × (cursor_of req ≡ length job.log_buffer))
        → x.next_cursor ≡ some cursor
        → cursor ≡ decimal (length job.log_buffer)
    spells x (inl q) w = ground arith
    spells x (inr q) w = absurd (ground arith)

-- A read with a limit that a chunk exceeds: the answer holds the first bytes of the chunk, but its
-- cursor spells the end of the log, so that the bytes behind the limit are in no later chunk.
tail_limited :
    (now max : ℕ) (req : TailRequest) (s : MockState) (job : MockJob)
    → get req.job_id s.jobs ≡ some job
    → req.max_bytes ≡ some max
    → is_char_boundary (cursor_of req) job.log_buffer ≡ true
    → is_char_boundary max (drop (cursor_of req) job.log_buffer) ≡ true
    → cursor_of req + max < length job.log_buffer
    → (a : TailResponse) × ((tail now req s).1 ≡ ok a)
      × (chunk_of a ≡ take max (drop (cursor_of req) job.log_buffer))
      × (a.next_cursor ≡ some (decimal (length job.log_buffer)))
unfolding limit
tail_limited now max req s job h m b edge low =
    let state = (process_job now job).state in
    let len = length job.log_buffer in
    let rest = drop (cursor_of req) job.log_buffer in
    let longer = length-drop (cursor_of req) job.log_buffer in
    let chunk = take max rest in
    let next = answer-next req state len chunk in
    (
      answer req state len chunk,
      tail-get now req s job chunk h b (ground arith),
      answer-chunk req state len chunk,
      elim next [ inl e ↦ e | inr e ↦ absurd (omega (arith, e.1)) ],
    )
