-- ===== src/State/Counter.antt =====
-- `SEQUENCE_COUNTER` of src/state/mod.rs, an AtomicU64 that `fetch_add` wraps. Every operation that
-- stamps an artifact takes the counter and hands it on; the clock reading is an argument.
use rch_mac.Base.{ℕ, ◌+◌, ◌%◌, ◌<◌, ◌≡◌, arith}

abbrev pub u64_mod : ℕ
u64_mod = 18446744073709551616

-- The number handed out, and the counter after it.
unfoldable pub next_seq : ℕ → ℕ × ℕ
next_seq c = (c, (c + 1) % u64_mod)

-- Before the counter is exhausted, each number is new.
pub next_seq-fresh : (c : ℕ) → c + 1 < u64_mod → ((next_seq c).0 ≡ c) × ((next_seq c).1 ≡ c + 1)
unfolding next_seq
next_seq-fresh c h = omega arith
