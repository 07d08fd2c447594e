-- ===== src/Backoff.antt =====
-- internal/backoff/backoff.go: the retry policy that the producers and every sink share.
-- A time.Duration is an int64, and so is the attempt: both are kept as the residue modulo 2 ^ 64
-- that stands for them, and doubling wraps around as it does in Go.
pub mod Bounds
use evm_tools.Base.{
  signed_lt, mul64, ℕ, zero, suc, ◌+◌, ◌-◌, ◌*◌, ◌/◌, ◌%◌, ◌^◌, Bool, ltb, ◌==◌, ◌||◌,
  if◌then◌else◌,
}

-- `for i := 1; i < attempt && d < maxDelay; i++ { d *= 2 }`, by the rounds left.
double : ℕ → ℕ → ℕ → ℕ
double zero d max_delay = d
double (suc rounds) d max_delay =
    let next = double rounds (mul64 d 2) max_delay in if signed_lt d max_delay then next else d

-- Duration: an attempt below 1 counts as 1.
unfoldable pub duration : ℕ → ℕ → ℕ → ℕ
unfolding double
duration attempt base max_delay =
    let n = if signed_lt attempt 1 then 1 else attempt in
    let d = double (n - 1) base max_delay in if signed_lt max_delay d then max_delay else d

-- Jitter: `draw n` is the answer of rand.Int63n(n).
unfoldable pub jitter : (ℕ → ℕ) → ℕ → ℕ
jitter draw d = if signed_lt d 1 then 0 else let half = d / 2 in half + draw (half + 1)

-- backoffFor of internal/stream/stream.go.
unfoldable pub backoff_for : (ℕ → ℕ) → ℕ → ℕ → ℕ → ℕ
unfolding duration jitter
backoff_for draw n base max_delay = jitter draw (duration n base max_delay)
