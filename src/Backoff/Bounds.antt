-- ===== src/Backoff/Bounds.antt =====
-- What the delays of internal/backoff/backoff.go are, for delays that an int64 can double.
use native.Mathlib.Nat.{pow-suc, pow-le-pow_right}
use evm_tools.Base.{
  signed_lt-eq-ltb, ℕ, zero, suc, ◌+◌, ◌-◌, ◌*◌, ◌/◌, ◌%◌, ◌^◌, ◌≤◌, ◌<◌, min, ◌≡◌, arith, ltb,
  ltb→lt, inl, inr, Bool-cases,
}
use evm_tools.Backoff.{double, duration, backoff_for}

-- 2 ^ 62 nanoseconds, over 146 years.
abbrev pub max_safe : ℕ
max_safe = 2 ^ 62

pow_pos : (k : ℕ) → 1 ≤ 2 ^ k
pow_pos zero = omega arith
pow_pos (suc k) = omega (arith, pow-suc 2 k, pow_pos k)

le-mul_pow : (d k : ℕ) → d ≤ d * 2 ^ k
le-mul_pow d k = grind (arith, pow_pos k)

mul_pow-suc : (d k : ℕ) → d * 2 * 2 ^ k ≡ d * 2 ^ suc k
mul_pow-suc d k = rw (pow-suc 2 k) (grind arith)

-- As long as the cap can be doubled, no round wraps around.
min-double : (k d m : ℕ) → m ≤ max_safe → d < 2 ^ 63 → min (double k d m) m ≡ min (d * 2 ^ k) m
unfolding double
min-double zero d m hm hd = omega arith
min-double (suc k) d m hm hd = elim (Bool-cases (ltb d m)) [
  | inl below ↦
      let small : d < m = ltb→lt d m below in
      let no_wrap : (d * 2) % 2 ^ 64 ≡ d * 2 = omega arith in
      rw (
        signed_lt-eq-ltb d m hd (omega arith),
        below,
        no_wrap,
        min-double k (d * 2) m hm (omega arith),
        mul_pow-suc d k,
      )
  | inr over ↦
      let large : m ≤ d = ground arith in
      rw (signed_lt-eq-ltb d m hd (omega arith), over) (omega (arith, le-mul_pow d (suc k)))
]

double-lt : (k d m : ℕ) → m ≤ max_safe → d < 2 ^ 63 → double k d m < 2 ^ 63
unfolding double
double-lt zero d m hm hd = hd
double-lt (suc k) d m hm hd =
    ground (arith, signed_lt-eq-ltb d m hd, double-lt k ((d * 2) % 2 ^ 64) m hm)

-- For a base and a cap that are not negative, the cap at most 2 ^ 62 nanoseconds, and an attempt
-- from 1 on, the delay is base * 2 ^ (attempt - 1), or the cap where that is larger: no doubling
-- overflows, whatever the attempt.
pub duration_lem :
    (attempt base max_delay : ℕ)
    → 1 ≤ attempt
    → attempt < 2 ^ 63
    → base < 2 ^ 63
    → max_delay ≤ max_safe
    → duration attempt base max_delay ≡ min (base * 2 ^ (attempt - 1)) max_delay
unfolding duration
duration_lem attempt base max_delay h1 ha hb hm = ground (
  arith,
  signed_lt-eq-ltb attempt 1 ha,
  signed_lt-eq-ltb max_delay (double (attempt - 1) base max_delay),
  double-lt (attempt - 1) base max_delay hm hb,
  min-double (attempt - 1) base max_delay hm hb,
)

-- A later attempt never waits less: under the same conditions the delay is monotone in the attempt.
pub duration_mono :
    (a b base max_delay : ℕ)
    → 1 ≤ a
    → a ≤ b
    → b < 2 ^ 63
    → base < 2 ^ 63
    → max_delay ≤ max_safe
    → duration a base max_delay ≤ duration b base max_delay
duration_mono a b base max_delay h1 hab hb hbase hm =
    rw
      (
        duration_lem a base max_delay h1 (omega arith) hbase hm,
        duration_lem b base max_delay (omega arith) hb hbase hm,
      )
      (grind (arith, pow-le-pow_right {n = 2} (omega arith) {i = a - 1} {j = b - 1} (omega arith)))

-- With a random draw that is below its bound, the wait of an attempt lies between half of its delay
-- and the delay, and the delay is at most the cap.
pub backoff_for_bounds :
    (draw : ℕ → ℕ) (n base max_delay : ℕ)
    → ((k : ℕ) → 0 < k → draw k < k)
    → 1 ≤ n
    → n < 2 ^ 63
    → base < 2 ^ 63
    → max_delay ≤ max_safe
    → (duration n base max_delay / 2 ≤ backoff_for draw n base max_delay)
      × (backoff_for draw n base max_delay ≤ duration n base max_delay)
      × (duration n base max_delay ≤ max_delay)
unfolding backoff_for
backoff_for_bounds draw n base max_delay below h1 hn hb hm =
    let d = duration n base max_delay in
    let capped : d ≤ max_delay = omega (arith, duration_lem n base max_delay h1 hn hb hm) in
    ground (arith, signed_lt-eq-ltb d 1, below (d / 2 + 1))
