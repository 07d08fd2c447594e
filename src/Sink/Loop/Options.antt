-- ===== src/Sink/Loop/Options.antt =====
-- The options that the sinks' New complete: a default for each backoff bound that is not positive, and
-- for the timeout of an active probe. A time.Duration is an int64, kept as its residue modulo 2 ^ 64.
use evm_tools.Base.{
  ℕ, ◌*◌, ◌≡◌, refl, Bool, true, false, ◌&&◌, not, Text, if◌then◌else◌, signed_lt, if_either,
  if_cases,
}
use evm_tools.Base.Exec.{Outcome, done, failed, ◌>=>◌}

pub record SinkOptions : Type 0 where
  pub reader_given : Bool
  pub destination_given : Bool
  pub backoff_base : ℕ
  pub backoff_max : ℕ
  pub probe_interval : ℕ
  pub probe_timeout : ℕ

abbrev pub millisecond : ℕ
millisecond = 1000000

abbrev pub second : ℕ
second = 1000000000

-- `if d <= 0 { d = value }`
unfoldable pub default_for : ℕ → ℕ → ℕ
default_for value d = if signed_lt 0 d then d else value

abbrev pub smaller : ℕ → ℕ → ℕ
smaller a b = if signed_lt a b then a else b

unfoldable pub probe_timeout_of : ℕ → ℕ → ℕ
probe_timeout_of interval timeout =
    if signed_lt 0 interval && not (signed_lt 0 timeout)
    then smaller interval (10 * second)
    else timeout

unfoldable pub with_defaults : SinkOptions → SinkOptions
unfolding default_for probe_timeout_of
with_defaults o = record o {
  backoff_base = default_for (500 * millisecond) o.backoff_base;
  backoff_max = default_for (30 * second) o.backoff_max;
  probe_timeout = probe_timeout_of o.probe_interval o.probe_timeout;
}

abbrev pub required : Bool → Text → SinkOptions → Outcome Text SinkOptions
required given error o = if given then done o else failed error

-- The reader, and then the destination, has to be there.
unfoldable pub checked : Text → Text → SinkOptions → Outcome Text SinkOptions
unfolding with_defaults
checked no_reader no_destination o = required o.reader_given no_reader o >=> λ p.
    required p.destination_given no_destination p >=> λ q. done (with_defaults q)

-- The bounds that New leaves are positive, and so is the timeout of a probe that is switched on, which
-- is at most the interval where it was not given.
pub record IsUsable (o p : SinkOptions) : Type 0 where
  pub positive_base : signed_lt 0 p.backoff_base ≡ true
  pub positive_max : signed_lt 0 p.backoff_max ≡ true
  pub positive_timeout : signed_lt 0 p.probe_interval ≡ true → signed_lt 0 p.probe_timeout ≡ true
  pub same_interval : p.probe_interval ≡ o.probe_interval

default_for-positive :
    (value d : ℕ) → signed_lt 0 value ≡ true → signed_lt 0 (default_for value d) ≡ true
unfolding default_for
default_for-positive value d h =
    if_cases (λ x. signed_lt 0 x ≡ true) (signed_lt 0 d) (λ e. e) (λ _. h)

probe_timeout_of-positive :
    (interval timeout : ℕ)
    → signed_lt 0 interval ≡ true
    → signed_lt 0 (probe_timeout_of interval timeout) ≡ true
unfolding probe_timeout_of
probe_timeout_of-positive interval timeout h =
    if_cases (λ x. signed_lt 0 x ≡ true) (signed_lt 0 interval && not (signed_lt 0 timeout))
      (λ _. if_either (λ x. signed_lt 0 x ≡ true) (signed_lt interval (10 * second)) h refl)
      (λ e. given (signed_lt 0 timeout) (signed_lt 0 interval) h e)
  where
    given : (t i : Bool) → i ≡ true → (i && not t) ≡ false → t ≡ true
    given true i h e = refl
    given false true h e = cc e
    given false false h e = cc h

pub with_defaults-IsUsable : (o : SinkOptions) → IsUsable o (with_defaults o)
unfolding with_defaults
with_defaults-IsUsable o = record {
  positive_base = default_for-positive (500 * millisecond) o.backoff_base refl;
  positive_max = default_for-positive (30 * second) o.backoff_max refl;
  positive_timeout = probe_timeout_of-positive o.probe_interval o.probe_timeout;
  same_interval = refl;
}
