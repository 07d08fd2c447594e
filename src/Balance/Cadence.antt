-- ===== src/Balance/Cadence.antt =====
-- The loops of evm-balance: sampleAll, tick, handleError, handleFailure, runIntervalCadence and
-- runBlockCadence of internal/balance/balance.go, for readings of values. The gauges, the readiness and
-- the clock are left out, and so is the reload of the targets: the readings of a round are given.
pub mod Paced
pub mod GoesOn
use evm_tools.Base.{
  ℕ, ◌+◌, ◌%◌, ◌^◌, Bool, true, false, ◌&&◌, Option, none, some, List, [], ◌∷◌, ◌++◌, Text, codes,
  leb, signed_lt, ltb, if◌then◌else◌,
}
use evm_tools.Base.Exec.{Outcome, done, failed, panicked, Exec}
use evm_tools.Stream.State.{Errno, epipe, ebadf, other_errno}
use evm_tools.Balance.Apply.{Reading, Poller, apply_readings}
use evm_tools.Balance.Errors.{ReadError, select_error}

-- validateCadence, of an interval (a time.Duration) and a number of blocks: the error, if there is one.
unfoldable pub validate_cadence : ℕ → ℕ → Option Text
validate_cadence interval every_blocks =
    if signed_lt 0 interval && ltb 0 every_blocks
    then some (codes "balance: set exactly one of interval or every_blocks, not both")
    else if signed_lt 0 interval
    then none
    else if ltb 0 every_blocks
    then none
    else some (codes "balance: set exactly one of interval or every_blocks")

-- What a target's read comes to.
pub data ReadResult (D : Type 0) : Type 0 where
  got_readings : List (Reading D) → ReadResult D
  read_error : ReadError → ReadResult D

-- The errors of a round: of the head, of a read, of the output.
pub data TickFault : Type 0 where
  head_failed : TickFault
  read_failed : ReadError → TickFault
  emit_failed : Errno → TickFault

-- How a round ends: the loop goes on, returns nil, or returns the error of the output or of a target, or
-- of a panic.
pub data Verdict : Type 0 where
  goes_on stopped output_gone misconfigured crashed : Verdict

-- What one round meets: the head, or an error; what the reads of the targets come to, in their order; and
-- whether the context has ended when it fails, in the sleep of the backoff, and in the wait behind it.
pub record Round (D : Type 0) : Type 0 where
  pub head : Option ℕ
  pub reads : List (ReadResult D)
  pub ended_in_poll : Bool
  pub ended_in_sleep : Bool
  pub ended_in_wait : Bool

-- The poller and the variables of the loops. The last field is the heads that were sampled, the latest
-- one first, of which the code keeps only the first.
pub record Runner (D : Type 0) : Type 0 where
  pub poller : Poller D
  pub failures : ℕ
  pub last_sampled : Option ℕ
  pub heads : List ℕ

abbrev pub error_of : {D : Type 0} → ReadResult D → Option ReadError
error_of (got_readings rs) = none
error_of (read_error e) = some e

abbrev pub errors_of : {D : Type 0} → List (ReadResult D) → List (Option ReadError)
errors_of [] = []
errors_of (r ∷ reads) = error_of r ∷ errors_of reads

abbrev pub readings_of : {D : Type 0} → List (ReadResult D) → List (Reading D)
readings_of [] = []
readings_of (got_readings rs ∷ reads) = rs ++ readings_of reads
readings_of (read_error e ∷ reads) = readings_of reads

abbrev pub Sampled : Type 0 → Type 0
Sampled D = Outcome TickFault (Unit {0}) × Poller D

abbrev pub as_fault : {D : Type 0} → Outcome Errno (Unit {0}) × Poller D → Sampled D
as_fault (done x, p) = (done x, p)
as_fault (failed e, p) = (failed (emit_failed e), p)
as_fault (panicked, p) = (panicked, p)

-- sampleAll: nothing is emitted where a read has failed.
unfoldable pub sample_all :
    {D : Type 0} → (ℕ → Option Errno) → List (ReadResult D) → Poller D → Sampled D
sample_all out reads p = elim (select_error (errors_of reads)) [
  | some e ↦ (failed (read_failed e), p)
  | none ↦ as_fault (apply_readings out (readings_of reads) p)
]

-- handleFailure
unfoldable pub handle_failure : {D : Type 0} → Round D → Runner D → Verdict × Runner D
handle_failure round r =
    (if round.ended_in_sleep then stopped else goes_on, record r { failures = r.failures + 1 })

-- handleError
unfoldable pub handle_error : {D : Type 0} → Round D → TickFault → Runner D → Verdict × Runner D
unfolding handle_failure
handle_error round (emit_failed epipe) r = (output_gone, r)
handle_error round (emit_failed ebadf) r = (output_gone, r)
handle_error round (emit_failed other_errno) r = handle_failure round r
handle_error round (read_failed e) r =
    if e.permanent then (misconfigured, r) else handle_failure round r
handle_error round head_failed r = handle_failure round r

unfoldable pub round_failed : {D : Type 0} → Round D → TickFault → Runner D → Verdict × Runner D
unfolding handle_error
round_failed round e r = if round.ended_in_poll then (stopped, r) else handle_error round e r

abbrev pub waited : {D : Type 0} → Round D → Runner D → Verdict × Runner D
waited round r = (if round.ended_in_wait then stopped else goes_on, r)

unfoldable pub after_sample : {D : Type 0} → Round D → ℕ → Runner D → Sampled D → Verdict × Runner D
unfolding round_failed
after_sample round head r (done x, p) =
    waited round
      (record r { poller = p; failures = 0; last_sampled = some head; heads = head ∷ r.heads })
after_sample round head r (failed e, p) = round_failed round e (record r { poller = p })
after_sample round head r (panicked, p) = (crashed, record r { poller = p })

-- tick, and the wait of runIntervalCadence behind it
unfoldable pub run_tick :
    {D : Type 0} → (ℕ → Option Errno) → Round D → Runner D → Verdict × Runner D
unfolding after_sample sample_all
run_tick out round r = elim round.head [
  | none ↦ round_failed round head_failed r
  | some head ↦ after_sample round head r (sample_all out round.reads r.poller)
]

-- `!haveSampled || head >= lastSampled+EveryBlocks`
unfoldable pub is_due : ℕ → Option ℕ → ℕ → Bool
is_due every none head = true
is_due every (some last) head = leb ((last + every) % 2 ^ 64) head

-- A round of runBlockCadence
unfoldable pub block_round :
    {D : Type 0} → (ℕ → Option Errno) → ℕ → Round D → Runner D → Verdict × Runner D
unfolding after_sample sample_all
block_round out every round r = elim round.head [
  | none ↦ round_failed round head_failed r
  | some head ↦
      let r' = record r { failures = 0 } in
      if is_due every r.last_sampled head
      then after_sample round head r' (sample_all out round.reads r.poller)
      else waited round r'
]

module _ {D : Type 0} (step : Round D → Runner D → Verdict × Runner D) where
  -- The rounds, until one of them returns.
  unfoldable pub run_loop : List (Round D) → Runner D → Verdict × Runner D
  run_loop [] r = (goes_on, r)
  run_loop (round ∷ rounds) r = elim (step round r).0 [
    | goes_on ↦ run_loop rounds (step round r).1
    | stopped ↦ step round r
    | output_gone ↦ step round r
    | misconfigured ↦ step round r
    | crashed ↦ step round r
  ]

-- runIntervalCadence
unfoldable pub run_interval_cadence :
    {D : Type 0} → (ℕ → Option Errno) → List (Round D) → Runner D → Verdict × Runner D
unfolding run_tick
run_interval_cadence out rounds r = run_loop (run_tick out) rounds r

-- runBlockCadence
unfoldable pub run_block_cadence :
    {D : Type 0} → (ℕ → Option Errno) → ℕ → List (Round D) → Runner D → Verdict × Runner D
unfolding block_round
run_block_cadence out every rounds r = run_loop (block_round out every) rounds r
