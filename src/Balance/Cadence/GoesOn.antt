-- ===== src/Balance/Cadence/GoesOn.antt =====
-- Which errors end the loops of evm-balance (internal/balance/balance.go).
use evm_tools.Base.{
  ℕ, ◌≡◌, ◌≢◌, refl, false, if_either, if_cases, if◌then◌else◌, Option, none, some, List, [], ◌∷◌,
}
use evm_tools.Base.Exec.{Outcome, done, failed, panicked}
use evm_tools.Stream.State.{Errno, epipe, ebadf, other_errno}
use evm_tools.Balance.Apply.{Poller, apply_readings}
use evm_tools.Balance.Apply.Faults.{FromOutput, readings-FromOutput}
use evm_tools.Balance.Errors.{ReadError, select_error, select_from, or_first}
use evm_tools.Balance.Cadence.{
  ReadResult, got_readings, read_error, TickFault, head_failed, read_failed, emit_failed, Verdict,
  goes_on, stopped, output_gone, misconfigured, crashed, Round, Runner, Sampled, as_fault,
  errors_of, readings_of, sample_all, handle_failure, handle_error, round_failed, waited,
  after_sample, run_tick, is_due, block_round, run_loop, run_interval_cadence, run_block_cadence,
}

-- No error of the read is permanent.
abbrev pub IsTransient : {D : Type 0} → ReadResult D → Type 0
IsTransient (got_readings rs) = Unit
IsTransient (read_error e) = e.permanent ≡ false

abbrev pub AllTransient : {D : Type 0} → List (ReadResult D) → Type 0
AllTransient [] = Unit
AllTransient (r ∷ reads) = IsTransient r × AllTransient reads

-- The context goes on, and no error of a read is permanent.
pub record IsLive {D : Type 0} (round : Round D) : Type 0 where
  pub live_in_poll : round.ended_in_poll ≡ false
  pub live_in_sleep : round.ended_in_sleep ≡ false
  pub live_in_wait : round.ended_in_wait ≡ false
  pub transient : AllTransient round.reads

abbrev pub AllLive : {D : Type 0} → List (Round D) → Type 0
AllLive [] = Unit
AllLive (round ∷ rounds) = IsLive round × AllLive rounds

-- The downstream of the output is there.
pub record IsConnected (out : ℕ → Option Errno) : Type 0 where
  pub no_epipe : (n : ℕ) → out n ≢ some epipe
  pub no_ebadf : (n : ℕ) → out n ≢ some ebadf

abbrev Lasting : Option ReadError → Type 0
Lasting none = Unit
Lasting (some e) = e.permanent ≡ false

or_first-Lasting :
    (first : Option ReadError) (e : ReadError)
    → Lasting first
    → e.permanent ≡ false
    → Lasting (or_first first e)
or_first-Lasting none e f h = h
or_first-Lasting (some x) e f h = f

select-Lasting :
    {D : Type 0} (first : Option ReadError) (reads : List (ReadResult D))
    → Lasting first
    → AllTransient reads
    → Lasting (select_from first (errors_of reads))
unfolding select_from
select-Lasting first [] f h = f
select-Lasting first (got_readings rs ∷ reads) f (_, h) = select-Lasting first reads f h
select-Lasting first (read_error e ∷ reads) f (t, h) =
    if_either Lasting e.permanent t
      (select-Lasting (or_first first e) reads (or_first-Lasting first e f t) h)

-- A fault that is retried.
abbrev Retried : TickFault → Type 0
Retried head_failed = Unit
Retried (read_failed e) = e.permanent ≡ false
Retried (emit_failed e) = e ≡ other_errno

output_error :
    (out : ℕ → Option Errno) (e : Errno) (n : ℕ)
    → IsConnected out
    → out n ≡ some e
    → e ≡ other_errno
output_error out epipe n c h = absurd (c.no_epipe n h)
output_error out ebadf n c h = absurd (c.no_ebadf n h)
output_error out other_errno n c h = refl

module _ {D : Type 0} (out : ℕ → Option Errno) where
  abbrev FailsRetried : Sampled D → Type 0
  FailsRetried (done x, p) = Unit
  FailsRetried (failed e, p) = Retried e
  FailsRetried (panicked, p) = ⊥

  module _ (connected : IsConnected out) where
    as_fault-FailsRetried :
        (r : Outcome Errno (Unit {0}) × Poller D) → FromOutput out r → FailsRetried (as_fault r)
    as_fault-FailsRetried (done x, p) h = tt
    as_fault-FailsRetried (failed e, p) (n, h) = output_error out e n connected h
    as_fault-FailsRetried (panicked, p) h = h

    sample-FailsRetried :
        (reads : List (ReadResult D)) (p : Poller D)
        → AllTransient reads
        → FailsRetried (sample_all out reads p)
    unfolding sample_all select_error
    sample-FailsRetried reads p h =
        by_error (select_from none (errors_of reads)) (select-Lasting none reads tt h)
      where
        by_error :
            (o : Option ReadError)
            → Lasting o
            → FailsRetried (elim o [
              | some e ↦ (failed (read_failed e), p)
              | none ↦ as_fault (apply_readings out (readings_of reads) p)
            ])
        by_error (some e) t = t
        by_error none t =
            as_fault-FailsRetried (apply_readings out (readings_of reads) p)
              (readings-FromOutput out (readings_of reads) p)

    abbrev GoesOn : Verdict × Runner D → Type 0
    GoesOn v = v.0 ≡ goes_on

    failure-GoesOn :
        (round : Round D) (r : Runner D) → IsLive round → GoesOn (handle_failure round r)
    unfolding handle_failure
    failure-GoesOn round r l =
        if_cases (λ v. v ≡ goes_on) round.ended_in_sleep (λ e. absurd (cc (e, l.live_in_sleep)))
          (λ _. refl)

    failed-GoesOn :
        (round : Round D) (e : TickFault) (r : Runner D)
        → IsLive round
        → Retried e
        → GoesOn (round_failed round e r)
    unfolding round_failed handle_error
    failed-GoesOn round e r l h =
        if_cases GoesOn round.ended_in_poll (λ t. absurd (cc (t, l.live_in_poll)))
          (λ _. by_fault e h)
      where
        by_fault : (x : TickFault) → Retried x → GoesOn (handle_error round x r)
        by_fault head_failed h = failure-GoesOn round r l
        by_fault (read_failed x) h =
            if_cases GoesOn x.permanent (λ t. absurd (cc (t, h))) (λ _. failure-GoesOn round r l)
        by_fault (emit_failed epipe) h = cc h
        by_fault (emit_failed ebadf) h = cc h
        by_fault (emit_failed other_errno) h = failure-GoesOn round r l

    waited-GoesOn : (round : Round D) (r : Runner D) → IsLive round → GoesOn (waited round r)
    waited-GoesOn round r l =
        if_cases (λ v. v ≡ goes_on) round.ended_in_wait (λ e. absurd (cc (e, l.live_in_wait)))
          (λ _. refl)

    sampled-GoesOn :
        (round : Round D) (head : ℕ) (r : Runner D) (s : Sampled D)
        → IsLive round
        → FailsRetried s
        → GoesOn (after_sample round head r s)
    unfolding after_sample
    sampled-GoesOn round head r (done x, p) l h = waited-GoesOn round r l
    sampled-GoesOn round head r (failed e, p) l h =
        failed-GoesOn round e (record r { poller = p }) l h
    sampled-GoesOn round head r (panicked, p) l h = absurd h

    tick-GoesOn : (round : Round D) (r : Runner D) → IsLive round → GoesOn (run_tick out round r)
    unfolding run_tick
    tick-GoesOn round r l = by_head round.head
      where
        by_head :
            (o : Option ℕ)
            → GoesOn (elim o [
              | none ↦ round_failed round head_failed r
              | some head ↦ after_sample round head r (sample_all out round.reads r.poller)
            ])
        by_head none = failed-GoesOn round head_failed r l tt
        by_head (some head) =
            sampled-GoesOn round head r (sample_all out round.reads r.poller) l
              (sample-FailsRetried round.reads r.poller l.transient)

    block-GoesOn :
        (every : ℕ) (round : Round D) (r : Runner D)
        → IsLive round
        → GoesOn (block_round out every round r)
    unfolding block_round
    block-GoesOn every round r l = by_head round.head
      where
        by_head :
            (o : Option ℕ)
            → GoesOn (elim o [
              | none ↦ round_failed round head_failed r
              | some head ↦
                  if is_due every r.last_sampled head
                  then after_sample round head
                      (record r { failures = 0 })
                      (sample_all out round.reads r.poller)
                  else waited round (record r { failures = 0 })
            ])
        by_head none = failed-GoesOn round head_failed r l tt
        by_head (some head) =
            if_either GoesOn (is_due every r.last_sampled head)
              (sampled-GoesOn round head (record r { failures = 0 })
                (sample_all out round.reads r.poller) l
                (sample-FailsRetried round.reads r.poller l.transient))
              (waited-GoesOn round r l)

    loop-GoesOn :
        (step : Round D → Runner D → Verdict × Runner D) (rounds : List (Round D)) (r : Runner D)
        → ((round : Round D) (q : Runner D) → IsLive round → GoesOn (step round q))
        → AllLive rounds
        → GoesOn (run_loop step rounds r)
    unfolding run_loop
    loop-GoesOn step [] r goes l = refl
    loop-GoesOn step (round ∷ rounds) r goes (first, rest) =
        by_verdict (step round r).0 (goes round r first)
          (loop-GoesOn step rounds (step round r).1 goes rest)
      where
        by_verdict :
            (v : Verdict)
            → v ≡ goes_on
            → GoesOn (run_loop step rounds (step round r).1)
            → GoesOn (elim v [
              | goes_on ↦ run_loop step rounds (step round r).1
              | stopped ↦ step round r
              | output_gone ↦ step round r
              | misconfigured ↦ step round r
              | crashed ↦ step round r
            ])
        by_verdict goes_on e there = there
        by_verdict stopped e there = cc e
        by_verdict output_gone e there = cc e
        by_verdict misconfigured e there = cc e
        by_verdict crashed e there = cc e

    -- As long as the context goes on, the downstream of the output is there and no target is
    -- misconfigured, neither loop of evm-balance returns, through any rounds: not on an error of the
    -- node, of a read or of the output, however many come one after the other, and not with a panic.
    pub cadences-GoesOn :
        (every : ℕ) (rounds : List (Round D)) (r : Runner D)
        → AllLive rounds
        → ((run_interval_cadence out rounds r).0 ≡ goes_on)
          × ((run_block_cadence out every rounds r).0 ≡ goes_on)
    unfolding run_interval_cadence run_block_cadence
    cadences-GoesOn every rounds r l = (
      loop-GoesOn (run_tick out) rounds r tick-GoesOn l,
      loop-GoesOn (block_round out every) rounds r (block-GoesOn every) l,
    )
