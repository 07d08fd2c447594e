-- ===== src/Sink/Loop.antt =====
-- The loop that the sinks have in common, Run and its retries: publishWithRetry of
-- internal/kafkasink/kafkasink.go, writeWithRetry of internal/filesink/filesink.go, postWithRetry of
-- internal/webhooksink/webhooksink.go, deliverWithRetry of internal/awssink/awssink.go,
-- insertWithRetry of internal/pgsink/pgsink.go and appendWithRetry of
-- internal/redissink/redissink.go. The six copies differ in what they make of a record, in the call
-- that delivers it, and in whether they look at the context again after a failed call: these are the
-- arguments of the loop.
pub mod Options
pub mod Gauges
pub mod Wanted
pub mod Accounts
pub mod AtLeastOnce
pub mod Recovery
use evm_tools.Base.{ℕ, Bool, ◌&&◌, none, List, [], ◌∷◌, Text, if◌then◌else◌}
use evm_tools.Backoff.{backoff_for}
use evm_tools.Record.Envelope.{Envelope}
use evm_tools.Sink.Loop.Gauges.{
  Meters, Attempt, Progress, consumed_one, filtered_one, delivered_one, failed_one, clear_blocked,
  recovered, next_progress, backing_off,
}

-- What a delivering call comes to: it is confirmed, or it returns an error, of which Classify says
-- whether a retry can help.
pub data Answered : Type 0 where
  confirmed transient permanent : Answered

-- Where a sink delivers to: the call, which changes the destination's state by what the world does in
-- it; whether the context is looked at again after a failed call; and the bounds of the backoff.
pub record Destination (S A M : Type 0) : Type 0 where
  pub call : M → A → S → Answered × S
  pub rechecks : Bool
  pub backoff_base : ℕ
  pub backoff_max : ℕ

-- The gauges and counters of a sink, and its destination.
pub record World (S : Type 0) : Type 0 where
  pub meters : Meters
  pub dest : S

-- How the retries return; `retrying` where the attempts that are given end before they do.
pub data Delivery : Type 0 where
  sure unsure rejected retrying : Delivery

-- What a sink makes of a record: something to deliver, nothing, or an error.
pub data Prepared (M : Type 0) : Type 0 where
  deliver : M → Prepared M
  skip refuse : Prepared M

-- What one round of Run reads, after the records before it: a record with its line and the attempts at
-- it, a line that the reader refuses, or the end of the context.
pub data Input (D A : Type 0) : Type 0 where
  read : Envelope D → Text → List (Attempt A) → Input D A
  refused_line ended : Input D A

-- How Run returns: at the end of the input, on the end of the context, with the error of a line, of a
-- record or of the destination; `running` where it has not returned.
pub data Ended : Type 0 where
  all_delivered cancelled bad_line bad_record failed running : Ended

abbrev pub metered : {S : Type 0} → (Meters → Meters) → World S → World S
metered f w = record w { meters = f w.meters }

module _ {S A M : Type 0} (d : Destination S A M) where
  -- What an answer leads to, given what follows a retry.
  unfoldable pub after_answer :
      Attempt A
      → Progress
      → (Progress → World S → Delivery × World S)
      → World S
      → Answered
      → Delivery × World S
  after_answer a p again w confirmed = (sure, metered (recovered p) w)
  after_answer a p again w permanent =
      if d.rechecks && a.ended_in_call
      then (unsure, w)
      else (rejected, metered (λ t. clear_blocked (failed_one t)) w)
  after_answer a p again w transient =
      let p' = next_progress a p in
      let delay = backoff_for a.draw p'.attempt d.backoff_base d.backoff_max in
      let waiting = metered (λ t. backing_off a p' delay (failed_one t)) w in
      let rest = again p' waiting in
      if d.rechecks && a.ended_in_call
      then (unsure, w)
      else if a.ended_in_sleep
      then (unsure, waiting)
      else rest

  -- A round of the retries.
  unfoldable pub delivery_round :
      Attempt A
      → M
      → Progress
      → (Progress → World S → Delivery × World S)
      → World S
      → Delivery × World S
  delivery_round a m p again w =
      let (answered, dest) = d.call m a.answer w.dest in
      if a.ended_before
      then (unsure, w)
      else after_answer a p again (record w { dest = dest }) answered

  unfoldable pub retries : List (Attempt A) → M → Progress → World S → Delivery × World S
  retries [] m p w = (retrying, w)
  retries (a ∷ attempts) m p w = delivery_round a m p (λ p' w'. retries attempts m p' w') w

  abbrev pub started : Progress
  started = record { attempt = 0; blocked_since = none }

  unfoldable pub deliver_with_retry : List (Attempt A) → M → World S → Delivery × World S
  deliver_with_retry attempts m w = retries attempts m started w

  -- What a record's delivery leads to, given the rest of the input.
  unfoldable pub after_delivery : (World S → Ended × World S) → Delivery × World S → Ended × World S
  after_delivery rest (sure, w) = rest (metered delivered_one w)
  after_delivery rest (unsure, w) = (cancelled, w)
  after_delivery rest (rejected, w) = (failed, w)
  after_delivery rest (retrying, w) = (running, w)

  unfoldable pub run_record :
      List (Attempt A) → (World S → Ended × World S) → World S → Prepared M → Ended × World S
  run_record attempts rest w (deliver m) = after_delivery rest (deliver_with_retry attempts m w)
  run_record attempts rest w skip = rest (metered filtered_one w)
  run_record attempts rest w refuse = (bad_record, w)

  module _ {D : Type 0} (prepare : Envelope D → Text → Prepared M) where
    -- Run
    unfoldable pub run : List (Input D A) → World S → Ended × World S
    run [] w = (all_delivered, w)
    run (refused_line ∷ inputs) w = (bad_line, w)
    run (ended ∷ inputs) w = (cancelled, w)
    run (read env line attempts ∷ inputs) w =
        run_record attempts (λ w'. run inputs w') (metered consumed_one w) (prepare env line)
