-- ===== src/Sink/Loop/Gauges.antt =====
-- The metrics and the readiness that the sinks' loops report to (the Metrics and Healther interfaces
-- of internal/kafkasink, filesink, webhooksink, awssink, pgsink and redissink), and the attempts at a
-- delivery. The observed durations and what is only logged are left out.
use evm_tools.Base.{
  ℕ, ◌+◌, ◌-◌, ◌≡◌, inl, inr, refl, arith, Bool, true, false, Bool-cases, Option, none, some,
  if◌then◌else◌, ltb,
}

-- The counters, and the gauges with what is reported to readiness: SetReachable (SetWritable,
-- SetEndpointReachable, SetBrokerReachable) and SetEmitBlocked.
pub record Meters : Type 0 where
  pub consumed : ℕ
  pub filtered : ℕ
  pub delivered : ℕ
  pub failures : ℕ
  pub retries : ℕ
  pub consecutive : ℕ
  pub blocked : Bool
  pub backoff : ℕ
  pub reachable : Bool
  pub emit_blocked : ℕ

-- One round of the retries: whether the context has ended before it, in the call or in the sleep after
-- it, what the world does in the call, the clock before and after it, and the draws of the jitter.
pub record Attempt (A : Type 0) : Type 0 where
  pub ended_before : Bool
  pub answer : A
  pub ended_in_call : Bool
  pub start : ℕ
  pub finish : ℕ
  pub draw : ℕ → ℕ
  pub ended_in_sleep : Bool

-- The variables of the retries: how many attempts have failed, and when the first one began.
pub record Progress : Type 0 where
  pub attempt : ℕ
  pub blocked_since : Option ℕ

unfoldable pub consumed_one : Meters → Meters
consumed_one t = record t { consumed = t.consumed + 1 }

unfoldable pub filtered_one : Meters → Meters
filtered_one t = record t { filtered = t.filtered + 1 }

unfoldable pub delivered_one : Meters → Meters
delivered_one t = record t { delivered = t.delivered + 1 }

unfoldable pub failed_one : Meters → Meters
failed_one t = record t { failures = t.failures + 1 }

-- clearBlocked
unfoldable pub clear_blocked : Meters → Meters
clear_blocked t = record t { blocked = false; backoff = 0; emit_blocked = 0 }

-- What a confirmed call reports.
unfoldable pub recovered : Progress → Meters → Meters
unfolding clear_blocked
recovered p t =
    let u = if ltb 0 p.attempt then clear_blocked t else t in
    record u { reachable = true; consecutive = 0 }

abbrev pub or_now : Option ℕ → ℕ → ℕ
or_now none now = now
or_now (some since) now = since

-- The variables behind a failed attempt.
unfoldable pub next_progress : {A : Type 0} → Attempt A → Progress → Progress
next_progress a p = record {
  attempt = p.attempt + 1;
  blocked_since = some (or_now p.blocked_since a.start);
}

-- What is reported before the sleep.
unfoldable pub backing_off : {A : Type 0} → Attempt A → Progress → ℕ → Meters → Meters
backing_off a p delay t = record t {
  blocked = true;
  consecutive = p.attempt;
  retries = t.retries + 1;
  reachable = false;
  emit_blocked = a.finish - or_now p.blocked_since a.start;
  backoff = delay;
}

-- No failure and no blocking is reported.
pub record IsCalm (t : Meters) : Type 0 where
  pub none_failed : t.consecutive ≡ 0
  pub unblocked : t.blocked ≡ false
  pub no_backoff : t.backoff ≡ 0
  pub no_wait : t.emit_blocked ≡ 0

pub recovered-IsCalm :
    (p : Progress) (t : Meters) → (p.attempt ≡ 0 → IsCalm t) → IsCalm (recovered p t)
unfolding recovered
recovered-IsCalm p t h = elim (Bool-cases (ltb 0 p.attempt)) [
  | inl some_failed ↦
      rw some_failed
        (record { none_failed = refl; unblocked = refl; no_backoff = refl; no_wait = refl })
  | inr first ↦
      let calm = h (ground arith) in
      rw first (record {
        none_failed = refl;
        unblocked = calm.unblocked;
        no_backoff = calm.no_backoff;
        no_wait = calm.no_wait;
      })
]

-- probeOnce: nothing once the context has ended, else whether the destination answers the probe.
unfoldable pub probe_once : Bool → Bool → Meters → Meters
probe_once ended reachable t = if ended then t else record t { reachable = reachable }
