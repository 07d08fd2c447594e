-- ===== src/Balance/Apply/Faults.antt =====
-- Where the errors of a tick's emission come from (internal/balance/balance.go).
use evm_tools.Base.{ℕ, ◌≡◌, refl, Option, none, some, List, [], ◌∷◌, ℤ}
use evm_tools.Base.Exec.{Outcome, done, failed, panicked, continue}
use evm_tools.Record.Envelope.{Envelope}
use evm_tools.Stream.State.{Errno}
use evm_tools.Balance.Apply.{
  Reading, Poller, taken, emit_env, apply_change, apply_reading, apply_readings, commit_reading,
  peek_changed,
}

module _ {D : Type 0} (out : ℕ → Option Errno) where
  -- An error comes from the output.
  abbrev pub FromOutput : Outcome Errno (Unit {0}) × Poller D → Type 0
  FromOutput (done x, p) = Unit
  FromOutput (failed e, p) = (n : ℕ) × (out n ≡ some e)
  FromOutput (panicked, p) = ⊥

  emit-FromOutput : (env : Envelope D) (p : Poller D) → FromOutput (emit_env out env p)
  unfolding emit_env
  emit-FromOutput env p = by_answer (out p.attempts) refl
    where
      by_answer : (o : Option Errno) → out p.attempts ≡ o → FromOutput (taken o env p)
      by_answer none e = tt
      by_answer (some x) e = (p.attempts, e)

  then-FromOutput :
      (r : Outcome Errno (Unit {0}) × Poller D) (f : Poller D → Outcome Errno (Unit {0}) × Poller D)
      → FromOutput r
      → ((q : Poller D) → FromOutput (f q))
      → FromOutput (continue r.0 (λ _. f) r.1)
  then-FromOutput (done x, p) f h next = next p
  then-FromOutput (failed e, p) f h next = h
  then-FromOutput (panicked, p) f h next = h

  change-FromOutput :
      (r : Reading D) (o : Option ℤ) (p : Poller D) → FromOutput (apply_change out r o p)
  unfolding apply_change
  change-FromOutput r none p = tt
  change-FromOutput r (some prev) p =
      then-FromOutput (emit_env out (r.change prev) p) (commit_reading r)
        (emit-FromOutput (r.change prev) p) (λ q. tt)

  reading-FromOutput : (r : Reading D) (p : Poller D) → FromOutput (apply_reading out r p)
  unfolding apply_reading
  reading-FromOutput r p =
      then-FromOutput (emit_env out r.sample p)
        (λ q. apply_change out r (peek_changed q.prior r.key r.cur) q) (emit-FromOutput r.sample p)
        (λ q. change-FromOutput r (peek_changed q.prior r.key r.cur) q)

  pub readings-FromOutput :
      (rs : List (Reading D)) (p : Poller D) → FromOutput (apply_readings out rs p)
  unfolding apply_readings
  readings-FromOutput [] p = tt
  readings-FromOutput (r ∷ rs) p =
      then-FromOutput (apply_reading out r p) (apply_readings out rs) (reading-FromOutput r p)
        (λ q. readings-FromOutput rs q)
