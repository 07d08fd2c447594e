-- ===== src/Balance/Apply/Exact.antt =====
-- What a tick of evm-balance has emitted and committed (sampleAll of internal/balance/balance.go).
use evm_tools.Base.{◌≡◌, ◌⊎◌, Option, none, some, List, [], ◌∷◌, ◌++◌, ℤ, true, false}
use evm_tools.Base.Exec.{Outcome, done, failed, panicked}
use evm_tools.Record.Envelope.{Envelope}
use evm_tools.Stream.State.{Errno}
use evm_tools.Balance.Apply.{Prior, commit_value, peek_changed, Reading, Poller}

module _ {D : Type 0} where
  abbrev pub change_records : Reading D → Option ℤ → List (Envelope D)
  change_records r none = []
  change_records r (some prev) = r.change prev ∷ []

  -- The records of a reading, and of readings one after another, from the values before them.
  abbrev pub records_of : Prior → Reading D → List (Envelope D)
  records_of prior r = r.sample ∷ change_records r (peek_changed prior r.key r.cur)

  abbrev pub all_records : Prior → List (Reading D) → List (Envelope D)
  all_records prior [] = []
  all_records prior (r ∷ rs) = records_of prior r ++ all_records (commit_value r.key r.cur prior) rs

  -- The values after them.
  abbrev pub all_committed : Prior → List (Reading D) → Prior
  all_committed prior [] = prior
  all_committed prior (r ∷ rs) = all_committed (commit_value r.key r.cur prior) rs

  -- What one reading comes to.
  abbrev pub IsApplied : Reading D → Poller D → Outcome Errno (Unit {0}) × Poller D → Type 0
  IsApplied r p (done u, p') =
      (p'.prior ≡ commit_value r.key r.cur p.prior) × (p'.sent ≡ p.sent ++ records_of p.prior r)
  IsApplied r p (failed e, p') =
      (p'.prior ≡ p.prior) × ((p'.sent ≡ p.sent) ⊎ (p'.sent ≡ p.sent ++ r.sample ∷ []))
  IsApplied r p (panicked, p') = true ≡ false

  -- What the loop comes to: every reading is delivered and committed; or those in front are, and of
  -- the one that failed at most the sample was emitted and nothing was committed.
  abbrev pub IsDelivered :
      List (Reading D) → Poller D → Outcome Errno (Unit {0}) × Poller D → Type 0
  IsDelivered rs p (done u, p') =
      (p'.prior ≡ all_committed p.prior rs) × (p'.sent ≡ p.sent ++ all_records p.prior rs)
  IsDelivered rs p (failed e, p') =
      (front : List (Reading D)) × (r : Reading D) × (back : List (Reading D)) × (rs
        ≡ front ++ r ∷ back)
      × (p'.prior ≡ all_committed p.prior front)
      × ((p'.sent ≡ p.sent ++ all_records p.prior front)
          ⊎ (p'.sent ≡ p.sent ++ all_records p.prior front ++ r.sample ∷ []))
  IsDelivered rs p (panicked, p') = true ≡ false
