-- ===== src/Balance/Apply.antt =====
-- peekChanged, commitValue, emitEnv and the apply loop of sampleAll (internal/balance/balance.go), for
-- readings of values.
pub mod Exact
pub mod Faults
use evm_tools.Base.{
  ℕ, ◌+◌, ◌==◌, Bool, true, false, Option, none, some, List, [], ◌∷◌, ◌++◌, Text, if◌then◌else◌,
  text_eq, ℤ, pos, negsuc,
}
use evm_tools.Base.Exec.{Outcome, done, failed, panicked, Exec, pure, ◌>>=◌, ◌>>◌}
use evm_tools.Record.Envelope.{Envelope}
use evm_tools.Stream.State.{Errno}

abbrev pub int_eq : ℤ → ℤ → Bool
int_eq (pos m) (pos n) = m == n
int_eq (negsuc m) (negsuc n) = m == n
int_eq x y = false

-- The map of prior values.
abbrev pub Prior : Type 0
Prior = List (Text × ℤ)

unfoldable pub prior_of : Prior → Text → Option ℤ
prior_of [] key = none
prior_of ((k, v) ∷ prior) key =
    let behind = prior_of prior key in if text_eq k key then some v else behind

-- commitValue
unfoldable pub commit_value : Text → ℤ → Prior → Prior
commit_value key cur [] = (key, cur) ∷ []
commit_value key cur ((k, v) ∷ prior) =
    let behind = commit_value key cur prior in
    if text_eq k key then (k, cur) ∷ prior else (k, v) ∷ behind

-- peekChanged: the value before, where it differs.
abbrev pub moved_from : Option ℤ → ℤ → Option ℤ
moved_from none cur = none
moved_from (some prev) cur = if int_eq prev cur then none else some prev

unfoldable pub peek_changed : Prior → Text → ℤ → Option ℤ
peek_changed prior key cur = moved_from (prior_of prior key) cur

-- A reading: the sample's record, and the record of a change from a given value.
pub record Reading (D : Type 0) : Type 0 where
  pub key : Text
  pub cur : ℤ
  pub sample : Envelope D
  pub change : ℤ → Envelope D

-- The poller's prior values, and the output as evm-stream's: how often it was called, and what it took.
pub record Poller (D : Type 0) : Type 0 where
  pub prior : Prior
  pub attempts : ℕ
  pub sent : List (Envelope D)

abbrev pub PollerAct : Type 0 → Type 0
PollerAct D = Exec Errno (Poller D) (Unit {0})

abbrev pub taken : {D : Type 0} → Option Errno → Envelope D → PollerAct D
taken none env p = (done tt, record p { attempts = p.attempts + 1; sent = p.sent ++ env ∷ [] })
taken (some e) env p = (failed e, record p { attempts = p.attempts + 1 })

-- emitEnv
unfoldable pub emit_env : {D : Type 0} → (ℕ → Option Errno) → Envelope D → PollerAct D
emit_env out env p = taken (out p.attempts) env p

abbrev pub commit_reading : {D : Type 0} → Reading D → PollerAct D
commit_reading r p = (done tt, record p { prior = commit_value r.key r.cur p.prior })

unfoldable pub apply_change : {D : Type 0} → (ℕ → Option Errno) → Reading D → Option ℤ → PollerAct D
apply_change out r none = commit_reading r
apply_change out r (some prev) = emit_env out (r.change prev) >> commit_reading r

-- One reading of the loop: the change is looked for after the sample has been emitted.
unfoldable pub apply_reading : {D : Type 0} → (ℕ → Option Errno) → Reading D → PollerAct D
apply_reading out r =
    emit_env out r.sample >> λ p. apply_change out r (peek_changed p.prior r.key r.cur) p

-- The loop over the readings.
unfoldable pub apply_readings : {D : Type 0} → (ℕ → Option Errno) → List (Reading D) → PollerAct D
apply_readings out [] = pure tt
apply_readings out (r ∷ rs) = apply_reading out r >> apply_readings out rs
