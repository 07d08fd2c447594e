-- ===== src/Sink/Loop/AtLeastOnce/Attempts.antt =====
-- What the attempts at one message leave at a destination that keeps the contract.
use evm_tools.Base.{
  ℕ, suc, ◌+◌, ◌⊎◌, inl, inr, sym, if_either, subst, List, [], ◌∷◌, ◌++◌, append-nil, ◌&&◌,
}
use evm_tools.Sink.Loop.Gauges.{Attempt, Progress}
use evm_tools.Sink.Loop.{
  Answered, confirmed, transient, permanent, Destination, World, Delivery, sure, unsure, rejected,
  retrying, Input, read, refused_line, ended, after_answer, delivery_round, retries,
}
use evm_tools.Sink.Loop.AtLeastOnce.Copies.{copies, copies-append, copies-append_suc}

-- What a call may do to a destination of which `Holds` says which messages it has taken, in order, and
-- `Torn` what is left of it by a permanent error.
abbrev pub Called :
    {S M : Type 0}
    → (List M → S → Type 0)
    → (List M → M → S → Type 0)
    → List M
    → M
    → Answered × S
    → Type 0
Called Holds Torn l m (confirmed, s) = (k : ℕ) × Holds (l ++ copies (suc k) m) s
Called Holds Torn l m (transient, s) = (k : ℕ) × Holds (l ++ copies k m) s
Called Holds Torn l m (permanent, s) = (k : ℕ) × Torn (l ++ copies k m) m s

-- The contract: where the world does what `Admits` allows, a confirmed call has taken its message at
-- least once, a failed one any number of times, and nothing else has changed.
pub record Contract {S A M : Type 0} (d : Destination S A M) : Type 1 where
  pub Holds : List M → S → Type 0
  pub Torn : List M → M → S → Type 0
  pub Admits : A → Type 0
  pub takes :
      (m : M) (a : A) (l : List M) (s : S)
      → Admits a
      → Holds l s
      → Called Holds Torn l m (d.call m a s)

-- What the world does in the attempts at a record, and in those of an input.
abbrev pub AllAttempts : {A : Type 0} → (A → Type 0) → List (Attempt A) → Type 0
AllAttempts P [] = Unit
AllAttempts P (a ∷ attempts) = P a.answer × AllAttempts P attempts

abbrev pub AllInputs : {D A : Type 0} → (A → Type 0) → List (Input D A) → Type 0
AllInputs P [] = Unit
AllInputs P (refused_line ∷ inputs) = AllInputs P inputs
AllInputs P (ended ∷ inputs) = AllInputs P inputs
AllInputs P (read env line attempts ∷ inputs) = AllAttempts P attempts × AllInputs P inputs

module _ {S A M : Type 0} {d : Destination S A M} (c : Contract d) where
  open c use {Holds, Torn, Admits, takes}

  -- The destination holds the messages, or it is torn behind them by one that failed for good.
  abbrev pub Left : List M → M → S → Type 0
  Left l m s = Holds l s ⊎ Torn l m s

  -- What the retries leave.
  abbrev pub IsTried : List M → M → Delivery × World S → Type 0
  IsTried l m (sure, w) = (k : ℕ) × Holds (l ++ copies (suc k) m) w.dest
  IsTried l m (unsure, w) = (k : ℕ) × Left (l ++ copies k m) m w.dest
  IsTried l m (rejected, w) = (k : ℕ) × Left (l ++ copies k m) m w.dest
  IsTried l m (retrying, w) = (k : ℕ) × Left (l ++ copies k m) m w.dest

  more :
      (k : ℕ) (l : List M) (m : M) (r : Delivery × World S)
      → IsTried (l ++ copies k m) m r
      → IsTried l m r
  more k l m (sure, w) (j, h) = (k + j, subst (λ x. Holds x w.dest) (copies-append_suc k j m l) h)
  more k l m (unsure, w) (j, h) = (k + j, subst (λ x. Left x m w.dest) (copies-append k j m l) h)
  more k l m (rejected, w) (j, h) = (k + j, subst (λ x. Left x m w.dest) (copies-append k j m l) h)
  more k l m (retrying, w) (j, h) = (k + j, subst (λ x. Left x m w.dest) (copies-append k j m l) h)

  pub as_before : (l : List M) (s : S) → Holds l s → Holds (l ++ []) s
  as_before l s h = subst (λ x. Holds x s) (sym (append-nil l)) h

  answered-IsTried :
      (a : Attempt A) (p : Progress) (again : Progress → World S → Delivery × World S) (l : List M)
      (m : M) (w : World S) (r : Answered × S)
      → ((p' : Progress) (l' : List M) (w' : World S)
          → Holds l' w'.dest
          → IsTried l' m (again p' w'))
      → Called Holds Torn l m r
      → IsTried l m (after_answer d a p again (record w { dest = r.1 }) r.0)
  unfolding after_answer
  answered-IsTried a p again l m w (confirmed, s) next h = h
  answered-IsTried a p again l m w (permanent, s) next (k, h) =
      if_either (IsTried l m) (d.rechecks && a.ended_in_call) (k, inr h) (k, inr h)
  answered-IsTried a p again l m w (transient, s) next (k, h) =
      if_either (IsTried l m) (d.rechecks && a.ended_in_call) (k, inl h)
        (if_either (IsTried l m) a.ended_in_sleep (k, inl h)
          (more k l m _ (next _ (l ++ copies k m) _ h)))

  pub retries-IsTried :
      (attempts : List (Attempt A)) (m : M) (p : Progress) (l : List M) (w : World S)
      → AllAttempts Admits attempts
      → Holds l w.dest
      → IsTried l m (retries d attempts m p w)
  unfolding retries delivery_round
  retries-IsTried [] m p l w ok h = (0, inl (as_before l w.dest h))
  retries-IsTried (a ∷ attempts) m p l w ok h =
      if_either (IsTried l m) a.ended_before (0, inl (as_before l w.dest h))
        (answered-IsTried a p (λ p' w'. retries d attempts m p' w') l m w (d.call m a.answer w.dest)
          (λ p' l' w' h'. retries-IsTried attempts m p' l' w' ok.1 h')
          (takes m a.answer l w.dest ok.0 h))
