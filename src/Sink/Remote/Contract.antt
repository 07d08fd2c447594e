-- ===== src/Sink/Remote/Contract.antt =====
-- A destination behind a network call, and its contract with the sinks' loop.
use evm_tools.Base.{
  ℕ, ◌≡◌, refl, sym, ap, ◌∙◌, Bool, true, false, List, [], ◌∷◌, ◌++◌, if◌then◌else◌,
}
use evm_tools.Sink.Loop.{
  Answered, confirmed, transient, permanent, Destination, Input, read, refused_line, ended,
}
use evm_tools.Sink.Loop.Gauges.{Attempt}
use evm_tools.Sink.Loop.AtLeastOnce.{Contract, Called, copies, AllAttempts, AllInputs}

-- What a reply comes to. The call may fail although what was sent was taken.
pub record Protocol (R : Type 0) : Type 0 where
  pub answer : R → Answered
  pub taken : R → Bool

-- What is confirmed was taken.
abbrev pub IsHonest : {R : Type 0} → Protocol R → Type 0
IsHonest {R} q = (r : R) → q.answer r ≡ confirmed → q.taken r ≡ true

module _ {S M : Type 0} (put : M → S → S) where
  unfoldable pub remote : {R : Type 0} → Protocol R → ℕ → ℕ → Destination S R M
  remote q base max_delay = record {
    call = λ m r s. (q.answer r, if q.taken r then put m s else s);
    rechecks = true;
    backoff_base = base;
    backoff_max = max_delay;
  }

  abbrev pub put_all : List M → S → S
  put_all [] s = s
  put_all (m ∷ l) s = put_all l (put m s)

  pub put_all-append : (l k : List M) (s : S) → put_all (l ++ k) s ≡ put_all k (put_all l s)
  put_all-append [] k s = refl
  put_all-append (m ∷ l) k s = put_all-append l k (put m s)

  -- The destination is the first one with the messages put into it.
  abbrev pub HoldsFrom : S → List M → S → Type 0
  HoldsFrom first l s = s ≡ put_all l first

  put_more :
      (first : S) (m : M) (l : List M) (s : S) (k : ℕ)
      → HoldsFrom first l s
      → HoldsFrom first (l ++ copies k m) (put_all (copies k m) s)
  put_more first m l s k h =
      ap (λ x. put_all (copies k m) x) h ∙ sym (put_all-append l (copies k m) first)

  pub called :
      (first : S) (m : M) (l : List M) (s : S) (a : Answered) (taken : Bool)
      → (a ≡ confirmed → taken ≡ true)
      → HoldsFrom first l s
      → Called
          (HoldsFrom first)
          (λ l' _ s'. HoldsFrom first l' s')
          l
          m
          (a, if taken then put m s else s)
  called first m l s confirmed true sound h = (0, put_more first m l s 1 h)
  called first m l s confirmed false sound h = cc (sound refl)
  called first m l s transient true sound h = (1, put_more first m l s 1 h)
  called first m l s transient false sound h = (0, put_more first m l s 0 h)
  called first m l s permanent true sound h = (1, put_more first m l s 1 h)
  called first m l s permanent false sound h = (0, put_more first m l s 0 h)

  unfoldable pub remote_contract :
      {R : Type 0} (q : Protocol R) (base max_delay : ℕ) (first : S)
      → IsHonest q
      → Contract (remote q base max_delay)
  unfolding remote
  remote_contract q base max_delay first honest = record {
    Holds = HoldsFrom first;
    Torn = λ l m s. HoldsFrom first l s;
    Admits = λ _. Unit;
    takes = λ m r l s _ h. called first m l s (q.answer r) (q.taken r) (honest r) h;
  }

-- Nothing is asked of the replies.
pub any_attempts : {R : Type 0} (attempts : List (Attempt R)) → AllAttempts (λ _. Unit) attempts
any_attempts [] = tt
any_attempts (a ∷ attempts) = (tt, any_attempts attempts)

pub any_inputs : {D R : Type 0} (inputs : List (Input D R)) → AllInputs (λ _. Unit) inputs
any_inputs [] = tt
any_inputs (refused_line ∷ inputs) = any_inputs inputs
any_inputs (ended ∷ inputs) = any_inputs inputs
any_inputs (read env line attempts ∷ inputs) = (any_attempts attempts, any_inputs inputs)
