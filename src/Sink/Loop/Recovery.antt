-- ===== src/Sink/Loop/Recovery.antt =====
-- The sinks' loop at a destination that recovers.
use evm_tools.Base.{
  ℕ, ◌+◌, ◌≡◌, ◌≢◌, ◌⊎◌, inl, inr, refl, sym, ◌∙◌, arith, if_cases, suc, Bool, true, false, List,
  [], ◌∷◌, length, subst, Text, ◌&&◌,
}
use evm_tools.Record.Envelope.{Envelope}
use evm_tools.Sink.Loop.Gauges.{Attempt, Progress, consumed_one, filtered_one, delivered_one}
use evm_tools.Sink.Loop.Accounts.{retries-counts}
use evm_tools.Sink.Loop.Wanted.{messages, prepared}
use evm_tools.Sink.Loop.{
  Answered, confirmed, transient, Destination, World, Delivery, sure, unsure, rejected, retrying,
  Prepared, deliver, skip, refuse, Input, read, refused_line, ended, Ended, all_delivered,
  after_answer, delivery_round, retries, deliver_with_retry, started, metered, after_delivery,
  run_record, run,
}

-- A destination whose answer is the world's alone.
abbrev pub Answers : {S A M : Type 0} → Destination S A M → (A → Answered) → Type 0
Answers {S} {A} {M} d answer = (m : M) (a : A) (s : S) → (d.call m a s).0 ≡ answer a

-- The context goes on, and some attempt is confirmed with only transient errors before it.
abbrev pub Recovers : {A : Type 0} → (A → Answered) → List (Attempt A) → Type 0
Recovers answer [] = ⊥
Recovers answer (a ∷ attempts) =
    (a.ended_before ≡ false)
    × (a.ended_in_call ≡ false)
    × (a.ended_in_sleep ≡ false)
    × ((answer a.answer ≡ confirmed) ⊎ ((answer a.answer ≡ transient) × Recovers answer attempts))

abbrev IsSure : {S : Type 0} → Delivery × World S → Type 0
IsSure r = r.0 ≡ sure

off : (b : Bool) {c : Bool} → c ≡ false → (b && c) ≡ false
off true e = e
off false e = refl

moved : {n b : ℕ} (k : ℕ) → n ≡ b → n + 1 + k ≡ b + suc k
moved k h = omega arith

module _ {S A M : Type 0} (d : Destination S A M) (answer : A → Answered)
    (answers : Answers d answer) where
  retried :
      (a : Attempt A) (p : Progress) (again : Progress → World S → Delivery × World S) (w : World S)
      → a.ended_in_call ≡ false
      → a.ended_in_sleep ≡ false
      → ((p' : Progress) (w' : World S) → (again p' w').0 ≡ sure)
      → (after_answer d a p again w transient).0 ≡ sure
  unfolding after_answer
  retried a p again w live awake h =
      if_cases IsSure (d.rechecks && a.ended_in_call) (λ e. absurd (cc (e, off d.rechecks live)))
        (λ _. if_cases IsSure a.ended_in_sleep (λ e. absurd (cc (e, awake))) (λ _. h _ _))

  by_answer :
      (a : Attempt A) (p : Progress) (again : Progress → World S → Delivery × World S) (m : M)
      (w : World S) (r : Answered)
      → a.ended_before ≡ false
      → answer a.answer ≡ r
      → ((v : World S) → IsSure (after_answer d a p again v r))
      → IsSure (delivery_round d a m p again w)
  unfolding delivery_round
  by_answer a p again m w r before e h =
      if_cases IsSure a.ended_before (λ t. absurd (cc (t, before)))
        (λ _.
          subst
            (λ x.
              IsSure
                (after_answer d a p again (record w { dest = (d.call m a.answer w.dest).1 }) x))
            (sym (answers m a.answer w.dest ∙ e)) (h _))

  retries-IsSure :
      (attempts : List (Attempt A)) (m : M) (p : Progress) (w : World S)
      → Recovers answer attempts
      → IsSure (retries d attempts m p w)
  unfolding retries after_answer
  retries-IsSure [] m p w h = absurd h
  retries-IsSure (a ∷ attempts) m p w (before, live, awake, inl ok) =
      by_answer a p _ m w confirmed before ok (λ v. refl)
  retries-IsSure (a ∷ attempts) m p w (before, live, awake, inr (again, rest)) =
      by_answer a p _ m w transient before again (λ v.
        retried a p (λ p' w'. retries d attempts m p' w') v live awake
          (λ p' w'. retries-IsSure attempts m p' w' rest))

  -- Run has come to the end of its input, with that many records counted as delivered.
  abbrev pub IsThrough : ℕ → Ended × World S → Type 0
  IsThrough n r = (r.0 ≡ all_delivered) × (r.1.meters.delivered ≡ n)

  module _ {D : Type 0} (prepare : Envelope D → Text → Prepared M) where
    -- No line or record is refused, and the attempts at each record that is not filtered out recover.
    abbrev pub IsRecoverable : List (Input D A) → Type 0
    IsRecoverable [] = Unit
    IsRecoverable (refused_line ∷ inputs) = ⊥
    IsRecoverable (ended ∷ inputs) = ⊥
    IsRecoverable (read env line attempts ∷ inputs) =
        (prepare env line ≢ refuse)
        × (prepare env line ≢ skip → Recovers answer attempts)
        × IsRecoverable inputs

    run_record-IsThrough :
        (attempts : List (Attempt A)) (inputs : List (Input D A)) (w : World S) (p : Prepared M)
        → p ≢ refuse
        → (p ≢ skip → Recovers answer attempts)
        → ((v : World S)
            → IsThrough
                (v.meters.delivered + length (messages prepare inputs))
                (run d prepare inputs v))
        → IsThrough
            (w.meters.delivered + length (prepared p (messages prepare inputs)))
            (run_record d attempts (λ v. run d prepare inputs v) (metered consumed_one w) p)
    unfolding run_record deliver_with_retry consumed_one filtered_one after_delivery delivered_one
    run_record-IsThrough attempts inputs w (deliver m) good recovers next =
        let v : World S = metered consumed_one w in
        let tried = retries d attempts m (started d) v in
        delivered_next tried (retries-IsSure attempts m (started d) v (recovers (λ e. cc e)))
          (retries-counts d attempts m (started d) v).same_delivered
      where
        delivered_next :
            (r : Delivery × World S)
            → r.0 ≡ sure
            → r.1.meters.delivered ≡ w.meters.delivered
            → IsThrough
                (w.meters.delivered + suc (length (messages prepare inputs)))
                (after_delivery d (λ v. run d prepare inputs v) r)
        delivered_next (sure, u) e same =
            subst (λ n. IsThrough n (run d prepare inputs (metered delivered_one u))) (moved _ same)
              (next (metered delivered_one u))
        delivered_next (unsure, u) e same = cc e
        delivered_next (rejected, u) e same = cc e
        delivered_next (retrying, u) e same = cc e
    run_record-IsThrough attempts inputs w skip good recovers next =
        next (metered (λ t. filtered_one (consumed_one t)) w)
    run_record-IsThrough attempts inputs w refuse good recovers next = absurd (good refl)

    -- If no line and no record is refused, the context does not end, and the destination answers each
    -- record that is not filtered out with a confirmation after finitely many errors that may be
    -- retried, then Run comes to the end of its input and has counted every message as delivered.
    pub run_recovers :
        (inputs : List (Input D A)) (w : World S)
        → IsRecoverable inputs
        → IsThrough (w.meters.delivered + length (messages prepare inputs)) (run d prepare inputs w)
    unfolding run
    run_recovers [] w h = (refl, omega arith)
    run_recovers (refused_line ∷ inputs) w h = absurd h
    run_recovers (ended ∷ inputs) w h = absurd h
    run_recovers (read env line attempts ∷ inputs) w (good, recovers, rest) =
        run_record-IsThrough attempts inputs w (prepare env line) good recovers
          (λ v. run_recovers inputs v rest)
