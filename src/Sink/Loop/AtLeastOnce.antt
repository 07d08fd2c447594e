-- ===== src/Sink/Loop/AtLeastOnce.antt =====
-- What the sinks' loop leaves at a destination, for every destination that keeps a contract.
mod Copies
mod Attempts
use evm_tools.Base.{
  ℕ, zero, suc, ◌+◌, ◌≡◌, ◌≢◌, ◌⊎◌, inl, inr, refl, sym, ap, ◌∙◌, arith, Bool, true, false,
  if_either, subst, List, [], ◌∷◌, ◌++◌, append-nil, append_assoc, length, take, drop, Text, ◌&&◌,
}
use evm_tools.Record.Envelope.{Envelope}
use evm_tools.Sink.Loop.Gauges.{
  Attempt, Progress, Meters, consumed_one, filtered_one, delivered_one, failed_one, clear_blocked,
  recovered, next_progress, backing_off,
}
use evm_tools.Sink.Loop.Wanted.{prepared, messages, IsWhole}
use evm_tools.Sink.Loop.Accounts.{retries-counts}
use evm_tools.Sink.Loop.{
  Answered, confirmed, transient, permanent, Destination, World, Delivery, sure, unsure, rejected,
  retrying, Prepared, deliver, skip, refuse, Input, read, refused_line, ended, Ended, all_delivered,
  cancelled, bad_line, bad_record, failed, running, after_answer, delivery_round, retries,
  deliver_with_retry, started, metered, after_delivery, run_record, run,
}
pub use Copies.*
pub use Attempts.*

module _ {S A M : Type 0} {d : Destination S A M} (c : Contract d) where
  open c use {Holds, Torn, Admits, takes}

  -- Behind the messages `l`, at most copies of the next one, which may have torn the destination.
  abbrev pub LeftNext : List M → List M → S → Type 0
  LeftNext l [] s = Holds l s
  LeftNext l (m ∷ ms) s = (k : ℕ) × Left c (l ++ copies k m) m s

  -- What Run leaves of the messages `ms`, behind those of `l`: the first `n` of them, which it has
  -- counted, each at least once and in order, and then at most copies of the next one. At the end of
  -- the input, `Whole` holds of it, and those are all of them.
  abbrev pub IsDelivered : Type 0 → List M → List M → ℕ → Ended × World S → Type 0
  IsDelivered Whole ms l before r =
      (n : ℕ) × (front : List M) × (r.1.meters.delivered ≡ before + n)
      × Sent (take n ms) front
      × (((r.0 ≡ all_delivered) × Whole × (length ms ≡ n) × Holds (l ++ front) r.1.dest)
          ⊎ ((r.0 ≢ all_delivered) × LeftNext (l ++ front) (drop n ms) r.1.dest))

  none_taken :
      (Whole : Type 0) (ms l : List M) (w : World S) (e : Ended)
      → e ≢ all_delivered
      → LeftNext l ms w.dest
      → IsDelivered Whole ms l w.meters.delivered (e, w)
  none_taken Whole ms l w e h left = (
    0,
    [],
    omega arith,
    nothing_sent,
    inr (h, subst (λ x. LeftNext x ms w.dest) (sym (append-nil l)) left),
  )

  untouched : (ms l : List M) (s : S) → Holds l s → LeftNext l ms s
  untouched [] l s h = h
  untouched (m ∷ ms) l s h = (0, inl (as_before c l s h))

  went_on :
      (Whole : Type 0) (k : ℕ) (m : M) (ms l : List M) (before : ℕ) (r : Ended × World S)
      → IsDelivered Whole ms (l ++ copies (suc k) m) (before + 1) r
      → IsDelivered Whole (m ∷ ms) l before r
  went_on Whole k m ms l before r (n, front, counted, sent_front, left) =
      let here = copies (suc k) m in
      let e = append_assoc l here front in
      (
        suc n,
        here ++ front,
        omega arith,
        copies-Sent k m (take n ms) front sent_front,
        elim left [
          | inl (done, whole, sized, held) ↦
              inl (done, whole, ap suc sized, subst (λ x. Holds x r.1.dest) e held)
          | inr (early, rest) ↦ inr (early, subst (λ x. LeftNext x (drop n ms) r.1.dest) e rest)
        ],
      )

  weaker :
      (W V : Type 0) (ms l : List M) (before : ℕ) (r : Ended × World S)
      → (W → V)
      → IsDelivered W ms l before r
      → IsDelivered V ms l before r
  weaker W V ms l before r f (n, front, counted, sent_front, left) = (
    n,
    front,
    counted,
    sent_front,
    elim left [
      | inl (done, whole, sized, held) ↦ inl (done, f whole, sized, held)
      | inr rest ↦ inr rest
    ],
  )

  after_delivery-IsDelivered :
      (Whole : Type 0) (m : M) (ms l : List M) (before : ℕ) (rest : World S → Ended × World S)
      (r : Delivery × World S)
      → ((l' : List M) (w : World S)
          → Holds l' w.dest
          → IsDelivered Whole ms l' w.meters.delivered (rest w))
      → r.1.meters.delivered ≡ before
      → IsTried c l m r
      → IsDelivered Whole (m ∷ ms) l before (after_delivery d rest r)
  unfolding after_delivery delivered_one
  after_delivery-IsDelivered Whole m ms l before rest (sure, w) next same (k, h) =
      let w' : World S = metered delivered_one w in
      went_on Whole k m ms l before (rest w') (
        subst (λ n. IsDelivered Whole ms (l ++ copies (suc k) m) (n + 1) (rest w')) same
          (next (l ++ copies (suc k) m) w' h))
  after_delivery-IsDelivered Whole m ms l before rest (unsure, w) next same h =
      subst (λ n. IsDelivered Whole (m ∷ ms) l n (cancelled, w)) same
        (none_taken Whole (m ∷ ms) l w cancelled (λ e. cc e) h)
  after_delivery-IsDelivered Whole m ms l before rest (rejected, w) next same h =
      subst (λ n. IsDelivered Whole (m ∷ ms) l n (failed, w)) same
        (none_taken Whole (m ∷ ms) l w failed (λ e. cc e) h)
  after_delivery-IsDelivered Whole m ms l before rest (retrying, w) next same h =
      subst (λ n. IsDelivered Whole (m ∷ ms) l n (running, w)) same
        (none_taken Whole (m ∷ ms) l w running (λ e. cc e) h)

  module _ {D : Type 0} (prepare : Envelope D → Text → Prepared M) where
    run_record-IsDelivered :
        (attempts : List (Attempt A)) (inputs : List (Input D A)) (l : List M) (w : World S)
        (p : Prepared M)
        → ((l' : List M) (w' : World S)
            → Holds l' w'.dest
            → IsDelivered
                (IsWhole prepare inputs)
                (messages prepare inputs)
                l'
                w'.meters.delivered
                (run d prepare inputs w'))
        → AllAttempts Admits attempts
        → Holds l w.dest
        → IsDelivered
            ((p ≢ refuse) × IsWhole prepare inputs)
            (prepared p (messages prepare inputs))
            l
            w.meters.delivered
            (run_record d attempts (λ w'. run d prepare inputs w') (metered consumed_one w) p)
    unfolding run_record deliver_with_retry consumed_one filtered_one
    run_record-IsDelivered attempts inputs l w (deliver m) next ok h =
        let w' : World S = metered consumed_one w in
        after_delivery-IsDelivered _ m (messages prepare inputs) l w.meters.delivered
          (λ v. run d prepare inputs v) (retries d attempts m (started d) w')
          (λ l' v held.
            weaker _ _ _ l' _ (run d prepare inputs v) (λ whole. (λ e. cc e, whole))
              (next l' v held))
          (retries-counts d attempts m (started d) w').same_delivered
          (retries-IsTried c attempts m (started d) l w' ok h)
    run_record-IsDelivered attempts inputs l w skip next ok h =
        let w' : World S = metered (λ t. filtered_one (consumed_one t)) w in
        weaker _ _ _ l _ (run d prepare inputs w') (λ whole. (λ e. cc e, whole)) (next l w' h)
    run_record-IsDelivered attempts inputs l w refuse next ok h =
        none_taken _ [] l (metered consumed_one w) bad_record (λ e. cc e) h

    -- Whatever the destination answers, within its contract, and whenever the context ends: the
    -- messages that Run has counted as delivered are the first ones of its input, and the destination
    -- has taken each of them at least once and in order, before any copy of the next one, and nothing
    -- else, except that, where Run has not come to the end of the input, the next one may have left it
    -- torn behind them. If Run returns at the end of its input, then no line and no record was
    -- refused, and those are all its messages.
    pub run_at_least_once :
        (inputs : List (Input D A)) (l : List M) (w : World S)
        → AllInputs Admits inputs
        → Holds l w.dest
        → IsDelivered
            (IsWhole prepare inputs)
            (messages prepare inputs)
            l
            w.meters.delivered
            (run d prepare inputs w)
    unfolding run
    run_at_least_once [] l w ok h =
        (0, [], omega arith, nothing_sent, inl (refl, tt, refl, as_before c l w.dest h))
    run_at_least_once (refused_line ∷ inputs) l w ok h = none_taken _ [] l w bad_line (λ e. cc e) h
    run_at_least_once (ended ∷ inputs) l w ok h = none_taken _ [] l w cancelled (λ e. cc e) h
    run_at_least_once (read env line attempts ∷ inputs) l w ok h =
        run_record-IsDelivered attempts inputs l w (prepare env line)
          (λ l' w' held. run_at_least_once inputs l' w' ok.1 held) ok.0 h
