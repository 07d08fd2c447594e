-- ===== src/Sink/Loop/Accounts.antt =====
-- What the counters and gauges of the sinks' loop come to.
use evm_tools.Base.{ℕ, ◌+◌, ◌≤◌, ◌≡◌, ◌≢◌, refl, arith, if_either, ◌∙◌, List, [], ◌∷◌, Text, ◌&&◌}
use evm_tools.Record.Envelope.{Envelope}
use evm_tools.Sink.Loop.Gauges.{
  Attempt, Progress, Meters, consumed_one, filtered_one, delivered_one, failed_one, clear_blocked,
  recovered, next_progress, backing_off, IsCalm, recovered-IsCalm,
}
use evm_tools.Sink.Loop.{
  Answered, confirmed, transient, permanent, Destination, World, Delivery, sure, unsure, rejected,
  retrying, Prepared, deliver, skip, refuse, Input, read, refused_line, ended, Ended, all_delivered,
  cancelled, bad_line, bad_record, failed, running, after_answer, delivery_round, retries,
  deliver_with_retry, started, metered, after_delivery, run_record, run,
}

-- The counters that the retries leave alone.
pub record SameCounts (t u : Meters) : Type 0 where
  pub same_consumed : u.consumed ≡ t.consumed
  pub same_filtered : u.filtered ≡ t.filtered
  pub same_delivered : u.delivered ≡ t.delivered

-- What the retries report: the same counts, and after a delivery nothing is blocked any more, if `C`
-- says that nothing was at first.
pub record IsReported (C : Type 0) (t : Meters) (delivery : Delivery) (u : Meters) : Type 0 where
  pub counts : SameCounts t u
  pub calm : C → delivery ≡ sure → IsCalm u

recovered-counts : (p : Progress) (t : Meters) → SameCounts t (recovered p t)
unfolding recovered clear_blocked
recovered-counts p t = record {
  same_consumed = ground arith;
  same_filtered = ground arith;
  same_delivered = ground arith;
}

rejected-counts : (t : Meters) → SameCounts t (clear_blocked (failed_one t))
unfolding failed_one clear_blocked
rejected-counts t = record { same_consumed = refl; same_filtered = refl; same_delivered = refl }

waiting-counts :
    {A : Type 0} (a : Attempt A) (p : Progress) (delay : ℕ) (t : Meters)
    → SameCounts t (backing_off a p delay (failed_one t))
unfolding failed_one backing_off
waiting-counts a p delay t = record {
  same_consumed = refl;
  same_filtered = refl;
  same_delivered = refl;
}

same : (t : Meters) → SameCounts t t
same t = record { same_consumed = refl; same_filtered = refl; same_delivered = refl }

then-IsReported :
    {C : Type 0} {t u v : Meters} {e : Delivery}
    → SameCounts t u
    → IsReported C u e v
    → IsReported C t e v
then-IsReported h r = record {
  counts = record {
    same_consumed = r.counts.same_consumed ∙ h.same_consumed;
    same_filtered = r.counts.same_filtered ∙ h.same_filtered;
    same_delivered = r.counts.same_delivered ∙ h.same_delivered;
  };
  calm = r.calm;
}

gave_up :
    {C : Type 0} {t u : Meters} (e : Delivery) → e ≢ sure → SameCounts t u → IsReported C t e u
gave_up e h c = record { counts = c; calm = λ _ s. absurd (h s) }

abbrev pub CalmAtFirst : Progress → Meters → Type 0
CalmAtFirst p t = p.attempt ≡ 0 → IsCalm t

later : {A : Type 0} (a : Attempt A) (p : Progress) (t : Meters) → CalmAtFirst (next_progress a p) t
unfolding next_progress
later a p t h = absurd (omega arith)

delivered_one-IsCalm : (t : Meters) → IsCalm t → IsCalm (delivered_one t)
unfolding delivered_one
delivered_one-IsCalm t h = ground arith

filtered_one-IsCalm : (t : Meters) → IsCalm t → IsCalm (filtered_one t)
unfolding filtered_one
filtered_one-IsCalm t h = ground arith

consumed_one-IsCalm : (t : Meters) → IsCalm t → IsCalm (consumed_one t)
unfolding consumed_one
consumed_one-IsCalm t h = ground arith

module _ {S A M : Type 0} (d : Destination S A M) where
  abbrev Reported : Type 0 → Meters → Delivery × World S → Type 0
  Reported C t r = IsReported C t r.0 r.1.meters

  answered-IsReported :
      (C : Type 0) (a : Attempt A) (p : Progress) (again : Progress → World S → Delivery × World S)
      (w : World S) (r : Answered)
      → ((p' : Progress) (w' : World S)
          → (C → CalmAtFirst p' w'.meters)
          → Reported C w'.meters (again p' w'))
      → (C → CalmAtFirst p w.meters)
      → Reported C w.meters (after_answer d a p again w r)
  unfolding after_answer
  answered-IsReported C a p again w confirmed next h = record {
    counts = recovered-counts p w.meters;
    calm = λ c _. recovered-IsCalm p w.meters (h c);
  }
  answered-IsReported C a p again w permanent next h =
      if_either (Reported C w.meters) (d.rechecks && a.ended_in_call)
        (gave_up unsure (λ e. cc e) (same w.meters))
        (gave_up rejected (λ e. cc e) (rejected-counts w.meters))
  answered-IsReported C a p again w transient next h =
      let counted = waiting-counts a (next_progress a p) _ w.meters in
      if_either (Reported C w.meters) (d.rechecks && a.ended_in_call)
        (gave_up unsure (λ e. cc e) (same w.meters))
        (if_either (Reported C w.meters) a.ended_in_sleep (gave_up unsure (λ e. cc e) counted)
          (then-IsReported counted (next _ _ (λ _. later a p _))))

  pub retries-IsReported :
      (C : Type 0) (attempts : List (Attempt A)) (m : M) (p : Progress) (w : World S)
      → (C → CalmAtFirst p w.meters)
      → Reported C w.meters (retries d attempts m p w)
  unfolding retries delivery_round
  retries-IsReported C [] m p w h = gave_up retrying (λ e. cc e) (same w.meters)
  retries-IsReported C (a ∷ attempts) m p w h =
      let (r, dest) = d.call m a.answer w.dest in
      if_either (Reported C w.meters) a.ended_before (gave_up unsure (λ e. cc e) (same w.meters)) (
        answered-IsReported C a p (λ p' w'. retries d attempts m p' w') (record w { dest = dest }) r
          (λ p' w'. retries-IsReported C attempts m p' w') h)

  -- The retries leave the counters of records alone.
  pub retries-counts :
      (attempts : List (Attempt A)) (m : M) (p : Progress) (w : World S)
      → SameCounts w.meters (retries d attempts m p w).1.meters
  retries-counts attempts m p w = (retries-IsReported ⊥ attempts m p w (λ h. absurd h)).counts

  -- How many records that were read are neither delivered nor filtered out when Run returns.
  abbrev pub IsPending : Ended → ℕ → Type 0
  IsPending all_delivered n = n ≡ 0
  IsPending bad_line n = n ≡ 0
  IsPending cancelled n = n ≤ 1
  IsPending bad_record n = n ≡ 1
  IsPending failed n = n ≡ 1
  IsPending running n = n ≡ 1

  -- Whether Run returns with nothing reported as blocked.
  abbrev pub IsQuiet : Ended → Meters → Type 0
  IsQuiet all_delivered t = IsCalm t
  IsQuiet bad_line t = IsCalm t
  IsQuiet bad_record t = IsCalm t
  IsQuiet cancelled t = Unit
  IsQuiet failed t = Unit
  IsQuiet running t = Unit

  -- What Run's counters come to, of which `t` were counted before.
  abbrev pub IsAccounted : Meters → Ended × World S → Type 0
  IsAccounted t (e, w) =
      (n : ℕ) × IsPending e n
      × IsQuiet e w.meters
      × (w.meters.consumed + t.filtered + t.delivered
          ≡ t.consumed + w.meters.filtered + w.meters.delivered + n)

  sum_delivered :
      (n : ℕ) (t u v : Meters)
      → SameCounts (consumed_one t) u
      → v.consumed + u.filtered + (u.delivered + 1) ≡ u.consumed + v.filtered + v.delivered + n
      → v.consumed + t.filtered + t.delivered ≡ t.consumed + v.filtered + v.delivered + n
  unfolding consumed_one
  sum_delivered n t u v same sum = omega arith

  sum_filtered :
      (n : ℕ) (t v : Meters)
      → v.consumed + (t.filtered + 1) + t.delivered ≡ t.consumed + 1 + v.filtered + v.delivered + n
      → v.consumed + t.filtered + t.delivered ≡ t.consumed + v.filtered + v.delivered + n
  sum_filtered n t v sum = omega arith

  one_open :
      (t u : Meters)
      → SameCounts (consumed_one t) u
      → u.consumed + t.filtered + t.delivered ≡ t.consumed + u.filtered + u.delivered + 1
  unfolding consumed_one
  one_open t u same = omega arith

  after_delivery-IsAccounted :
      (t : Meters) (rest : World S → Ended × World S) (r : Delivery × World S)
      → ((w : World S) → IsCalm w.meters → IsAccounted w.meters (rest w))
      → Reported (Unit {0}) (consumed_one t) r
      → IsAccounted t (after_delivery d rest r)
  unfolding after_delivery delivered_one
  after_delivery-IsAccounted t rest (sure, u) next h =
      let w : World S = metered delivered_one u in
      let (n, pending, quiet, sum) = next w (delivered_one-IsCalm u.meters (h.calm tt refl)) in
      (n, pending, quiet, sum_delivered n t u.meters (rest w).1.meters h.counts sum)
  after_delivery-IsAccounted t rest (unsure, u) next h =
      (1, omega arith, tt, one_open t u.meters h.counts)
  after_delivery-IsAccounted t rest (rejected, u) next h =
      (1, refl, tt, one_open t u.meters h.counts)
  after_delivery-IsAccounted t rest (retrying, u) next h =
      (1, refl, tt, one_open t u.meters h.counts)

  run_record-IsAccounted :
      (attempts : List (Attempt A)) (rest : World S → Ended × World S) (w : World S)
      (p : Prepared M)
      → ((w' : World S) → IsCalm w'.meters → IsAccounted w'.meters (rest w'))
      → IsCalm w.meters
      → IsAccounted w.meters (run_record d attempts rest (metered consumed_one w) p)
  unfolding run_record deliver_with_retry consumed_one filtered_one
  run_record-IsAccounted attempts rest w (deliver m) next h =
      after_delivery-IsAccounted w.meters rest
        (retries d attempts m (started d) (metered consumed_one w)) next
        (retries-IsReported (Unit {0}) attempts m (started d) (metered consumed_one w)
          (λ _ _. consumed_one-IsCalm w.meters h))
  run_record-IsAccounted attempts rest w skip next h =
      let w' : World S = metered (λ t. filtered_one (consumed_one t)) w in
      let (n, pending, quiet, sum) =
        next w' (filtered_one-IsCalm _ (consumed_one-IsCalm w.meters h)) in
      (n, pending, quiet, sum_filtered n w.meters (rest w').1.meters sum)
  run_record-IsAccounted attempts rest w refuse next h =
      (1, refl, consumed_one-IsCalm w.meters h, omega arith)

  -- Whatever the destination answers and whenever the context ends, a record that Run has read is
  -- counted as filtered out or as delivered, but for the one at which Run stopped: none at the end of
  -- the input or at a refused line, one after an error or without an answer, at most one at the end of
  -- the context. If nothing is reported as failing or blocked at first, nothing is at the end of the
  -- input, at a refused line, or at a record that the sink refuses.
  pub run-IsAccounted :
      {D : Type 0} (prepare : Envelope D → Text → Prepared M) (inputs : List (Input D A))
      (w : World S)
      → IsCalm w.meters
      → IsAccounted w.meters (run d prepare inputs w)
  unfolding run
  run-IsAccounted prepare [] w h = (0, refl, h, omega arith)
  run-IsAccounted prepare (refused_line ∷ inputs) w h = (0, refl, h, omega arith)
  run-IsAccounted prepare (ended ∷ inputs) w h = (0, omega arith, tt, omega arith)
  run-IsAccounted prepare (read env line attempts ∷ inputs) w h =
      run_record-IsAccounted attempts (λ w'. run d prepare inputs w') w (prepare env line)
        (λ w'. run-IsAccounted prepare inputs w') h
