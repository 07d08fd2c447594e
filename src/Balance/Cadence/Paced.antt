-- ===== src/Balance/Cadence/Paced.antt =====
-- The distance of the samples of the block cadence (internal/balance/balance.go).
use evm_tools.Base.{
  ℕ, ◌+◌, ◌^◌, ◌≤◌, ◌<◌, ◌≡◌, refl, sym, ap, ◌∙◌, subst, arith, true, if_either, if_cases,
  if◌then◌else◌, Option, none, some, List, [], ◌∷◌,
}
use evm_tools.Base.Exec.{done, failed, panicked}
use evm_tools.Stream.State.{Errno, epipe, ebadf, other_errno}
use evm_tools.Balance.Cadence.{
  TickFault, head_failed, read_failed, emit_failed, Verdict, goes_on, stopped, output_gone,
  misconfigured, crashed, Round, Runner, Sampled, sample_all, handle_failure, handle_error,
  round_failed, waited, after_sample, is_due, block_round, run_loop, run_block_cadence,
}

abbrev pub first_of : List ℕ → Option ℕ
first_of [] = none
first_of (h ∷ hs) = some h

-- Each head is at least `every` above the one before.
abbrev pub IsSpaced : ℕ → List ℕ → Type 0
IsSpaced every [] = Unit
IsSpaced every (h ∷ []) = Unit
IsSpaced every (h ∷ g ∷ hs) = (g + every ≤ h) × IsSpaced every (g ∷ hs)

-- The heads are spaced, lie where the next distance fits in uint64, and the last one is remembered.
pub record IsPaced (every : ℕ) {D : Type 0} (r : Runner D) : Type 0 where
  pub spaced : IsSpaced every r.heads
  pub latest : r.last_sampled ≡ first_of r.heads
  pub fits : (h : ℕ) → first_of r.heads ≡ some h → h + every < 2 ^ 64

abbrev pub HeadFits : {D : Type 0} → ℕ → Round D → Type 0
HeadFits every round = (h : ℕ) → round.head ≡ some h → h + every < 2 ^ 64

abbrev pub HeadsFit : {D : Type 0} → ℕ → List (Round D) → Type 0
HeadsFit every [] = Unit
HeadsFit every (round ∷ rounds) = HeadFits every round × HeadsFit every rounds

one_more :
    (every head : ℕ) (last : Option ℕ) (heads : List ℕ)
    → last ≡ first_of heads
    → is_due every last head ≡ true
    → ((g : ℕ) → first_of heads ≡ some g → g + every < 2 ^ 64)
    → IsSpaced every heads
    → IsSpaced every (head ∷ heads)
unfolding is_due
one_more every head last [] e due fits s = tt
one_more every head none (g ∷ heads) e due fits s = cc e
one_more every head (some l) (g ∷ heads) e due fits s =
    let bound = fits g refl in let same : l ≡ g = cc e in (ground arith, s)

module _ {D : Type 0} (every : ℕ) where
  abbrev Keeps : Verdict × Runner D → Type 0
  Keeps v = IsPaced every v.1

  as_before :
      (r q : Runner D)
      → q.heads ≡ r.heads
      → q.last_sampled ≡ r.last_sampled
      → IsPaced every r
      → IsPaced every q
  as_before r q same last h = record {
    spaced = subst (IsSpaced every) (sym same) h.spaced;
    latest = last ∙ h.latest ∙ ap first_of (sym same);
    fits = λ x e. h.fits x (ap first_of (sym same) ∙ e);
  }

  handled-IsPaced :
      (round : Round D) (e : TickFault) (r : Runner D)
      → IsPaced every r
      → Keeps (handle_error round e r)
  unfolding handle_error handle_failure
  handled-IsPaced round (emit_failed epipe) r h = h
  handled-IsPaced round (emit_failed ebadf) r h = h
  handled-IsPaced round (emit_failed other_errno) r h = as_before r _ refl refl h
  handled-IsPaced round (read_failed e) r h =
      if_either Keeps e.permanent h (as_before r _ refl refl h)
  handled-IsPaced round head_failed r h = as_before r _ refl refl h

  failed-IsPaced :
      (round : Round D) (e : TickFault) (r : Runner D)
      → IsPaced every r
      → Keeps (round_failed round e r)
  unfolding round_failed
  failed-IsPaced round e r h = if_either Keeps round.ended_in_poll h (handled-IsPaced round e r h)

  sampled-IsPaced :
      (round : Round D) (head : ℕ) (r : Runner D) (s : Sampled D)
      → head + every < 2 ^ 64
      → is_due every r.last_sampled head ≡ true
      → IsPaced every r
      → Keeps (after_sample round head r s)
  unfolding after_sample
  sampled-IsPaced round head r (done x, p) fits due h = record {
    spaced = one_more every head r.last_sampled r.heads h.latest due h.fits h.spaced;
    latest = refl;
    fits = λ x e. subst (λ y. y + every < 2 ^ 64) (cc e) fits;
  }
  sampled-IsPaced round head r (failed e, p) fits due h =
      failed-IsPaced round e _ (as_before r (record r { poller = p }) refl refl h)
  sampled-IsPaced round head r (panicked, p) fits due h = as_before r _ refl refl h

  round-IsPaced :
      (out : ℕ → Option Errno) (round : Round D) (r : Runner D)
      → HeadFits every round
      → IsPaced every r
      → Keeps (block_round out every round r)
  unfolding block_round
  round-IsPaced out round r fits h = by_head round.head refl
    where
      by_head :
          (o : Option ℕ)
          → round.head ≡ o
          → Keeps (elim o [
            | none ↦ round_failed round head_failed r
            | some head ↦
                if is_due every r.last_sampled head
                then after_sample round head
                    (record r { failures = 0 })
                    (sample_all out round.reads r.poller)
                else waited round (record r { failures = 0 })
          ])
      by_head none e = failed-IsPaced round head_failed r h
      by_head (some head) e =
          let h' = as_before r (record r { failures = 0 }) refl refl h in
          if_cases Keeps (is_due every r.last_sampled head)
            (λ due.
              sampled-IsPaced round head (record r { failures = 0 })
                (sample_all out round.reads r.poller) (fits head e) due h')
            (λ _. h')

  loop-IsPaced :
      (step : Round D → Runner D → Verdict × Runner D) (rounds : List (Round D)) (r : Runner D)
      → ((round : Round D) (q : Runner D)
          → HeadFits every round
          → IsPaced every q
          → Keeps (step round q))
      → HeadsFit every rounds
      → IsPaced every r
      → Keeps (run_loop step rounds r)
  unfolding run_loop
  loop-IsPaced step [] r keeps fits h = h
  loop-IsPaced step (round ∷ rounds) r keeps (first, rest) h =
      let here = keeps round r first h in
      by_verdict (step round r).0 here (loop-IsPaced step rounds (step round r).1 keeps rest here)
    where
      by_verdict :
          (v : Verdict)
          → Keeps (step round r)
          → Keeps (run_loop step rounds (step round r).1)
          → Keeps (elim v [
            | goes_on ↦ run_loop step rounds (step round r).1
            | stopped ↦ step round r
            | output_gone ↦ step round r
            | misconfigured ↦ step round r
            | crashed ↦ step round r
          ])
      by_verdict goes_on here there = there
      by_verdict stopped here there = here
      by_verdict output_gone here there = here
      by_verdict misconfigured here there = here
      by_verdict crashed here there = here

  -- Through any rounds of the block cadence, failed ones, reorgs and restarts of the backoff among them,
  -- two heads that were sampled one after the other are at least every_blocks apart, and the loop
  -- remembers the latest one; the heads leave room for every_blocks below 2^64.
  pub run_block_cadence-IsPaced :
      (out : ℕ → Option Errno) (rounds : List (Round D)) (r : Runner D)
      → HeadsFit every rounds
      → IsPaced every r
      → IsPaced every (run_block_cadence out every rounds r).1
  unfolding run_block_cadence
  run_block_cadence-IsPaced out rounds r fits h =
      loop-IsPaced (block_round out every) rounds r (λ round q. round-IsPaced out round q) fits h
