-- ===== src/Stream/Run/Resume.antt =====
-- The cursor that Run saves, from round to round.
use evm_tools.Base.{
  ℕ, zero, suc, ◌+◌, ◌≡◌, ◌⊎◌, ◌∙◌, sym, inl, inr, refl, arith, true, false, not, ◌&&◌, ◌==◌,
  Bool-cases, none, some, Option, ℤ, Text, ◌<◌, ◌%◌, ◌^◌, List, [], ◌∷◌, All, ltb,
}
use evm_tools.Base.Exec.{Outcome, done, failed, panicked}
use evm_tools.Stream.State.{Stream, Fault, Emitter}
use evm_tools.Stream.Poll.{Progress, poll_once}
use evm_tools.Rpc.Types.{Answer}
use evm_tools.Stream.Run.Start.{
  Loaded, load_failed, no_cursor, cursor, is_foreign, start_at, resolve_start,
}
use evm_tools.Stream.Run.{
  Cursor, Runner, Round, Verdict, goes_on, stopped, output_gone, crashed, apply_pending_reload,
  should_save_checkpoint, is_terminal, poll_failed, save_cursor, poll_succeeded, after_round,
  run_round, run_rounds,
}

-- The file holds the cursor that was saved last, or none was saved since the start.
abbrev pub IsKept : ℕ → Runner → Type 0
IsKept start r =
    ((r.saved ≡ none) × (r.last_saved ≡ start))
    ⊎ ((c : Cursor) × (r.saved ≡ some c) × (c.last_block + 1 ≡ r.last_saved))

-- And that is the block before the next one, so that a new run would begin where this one stands.
abbrev pub IsResumable : ℕ → Runner → Type 0
IsResumable start r = IsKept start r × ((r.last_saved ≡ r.next_block) ⊎ (r.next_block ≡ 0))

abbrev pub Saves : Round → Type 0
Saves round = (round.checkpoint ≡ true) × (round.save_works ≡ true)

unchanged :
    (next last : ℕ) → (ltb 0 next && not (next == last)) ≡ false → (last ≡ next) ⊎ (next ≡ 0)
unchanged zero last h = inr refl
unchanged (suc n) last h = elim (Bool-cases (suc n == last)) [
  | inl same ↦ inl (ground arith)
  | inr other ↦ absurd (ground arith)
]

save-IsResumable :
    (start : ℕ) (round : Round) (r : Runner)
    → Saves round
    → IsKept start r
    → IsResumable start (save_cursor round r)
unfolding save_cursor should_save_checkpoint
save-IsResumable start round r (on, works) kept =
    elim (Bool-cases (ltb 0 r.next_block && not (r.next_block == r.last_saved))) [
      | inl changed ↦ rw (on, works, changed) (inr (_, refl, ground arith), inl refl)
      | inr same ↦ rw (on, works, same) (kept, unchanged r.next_block r.last_saved same)
    ]

module _ (start : ℕ) (round : Round) where
  failed-IsResumable :
      (r : Runner) (s : Stream) (e : Fault)
      → IsResumable start r
      → IsResumable start (poll_failed round r s e).1
  unfolding poll_failed
  failed-IsResumable r s e h = elim (Bool-cases round.ended_in_poll) [
    | inl over ↦ rw over h
    | inr live ↦ elim (Bool-cases (is_terminal e)) [
      | inl dead ↦ rw (live, dead) h
      | inr retried ↦ elim (Bool-cases round.ended_in_sleep) [
        | inl over ↦ rw (live, retried, over) h
        | inr awake ↦ rw (live, retried, awake) h
      ]
    ]
  ]

  after_round-IsResumable :
      (r : Runner) (p : Outcome Fault Progress × Stream)
      → Saves round
      → IsResumable start r
      → IsResumable start (after_round round r p).1
  unfolding after_round poll_succeeded
  after_round-IsResumable r (done (next, none), s) saves h =
      save-IsResumable start round (record r { stream = s; next_block = next; failures = 0 }) saves
        h.0
  after_round-IsResumable r (done (next, some e), s) saves h = failed-IsResumable r s e h
  after_round-IsResumable r (failed e, s) saves h = failed-IsResumable r s e h
  after_round-IsResumable r (panicked, s) saves h = h

-- Any number of rounds keep it so.
rounds-IsResumable :
    (max_elements : ℕ) (out : Emitter) (start : ℕ) (rounds : List Round) (r : Runner)
    → All Saves rounds
    → IsResumable start r
    → IsResumable start (run_rounds max_elements out rounds r).1
unfolding run_rounds run_round
rounds-IsResumable max_elements out start [] r saves h = h
rounds-IsResumable max_elements out start (round ∷ rounds) r saves h =
    next (run_round max_elements out round r)
      (after_round-IsResumable start round r
        (poll_once max_elements out round.poll r.next_block
          (apply_pending_reload round.reload r.stream))
        saves.0 h)
      (λ r'. rounds-IsResumable max_elements out start rounds r' saves.1)
  where
    next :
        (ended : Verdict × Runner)
        → IsResumable start ended.1
        → ((r' : Runner)
            → IsResumable start r'
            → IsResumable start (run_rounds max_elements out rounds r').1)
        → IsResumable start
            (elim ended.0 as (λ x. Verdict × Runner) [
              | goes_on ↦ run_rounds max_elements out rounds ended.1
              | stopped ↦ ended
              | output_gone ↦ ended
              | crashed ↦ ended
            ]).1
    next (goes_on, r') h' on = on r' h'
    next (stopped, r') h' on = h'
    next (output_gone, r') h' on = h'
    next (crashed, r') h' on = h'

-- The cursor that a start has found in the file, if it could be read.
abbrev pub cursor_in : Option Loaded → Option Cursor
cursor_in none = none
cursor_in (some load_failed) = none
cursor_in (some no_cursor) = none
cursor_in (some (cursor c)) = some c

-- A cursor that was found is not another chain's, and the block after it is a uint64.
abbrev pub IsOwn : ℤ → Option Loaded → Type 0
IsOwn chain_id none = Unit {0}
IsOwn chain_id (some load_failed) = Unit {0}
IsOwn chain_id (some no_cursor) = Unit {0}
IsOwn chain_id (some (cursor c)) = (is_foreign c chain_id ≡ false) × (c.last_block + 1 < 2 ^ 64)

-- The loop's variables at the start of Run, which begins at the block `start`.
abbrev pub HasStarted : Option Loaded → ℕ → Runner → Type 0
HasStarted loaded start r =
    (r.next_block ≡ start) × (r.last_saved ≡ start) × (r.saved ≡ cursor_in loaded)

started-IsKept :
    (chain_id : ℤ) (loaded : Option Loaded) (from_block : Text) (head : Answer ℕ) (start : ℕ)
    (r : Runner)
    → resolve_start chain_id loaded from_block head ≡ start_at start
    → IsOwn chain_id loaded
    → HasStarted loaded start r
    → IsKept start r
unfolding resolve_start
started-IsKept chain_id none from_block head start r h own (next, last, saved) = inl (saved, last)
started-IsKept chain_id (some load_failed) from_block head start r h own (next, last, saved) =
    inl (saved, last)
started-IsKept chain_id (some no_cursor) from_block head start r h own (next, last, saved) =
    inl (saved, last)
started-IsKept chain_id (some (cursor c)) from_block head start r h own (next, last, saved) =
    let exact : (c.last_block + 1) % 2 ^ 64 ≡ c.last_block + 1 = omega (arith, own.1) in
    let begins : start_at (c.last_block + 1) ≡ start_at start = rw (own.0, exact) at h in
    inr (c, saved, cc (begins, last))

-- A run starts at the block that resolveStart finds, where its checkpoint has no cursor, or one that can
-- not be read, or a cursor of its own chain (and not one of another chain, which stays in the file until
-- the first save); the checkpoint can be written. Then, from the start on and behind any number of
-- rounds, failed polls, rewinds, reloads and panics among them: the cursor in the file is the block before
-- the next one of the loop, or there is none that can be read and the loop stands where it started. (A
-- next block of zero, where nothing was processed yet, is not written.)
pub run_rounds-IsResumable :
    (max_elements : ℕ) (out : Emitter) (chain_id : ℤ) (loaded : Option Loaded) (from_block : Text)
    (head : Answer ℕ) (start : ℕ) (rounds : List Round) (r : Runner)
    → resolve_start chain_id loaded from_block head ≡ start_at start
    → IsOwn chain_id loaded
    → HasStarted loaded start r
    → All Saves rounds
    → IsResumable start (run_rounds max_elements out rounds r).1
run_rounds-IsResumable max_elements out chain_id loaded from_block head start rounds r found own
      begun saves =
    rounds-IsResumable max_elements out start rounds r saves (
      started-IsKept chain_id loaded from_block head start r found own begun,
      inl (begun.1 ∙ sym begun.0),
    )
