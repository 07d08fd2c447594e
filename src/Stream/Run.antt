-- ===== src/Stream/Run.antt =====
-- The loop of Run, with applyPendingReload, setWatchSet and shouldSaveCheckpoint, and where it starts:
-- resolveStart, parseFromBlock and ValidateFromBlock (internal/stream/stream.go).
pub mod Start
pub mod Resume
pub mod LostRewind
use evm_tools.Base.{
  ℕ, zero, suc, ◌+◌, ◌-◌, ◌%◌, ◌^◌, Bool, true, false, not, ◌&&◌, ◌==◌, Option, none, some, List,
  [], ◌∷◌, Text, ltb, if◌then◌else◌, ℤ, pos,
}
use evm_tools.Base.Exec.{Outcome, done, failed, panicked}
use evm_tools.Stream.State.{
  Stream, Fault, rpc, emit, malformed, cancelled, Errno, epipe, ebadf, other_errno,
  ResolvedContract, NativeFilter, Emitter,
}
use evm_tools.Stream.Poll.{PollSource, Progress, poll_once}

pub record Cursor : Type 0 where
  pub chain_id : ℤ
  pub last_block : ℕ

-- The variables of Run, with the cursor that the checkpoint file holds.
pub record Runner : Type 0 where
  pub stream : Stream
  pub next_block : ℕ
  pub last_saved : ℕ
  pub failures : ℕ
  pub saved : Option Cursor

-- What one round of the loop meets: a watch set staged by QueueReload, the node's answers, whether the
-- context has ended when the poll returns with an error, in the backoff's sleep or at the end of the
-- round, and the checkpoint, if there is one, with whether it can be written.
pub record Round : Type 0 where
  pub reload : Option (List ResolvedContract × NativeFilter)
  pub poll : PollSource
  pub ended_in_poll : Bool
  pub ended_in_sleep : Bool
  pub ended_in_wait : Bool
  pub checkpoint : Bool
  pub save_works : Bool

-- How a round ends: the loop goes on, returns nil, returns the error of the output, or recovers from a
-- panic and returns an error.
pub data Verdict : Type 0 where
  goes_on stopped output_gone crashed : Verdict

abbrev pub reloaded : Option (List ResolvedContract × NativeFilter) → Stream → Stream
reloaded none s = s
reloaded (some (contracts, native)) s = record s {
  contracts = contracts;
  native = native;
  skipped_seen = [];
}

-- applyPendingReload and setWatchSet.
unfoldable pub apply_pending_reload :
    Option (List ResolvedContract × NativeFilter) → Stream → Stream
apply_pending_reload w s = reloaded w s

unfoldable pub should_save_checkpoint : ℕ → ℕ → Bool
should_save_checkpoint next last_saved = ltb 0 next && not (next == last_saved)

abbrev pub is_dead : Errno → Bool
is_dead epipe = true
is_dead ebadf = true
is_dead other_errno = false

-- Whether an error of a poll means that the output is gone.
unfoldable pub is_terminal : Fault → Bool
is_terminal (emit e) = is_dead e
is_terminal (rpc e) = false
is_terminal malformed = false
is_terminal cancelled = false

-- A poll that failed: the runner keeps its next block, whatever the poll came to.
unfoldable pub poll_failed : Round → Runner → Stream → Fault → Verdict × Runner
poll_failed round r s e =
    let kept = record r { stream = s } in
    let counted = record kept { failures = r.failures + 1 } in
    if round.ended_in_poll
    then (stopped, kept)
    else if is_terminal e
    then (output_gone, kept)
    else if round.ended_in_sleep
    then (stopped, counted)
    else (goes_on, counted)

-- Checkpoint.Save, where the frontier has changed.
unfoldable pub save_cursor : Round → Runner → Runner
save_cursor round r =
    if round.checkpoint && should_save_checkpoint r.next_block r.last_saved && round.save_works
    then record r {
      saved = some (record { chain_id = r.stream.chain_id; last_block = r.next_block - 1 });
      last_saved = r.next_block;
    }
    else r

unfoldable pub poll_succeeded : Round → Runner → Stream → ℕ → Verdict × Runner
poll_succeeded round r s next =
    let moved = record r { stream = s; next_block = next; failures = 0 } in
    (if round.ended_in_wait then stopped else goes_on, save_cursor round moved)

unfoldable pub after_round : Round → Runner → Outcome Fault Progress × Stream → Verdict × Runner
after_round round r (done (next, none), s) = poll_succeeded round r s next
after_round round r (done (next, some e), s) = poll_failed round r s e
after_round round r (failed e, s) = poll_failed round r s e
after_round round r (panicked, s) = (crashed, record r { stream = s })

-- One round of the loop of Run.
unfoldable pub run_round : ℕ → Emitter → Round → Runner → Verdict × Runner
run_round max_elements out round r = after_round round r (
    poll_once max_elements out round.poll r.next_block (apply_pending_reload round.reload r.stream))

-- The loop on the rounds that it meets.
unfoldable pub run_rounds : ℕ → Emitter → List Round → Runner → Verdict × Runner
run_rounds max_elements out [] r = (goes_on, r)
run_rounds max_elements out (round ∷ rounds) r =
    let ended = run_round max_elements out round r in
    elim ended.0 [
      | goes_on ↦ run_rounds max_elements out rounds ended.1
      | stopped ↦ ended
      | output_gone ↦ ended
      | crashed ↦ ended
    ]
