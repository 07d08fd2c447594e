-- ===== src/Examples/Runs.antt =====
-- The theorems on whole polls and rounds, on a node with another block at height 5.
use evm_tools.Base.{
  ℕ, ◌≡◌, refl, arith, Bool, true, false, none, some, codes, text_eq, equal_fold, to_lower,
  lower_byte,
}
use evm_tools.Base.Exec.{Outcome, done}
use evm_tools.Rpc.Errors.{is_log_range_cap_error}
use evm_tools.Rpc.Types.{refused}
use evm_tools.Stream.State.{Stream, Fault, rpc, emit_record}
use evm_tools.Stream.Logs.{
  emit_log, matched_event, events_at, event_at, LogSource, splits, process_logs, on_answer,
  for_each,
}
use evm_tools.Stream.Poll.{
  PollSource, Progress, seen_head, update_finalized_block, after_check, scan_to_head, after_poll,
  process_range, poll_chunks, chunk_end, after_chunk, poll_once,
}
use evm_tools.Stream.Poll.Scan.{IsScan, poll_once-IsScan}
use evm_tools.Stream.Reorg.Handle.{
  frontier_hash, emit_reorg, rewind, frontier_of, check_frontier, handle_reorg_if_any,
}
use evm_tools.Stream.Reorg.Tracker.{lookup, recorded}
use evm_tools.Stream.Reorg.Walk.{walk, fork_floor, fork_verdict, resolve_fork, canonical_hash}
use evm_tools.Stream.Run.{Round, goes_on, is_terminal, apply_pending_reload, run_round}
use evm_tools.Stream.Run.LostRewind.{rewind_lost}
use evm_tools.Examples.Data.{stream, takes_all, lost, block}
use evm_tools.Examples.Streams.{source, round, runner}

-- A node that answers for no logs at all.
abbrev down : LogSource
down = record { get_logs = λ lo hi. refused lost; cancelled = λ lo hi. false }

abbrev forked_round : Round
forked_round = record round { poll = record source { logs = down } }

abbrev rewinding : Outcome Fault (ℕ × Bool) × Stream
rewinding =
    handle_reorg_if_any takes_all source.view 6 6
      (seen_head forked_round.poll 6 (apply_pending_reload none stream))

rewinds_to_5 :
    handle_reorg_if_any takes_all source.view 6 6
      (seen_head forked_round.poll 6 (apply_pending_reload none stream))
    ≡ (done (5, true), rewinding.1)
unfolding handle_reorg_if_any check_frontier frontier_of frontier_hash rewind emit_reorg emit_record
    resolve_fork walk fork_floor fork_verdict canonical_hash recorded lookup equal_fold text_eq
    to_lower lower_byte update_finalized_block apply_pending_reload
rewinds_to_5 = refl

abbrev polled : Outcome Fault Progress × Stream
polled = poll_once 1000 takes_all forked_round.poll 6 (apply_pending_reload none stream)

fails_at_5 :
    poll_once 1000 takes_all forked_round.poll 6 (apply_pending_reload none stream)
    ≡ (done (5, some (rpc lost)), polled.1)
unfolding poll_once after_check scan_to_head after_poll poll_chunks after_chunk chunk_end
    process_range process_logs on_answer splits is_log_range_cap_error handle_reorg_if_any
    check_frontier frontier_of frontier_hash rewind emit_reorg emit_record resolve_fork walk
    fork_floor fork_verdict canonical_hash recorded lookup equal_fold text_eq to_lower lower_byte
    update_finalized_block apply_pending_reload
fails_at_5 = refl

lost-retried : is_terminal (rpc lost) ≡ false
unfolding is_terminal
lost-retried = refl

rewind_lost_example :
    ((run_round 1000 takes_all forked_round runner).0 ≡ goes_on)
    × ((run_round 1000 takes_all forked_round runner).1.next_block ≡ 6)
    × ((run_round 1000 takes_all forked_round runner).1.stream ≡ polled.1)
    × (handle_reorg_if_any takes_all source.view 6 6 polled.1 ≡ (done (6, false), polled.1))
rewind_lost_example =
    rewind_lost 1000 takes_all forked_round runner 5 6 5 (rpc lost) rewinding.1 polled.1 source.view
      6 polled.1 refl rewinds_to_5 (ground arith) fails_at_5 lost-retried refl refl (ground arith)
      refl

-- The node's head, whose header was read.
abbrev with_head : PollSource
with_head = record source { view = record source.view { head_block = some (block (codes "0xa6")) } }

abbrev whole_poll : Outcome Fault Progress × Stream
whole_poll = poll_once 1000 takes_all with_head 6 stream

ends_at_7 : poll_once 1000 takes_all with_head 6 stream ≡ (done (7, none), whole_poll.1)
unfolding poll_once after_check scan_to_head after_poll poll_chunks after_chunk chunk_end
    process_range process_logs on_answer splits is_log_range_cap_error handle_reorg_if_any
    check_frontier frontier_of frontier_hash rewind emit_reorg emit_record resolve_fork walk
    fork_floor fork_verdict canonical_hash recorded lookup equal_fold text_eq to_lower lower_byte
    for_each update_finalized_block emit_log matched_event events_at event_at
ends_at_7 = refl

abbrev checked : Outcome Fault (ℕ × Bool) × Stream
checked = handle_reorg_if_any takes_all with_head.view 6 6 (seen_head source 6 stream)

goes_to_5 :
    handle_reorg_if_any takes_all with_head.view 6 6 (seen_head source 6 stream)
    ≡ (done (5, true), checked.1)
unfolding handle_reorg_if_any check_frontier frontier_of frontier_hash rewind emit_reorg emit_record
    resolve_fork walk fork_floor fork_verdict canonical_hash recorded lookup equal_fold text_eq
    to_lower lower_byte update_finalized_block
goes_to_5 = refl

chunk_is_two : checked.1.log_chunk_blocks ≡ 2
unfolding handle_reorg_if_any check_frontier frontier_of frontier_hash rewind emit_reorg emit_record
    resolve_fork walk fork_floor fork_verdict canonical_hash recorded lookup equal_fold text_eq
    to_lower lower_byte update_finalized_block
chunk_is_two = refl

poll_once-IsScan_example : IsScan 1000 takes_all with_head 6 5 checked.1 7 whole_poll.1
poll_once-IsScan_example =
    poll_once-IsScan 1000 takes_all with_head 6 6 5 true stream checked.1 7 whole_poll.1 refl
      goes_to_5 (ground arith) (rw chunk_is_two (ground arith)) (rw chunk_is_two (ground arith))
      ends_at_7
