-- ===== src/Stream/Poll.antt =====
-- processRange, pollOnce and updateFinalizedBlock of internal/stream/stream.go.
pub mod Chunks
pub mod Keeps
pub mod Scan
use evm_tools.Base.{
  ℕ, zero, suc, ◌+◌, ◌-◌, ◌%◌, ◌^◌, Bool, true, false, Option, none, some, List, [], ◌∷◌, ltb, leb,
  if◌then◌else◌, Text,
}
use evm_tools.Base.Exec.{Outcome, done, failed, panicked, Exec, pure, lift, modify, ◌>>=◌, ◌>>◌}
use evm_tools.Rpc.Errors.{RpcError, ErrorType, timeout, connection, classify}
use evm_tools.Rpc.Types.{Block, Answer, got, refused}
use evm_tools.Stream.State.{Stream, Act, Fault, rpc, ResolvedContract, Emitter}
use evm_tools.Stream.Reorg.Tracker.{record_hash}
use evm_tools.Stream.Reorg.Handle.{View, handle_reorg_if_any}
use evm_tools.Stream.Logs.{LogSource, process_logs, emit_log}
use evm_tools.Stream.Native.Emit.{BlockSource, process_native}

-- What the client answers during one poll, and whether the context ends while the finalized block is
-- asked for.
pub record PollSource : Type 0 where
  pub head : Answer ℕ
  pub view : View
  pub finalized : Answer ℕ
  pub finalized_cancelled : Bool
  pub logs : LogSource
  pub blocks : BlockSource

abbrev is_transient : ErrorType → Bool
is_transient timeout = true
is_transient connection = true
is_transient _ = false

abbrev pub finalized_answer : Bool → Answer ℕ → Stream → Stream
finalized_answer cancelled (got n) s = record s { finalized_block = n; finalized_known = true }
finalized_answer cancelled (refused e) s =
    if cancelled
    then s
    else if is_transient (classify e)
    then s
    else record s { finalized_unsupported = true }

-- updateFinalizedBlock
unfoldable pub update_finalized_block : Bool → Answer ℕ → Stream → Stream
update_finalized_block cancelled a s =
    if s.finalized_unsupported then s else finalized_answer cancelled a s

abbrev pub watches_logs : List ResolvedContract → Bool
watches_logs [] = false
watches_logs (c ∷ cs) = true

-- processRange, on a range whose last block is below 2^64 - 1.
unfoldable pub process_range : ℕ → Emitter → PollSource → ℕ → ℕ → Act (Unit {0})
process_range max_elements out source lo hi s =
    ((if watches_logs s.contracts
          then process_logs (emit_log max_elements out) source.logs (suc (hi - lo)) lo hi
          else pure tt)
        >> λ s1.
            (if s1.native.enabled
                then process_native out source.blocks lo (suc hi - lo)
                else pure tt)
              s1)
      s

-- pollOnce's two results: the next block, and its error.
abbrev pub Progress : Type 0
Progress = ℕ × Option Fault

abbrev pub stop_at : ℕ → Fault → Act Progress
stop_at cur e s = (done (cur, some e), s)

-- An error of the chunk at cur ends the poll there.
unfoldable pub after_chunk :
    ℕ → Act Progress → Outcome Fault (Unit {0}) × Stream → Outcome Fault Progress × Stream
after_chunk cur rest (done u, s) = rest s
after_chunk cur rest (failed e, s) = stop_at cur e s
after_chunk cur rest (panicked, s) = (panicked, s)

-- cur + LogChunkBlocks - 1 on uint64, and not above the head.
unfoldable pub chunk_end : ℕ → ℕ → ℕ → ℕ
chunk_end size head cur =
    let last = (cur + size + (2 ^ 64 - 1)) % 2 ^ 64 in if ltb head last then head else last

-- The loop over the chunks. No fuel is a panic.
unfoldable pub poll_chunks : (ℕ → ℕ → Act (Unit {0})) → ℕ → ℕ → ℕ → ℕ → Act Progress
poll_chunks process size head zero cur s = (panicked, s)
poll_chunks process size head (suc fuel) cur s =
    let last = chunk_end size head cur in
    let rest = poll_chunks process size head fuel ((last + 1) % 2 ^ 64) in
    if leb cur head then after_chunk cur rest (process cur last s) else (done (cur, none), s)

abbrev pub recorded_head : Option Block → ℕ → Stream → Stream
recorded_head none head s = s
recorded_head (some b) head s = record s { reorg = record_hash s.reorg head b.hash head }

-- What follows the reorg check: the chunks up to the head, whose hash is recorded if all went well.
unfoldable pub after_poll :
    Option Block → ℕ → Outcome Fault Progress × Stream → Outcome Fault Progress × Stream
after_poll b head (done (cur, none), s) = (done (cur, none), recorded_head b head s)
after_poll b head (done (cur, some e), s) = (done (cur, some e), s)
after_poll b head (failed e, s) = (failed e, s)
after_poll b head (panicked, s) = (panicked, s)

unfoldable pub scan_to_head : ℕ → Emitter → PollSource → ℕ → ℕ → Act Progress
scan_to_head max_elements out source head next s =
    if ltb head next
    then (done (next, none), s)
    else after_poll source.view.head_block head (
        poll_chunks (process_range max_elements out source) s.log_chunk_blocks head
          (suc (suc (head - next))) next s)

-- The reorg check gives the block to go on from; its error ends the poll at the block it began with.
unfoldable pub after_check :
    ℕ → (ℕ → Act Progress) → Outcome Fault (ℕ × Bool) × Stream → Outcome Fault Progress × Stream
after_check next go_on (done (n, rewound), s) = go_on n s
after_check next go_on (failed e, s) = stop_at next e s
after_check next go_on (panicked, s) = (panicked, s)

abbrev pub seen_head : PollSource → ℕ → Stream → Stream
seen_head source head s =
    let t = update_finalized_block source.finalized_cancelled source.finalized s in
    record t { last_head = head }

abbrev pub poll_from : ℕ → Emitter → PollSource → ℕ → Answer ℕ → Act Progress
poll_from max_elements out source next (refused e) s = stop_at next (rpc e) s
poll_from max_elements out source next (got head) s =
    after_check next (scan_to_head max_elements out source head)
      (handle_reorg_if_any out source.view next head (seen_head source head s))

-- pollOnce
unfoldable pub poll_once : ℕ → Emitter → PollSource → ℕ → Act Progress
poll_once max_elements out source next s = poll_from max_elements out source next source.head s
