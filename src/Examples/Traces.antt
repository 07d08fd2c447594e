-- ===== src/Examples/Traces.antt =====
-- The theorems on value transfers, on concrete blocks.
use evm_tools.Base.{
  if◌then◌else◌, ℕ, ◌≡◌, ◌↔◌, refl, false, some, List, [], ◌∷◌, map, Text, codes, text_eq, to_lower,
  lower_byte, pos, none, inl,
}
use evm_tools.Base.Exec.{done}
use evm_tools.Rpc.Errors.{RpcError}
use evm_tools.Rpc.Hex.{
  hex_big, hex_uint, set_string, unsigned_hex, scan_hex, digit_value, trim_hex_prefix, trim_two,
}
use evm_tools.Rpc.Types.{
  ParityAction, ParityTrace, Transaction, value_big, succeeded, CallFrame, CallFrames, frame,
  no_frames, more_frames, got, refused,
}
use evm_tools.Stream.Trace.Frames.{
  InternalTransfer, is_create, is_value_moving_call, own_transfer, frame_value, walk_call_frames,
}
use evm_tools.Stream.Trace.Frames.Collected.{Among}
use evm_tools.Stream.Trace.Frames.Survivors.{Survives, IsTransfer, walk_call_frames_iff}
use evm_tools.Stream.Trace.Parity.{parse_parity_traces}
use evm_tools.Stream.Trace.Parity.Pruned.{parse_parity_traces_reverted}
use evm_tools.Stream.Trace.Backend.{TraceSource, trace_block_internal}
use evm_tools.Stream.Trace.Backend.Retry.{IsSettled, trace_block_internal-IsSettled}
use evm_tools.Stream.Native.Detect.{
  Fetch, fetched, unfetched, NativeTransfer, matches, candidate, candidates, gated, refusals, gate,
  detect_native_transfers,
}
use evm_tools.Stream.Native.Detect.Laws.{Reported, detect_native_transfers_lem}
use evm_tools.Examples.Data.{stream, lost, every_transfer}

abbrev call : Text → Text → CallFrames → CallFrame
call value error calls = frame (codes "CALL") (codes "0x0a") (codes "0x0b") value error calls

-- A call of value, below one without a value; beside it one below a reverted call.
abbrev calls : CallFrames
calls =
    more_frames (call (codes "0x0") [] (more_frames (call (codes "0x5") [] no_frames) no_frames)) (
      more_frames
        (call (codes "0x7") (codes "reverted")
          (more_frames (call (codes "0x9") [] no_frames) no_frames))
        no_frames)

abbrev moved_5 : InternalTransfer
moved_5 = record {
  tx_hash = codes "0xab";
  trace_address = pos 0 ∷ pos 0 ∷ [];
  from_address = codes "0x0a";
  to_address = codes "0x0b";
  value_wei = pos 5;
  call_type = codes "call";
  contract_creation = false;
}

one_survives : walk_call_frames (codes "0xab") [] 0 calls ≡ some (moved_5 ∷ [])
unfolding walk_call_frames own_transfer frame_value is_value_moving_call is_create hex_big
    set_string unsigned_hex scan_hex digit_value trim_hex_prefix trim_two text_eq to_lower
    lower_byte
one_survives = refl

walk_call_frames_iff_example : Among moved_5 (moved_5 ∷ []) ↔ (
    (j : ℕ) × (p : List ℕ) × (g : CallFrame) × Survives calls j p g
    × IsTransfer (codes "0xab") (pos j ∷ map (λ k. pos k) p) g moved_5)
walk_call_frames_iff_example =
    walk_call_frames_iff (codes "0xab") calls (moved_5 ∷ []) moved_5 one_survives

abbrev silent : TraceSource
silent = record {
  by_block = λ k. refused lost;
  parity = λ k. refused lost;
  by_tx = λ k t. refused lost;
  ended = λ k m. false;
}

abbrev payment : Transaction
payment = record {
  hash = codes "0xab";
  from_address = codes "0x0a";
  to_address = codes "0x0b";
  value = codes "0x5";
}

trace_block_internal-IsSettled_example :
    IsSettled (trace_block_internal silent (payment ∷ []) stream).0
trace_block_internal-IsSettled_example = trace_block_internal-IsSettled silent (payment ∷ []) stream

abbrev receipt : Text → Fetch
receipt h =
    if text_eq h (codes "0xab")
    then fetched (got (some (record { status = codes "0x1"; tx_hash = h; contract_address = [] })))
    else unfetched

abbrev paid : NativeTransfer
paid = record { tx = payment; value_wei = pos 5; contract_creation = false }

abbrev earliest : RpcError → List RpcError → RpcError
earliest e es = e

payment_found :
    detect_native_transfers earliest receipt every_transfer (payment ∷ []) ≡ done (paid ∷ [])
unfolding detect_native_transfers candidates candidate matches gated refusals gate succeeded
    value_big hex_uint hex_big set_string unsigned_hex scan_hex digit_value trim_hex_prefix trim_two
    text_eq to_lower lower_byte
payment_found = refl

detect_native_transfers_lem_example : Reported receipt every_transfer (payment ∷ []) (paid ∷ [])
detect_native_transfers_lem_example =
    detect_native_transfers_lem receipt every_transfer earliest (payment ∷ []) (paid ∷ []) refl
      payment_found

abbrev action : ParityAction
action = record {
  call_type = codes "call";
  from_address = codes "0x0a";
  to_address = codes "0x0b";
  value = codes "0x5";
  address = [];
  refund_address = [];
  balance = [];
}

abbrev reverted : ParityTrace
reverted = record {
  type = codes "call";
  action = action;
  result = none;
  error = codes "Reverted";
  trace_address = [];
  tx_hash = codes "0xab";
}

-- A transfer of another transaction of the block.
abbrev of_other : ParityTrace
of_other = record {
  type = codes "call";
  action = action;
  result = none;
  error = [];
  trace_address = pos 0 ∷ [];
  tx_hash = codes "0xcd";
}

parse_parity_traces_reverted_example : parse_parity_traces (reverted ∷ of_other ∷ []) ≡ some []
parse_parity_traces_reverted_example =
    parse_parity_traces_reverted (reverted ∷ of_other ∷ []) (inl (refl, refl))
