-- ===== src/Stream/Native/Emit.antt =====
-- processNative and emitNative of internal/stream/stream.go, emitInternalTransfers and emitInternal of
-- internal/stream/internal.go.
use evm_tools.Base.{
  ℕ, zero, suc, Bool, true, false, Option, none, some, List, [], Text, codes, if◌then◌else◌,
  format_int, pos,
}
use evm_tools.Base.Exec.{done, pure, lift, ◌>>=◌, ◌>>◌}
use evm_tools.Record.Envelope.{
  Envelope, Payload, native_transfer, internal_transfer, native_data, internal_data, tool_stream,
}
use evm_tools.Rpc.Errors.{RpcError}
use evm_tools.Rpc.Types.{Block, number_uint, timestamp_uint, Answer}
use evm_tools.Stream.State.{
  Stream, Act, answer, parsed, Emitter, emit_record, is_finalized, TraceBackend, backend_unknown,
  backend_disabled, backend_block, backend_parity, backend_per_tx,
}
use evm_tools.Stream.Trace.Frames.{InternalTransfer}
use evm_tools.Stream.Trace.Backend.{TraceSource, trace_block_internal}
use evm_tools.Stream.Native.Units.{wei_to_ether}
use evm_tools.Stream.Native.Detect.{Fetch, NativeTransfer, matches, detect_native_transfers}
use evm_tools.Stream.Logs.{for_each}

-- What the client answers about the blocks of a range, and the rendering of a block's time, which is
-- the standard library's.
pub record BlockSource : Type 0 where
  pub full_block : ℕ → Answer Block
  pub receipt : Text → Fetch
  pub first_error : RpcError → List RpcError → RpcError
  pub traces : ℕ → TraceSource
  pub rfc3339 : ℕ → Text

unfoldable pub native_envelope : Stream → Block → ℕ → Text → NativeTransfer → Envelope Payload
native_envelope s b number ts t = record {
  schema = pos 0;
  type = native_transfer;
  tool = tool_stream;
  name = codes "native";
  chain = s.chain_name;
  chain_id = s.chain_id;
  block_number = number;
  block_hash = b.hash;
  tx_hash = t.tx.hash;
  log_index = none;
  trace_address = [];
  timestamp = ts;
  emitted_at = [];
  finalized = is_finalized s number;
  payload = native_data (record {
    from_address = t.tx.from_address;
    to_address = if t.contract_creation then [] else t.tx.to_address;
    value_wei = format_int t.value_wei;
    value_ether = wei_to_ether t.value_wei;
    contract_creation = t.contract_creation;
  });
}

unfoldable pub emit_native : Emitter → Block → ℕ → Text → NativeTransfer → Act (Unit {0})
emit_native out b number ts t s = emit_record out (native_envelope s b number ts t) s

unfoldable pub internal_envelope : Stream → ℕ → Text → InternalTransfer → Envelope Payload
internal_envelope s number ts t = record {
  schema = pos 0;
  type = internal_transfer;
  tool = tool_stream;
  name = codes "native";
  chain = s.chain_name;
  chain_id = s.chain_id;
  block_number = number;
  block_hash = [];
  tx_hash = t.tx_hash;
  log_index = none;
  trace_address = t.trace_address;
  timestamp = ts;
  emitted_at = [];
  finalized = is_finalized s number;
  payload = internal_data (record {
    from_address = t.from_address;
    to_address = t.to_address;
    value_wei = format_int t.value_wei;
    value_ether = wei_to_ether t.value_wei;
    call_type = t.call_type;
    contract_creation = t.contract_creation;
  });
}

unfoldable pub emit_internal : Emitter → ℕ → Text → InternalTransfer → Act (Unit {0})
emit_internal out number ts t s =
    if matches s.native t.from_address t.to_address
    then emit_record out (internal_envelope s number ts t) s
    else (done tt, s)

abbrev pub is_disabled : TraceBackend → Bool
is_disabled backend_disabled = true
is_disabled backend_unknown = false
is_disabled backend_block = false
is_disabled backend_parity = false
is_disabled backend_per_tx = false

-- emitInternalTransfers
unfoldable pub emit_internal_transfers : Emitter → TraceSource → Block → ℕ → Text → Act (Unit {0})
emit_internal_transfers out source b number ts s =
    if is_disabled s.trace_backend
    then (done tt, s)
    else (do
      found ← trace_block_internal source b.transactions
      for_each (emit_internal out number ts) found)
        s

abbrev pub time_of : BlockSource → Option ℕ → Text
time_of source none = []
time_of source (some t) = source.rfc3339 t

-- One block of processNative.
unfoldable pub native_block : Emitter → BlockSource → ℕ → Act (Unit {0})
native_block out source n s =
    (do
      b ← lift (answer (source.full_block n))
      number ← lift (parsed (number_uint b))
      found ←
          lift (detect_native_transfers source.first_error source.receipt s.native b.transactions)
      for_each (emit_native out b number (time_of source (timestamp_uint b))) found
      if s.native.include_internal
          then emit_internal_transfers out (source.traces n) b number
              (time_of source (timestamp_uint b))
          else pure tt)
      s

-- processNative on `count` blocks from n on.
unfoldable pub process_native : Emitter → BlockSource → ℕ → ℕ → Act (Unit {0})
process_native out source n zero = pure tt
process_native out source n (suc count) =
    native_block out source n >> process_native out source (suc n) count
