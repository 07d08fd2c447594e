-- ===== src/Stream/Logs.antt =====
-- emitLog, processLogs and contractNameFor of internal/stream/stream.go.
pub mod Range
use evm_tools.Base.{
  ℕ, zero, suc, ◌+◌, ◌-◌, ◌/◌, Bool, true, false, not, ◌&&◌, Option, none, some, List, [], ◌∷◌,
  ◌++◌, Text, codes, ltb, if◌then◌else◌, text_eq, to_lower, pos,
}
use evm_tools.Base.Exec.{
  Outcome, done, failed, panicked, Exec, pure, fail, lift, modify, ◌>>=◌, ◌>>◌,
}
use evm_tools.Record.Envelope.{Envelope, Payload, EventData, event, event_data, tool_stream}
use evm_tools.Rpc.Types.{Log, block_number_uint, log_index_uint, Answer, got, refused}
use evm_tools.Rpc.Errors.{RpcError, is_log_range_cap_error}
use evm_tools.Stream.State.{
  Stream, Act, Fault, EventAbi, ResolvedContract, parsed, Emitter, emit_record, is_finalized, rpc,
}
use evm_tools.Stream.Decode.Hex.{DecodeError, Decoded}
use evm_tools.Stream.Decode.Log.{Params, decode_log}

-- contractNameFor
unfoldable pub contract_name_for : List ResolvedContract → Text → Text
contract_name_for [] address = to_lower address
contract_name_for (c ∷ cs) address =
    if text_eq c.address (to_lower address) then c.name else contract_name_for cs address

-- byAddrTopic[address], as setWatchSet fills it: a later contract replaces an earlier one.
unfoldable pub events_at : List ResolvedContract → Text → Option (List (Text × EventAbi))
events_at [] address = none
events_at (c ∷ cs) address = elim (events_at cs address) [
  | some m ↦ some m
  | none ↦ if text_eq c.address address then some c.by_topic0 else none
]

unfoldable pub event_at : List (Text × EventAbi) → Text → Option EventAbi
event_at [] topic = none
event_at ((t, ev) ∷ m) topic = if text_eq t topic then some ev else event_at m topic

abbrev event_in : Option (List (Text × EventAbi)) → Text → Option EventAbi
event_in none topic = none
event_in (some m) topic = event_at m topic

abbrev event_of : List ResolvedContract → Text → List Text → Option EventAbi
event_of cs address [] = none
event_of cs address (t ∷ ts) = event_in (events_at cs (to_lower address)) (to_lower t)

-- The event that a log is decoded by; none where emitLog skips the log before it decodes it.
unfoldable pub matched_event : List ResolvedContract → Log → Option EventAbi
matched_event cs l = if l.removed then none else event_of cs l.address l.topics

unfoldable pub event_envelope : Stream → Log → EventAbi → Params → ℕ → ℕ → Envelope Payload
event_envelope s l ev params number index = record {
  schema = pos 0;
  type = event;
  tool = tool_stream;
  name = contract_name_for s.contracts l.address;
  chain = s.chain_name;
  chain_id = s.chain_id;
  block_number = number;
  block_hash = l.block_hash;
  tx_hash = l.tx_hash;
  log_index = some index;
  trace_address = [];
  timestamp = [];
  emitted_at = [];
  finalized = is_finalized s number;
  payload = event_data (record {
    event_name = ev.name;
    signature = ev.signature;
    contract = l.address;
    params = params;
  });
}

-- The pair of a contract and an event whose undecodable logs are warned of once.
abbrev skip_key : Log → EventAbi → Text
skip_key l ev = to_lower l.address ++ codes "|" ++ ev.name

abbrev member : Text → List Text → Bool
member k [] = false
member k (x ∷ xs) = if text_eq x k then true else member k xs

unfoldable pub skip_log : Log → EventAbi → Act (Unit {0})
skip_log l ev s = (
  done tt,
  if member (skip_key l ev) s.skipped_seen
      then s
      else record s { skipped_seen = skip_key l ev ∷ s.skipped_seen },
)

unfoldable pub emit_decoded : Emitter → Log → EventAbi → Decoded Params → Act (Unit {0})
emit_decoded out l ev panicked s = (panicked, s)
emit_decoded out l ev (failed e) s = skip_log l ev s
emit_decoded out l ev (done params) s =
    (do
      number ← lift (parsed (block_number_uint l))
      index ← lift (parsed (log_index_uint l))
      emit_record out (event_envelope s l ev params number index))
      s

abbrev pub emit_matched : ℕ → Emitter → Log → Option EventAbi → Act (Unit {0})
emit_matched max_elements out l none = pure tt
emit_matched max_elements out l (some ev) = emit_decoded out l ev (decode_log max_elements ev l)

-- emitLog
unfoldable pub emit_log : ℕ → Emitter → Log → Act (Unit {0})
emit_log max_elements out l s = emit_matched max_elements out l (matched_event s.contracts l) s

-- The loop over the logs of an answer: the first error ends it.
unfoldable pub for_each : {A : Type 0} → (A → Act (Unit {0})) → List A → Act (Unit {0})
for_each f [] = pure tt
for_each f (x ∷ xs) = f x >> for_each f xs

-- What eth_getLogs answers on a range, and whether the context ends during the call.
pub record LogSource : Type 0 where
  pub get_logs : ℕ → ℕ → Answer (List Log)
  pub cancelled : ℕ → ℕ → Bool

-- Whether a refused range is split.
unfoldable pub splits : LogSource → ℕ → ℕ → RpcError → Bool
splits source lo hi e = ltb lo hi && not (source.cancelled lo hi) && is_log_range_cap_error e

abbrev pub middle : ℕ → ℕ → ℕ
middle lo hi = lo + (hi - lo) / 2

-- The answer of one query: its logs are emitted, or the two halves are gone through if the refusal
-- asks for it.
unfoldable pub on_answer :
    (Log → Act (Unit {0})) → LogSource → ℕ → ℕ → Act (Unit {0}) → Answer (List Log) → Act (Unit {0})
on_answer emit source lo hi halves (got logs) = for_each emit logs
on_answer emit source lo hi halves (refused e) =
    if splits source lo hi e then halves else fail (rpc e)

-- processLogs on fuel: a range of n + 1 blocks is split at most n times below one another. No fuel
-- is a panic, to be told from an error of the node.
unfoldable pub process_logs : (Log → Act (Unit {0})) → LogSource → ℕ → ℕ → ℕ → Act (Unit {0})
process_logs emit source zero lo hi = λ s. (panicked, s)
process_logs emit source (suc fuel) lo hi =
    let left = process_logs emit source fuel lo (middle lo hi) in
    let right = process_logs emit source fuel (middle lo hi + 1) hi in
    on_answer emit source lo hi (left >> right) (source.get_logs lo hi)
