-- ===== src/Stream/Trace/Backend.antt =====
-- blockLevelTraces, perTxTraces, parityTraces, selectBackend, fetchTraces and traceBlockInternal of
-- internal/stream/internal.go.
pub mod Retry
use evm_tools.Base.{
  ℕ, zero, suc, ◌+◌, Bool, true, false, ◌&&◌, Option, none, some, List, [], ◌∷◌, Text,
  if◌then◌else◌, leb,
}
use evm_tools.Base.Exec.{
  Outcome, done, failed, panicked, Exec, pure, fail, modify, ◌>>=◌, ◌>>◌, ◌>=>◌,
}
use evm_tools.Rpc.Errors.{RpcError, is_method_unsupported}
use evm_tools.Rpc.Types.{
  Transaction, Block, CallFrame, frame, TxTrace, ParityTrace, Answer, got, refused,
}
use evm_tools.Stream.State.{
  Stream, Act, Fault, rpc, emit, malformed, cancelled, answer, parsed, TraceBackend,
  backend_unknown, backend_block, backend_parity, backend_per_tx, backend_disabled,
}
use evm_tools.Stream.Trace.Frames.{InternalTransfer, walk_call_frames, is_empty, join_both}
use evm_tools.Stream.Trace.Parity.{parse_parity_traces}

-- Where traceBlockInternal and selectBackend look at the context.
pub data Moment : Type 0 where
  after_probe : TraceBackend → Moment
  after_fetch during_sleep : Moment

-- What the node answers in the given attempt at a block, and whether the context has ended by then.
pub record TraceSource : Type 0 where
  pub by_block : ℕ → Answer (List TxTrace)
  pub parity : ℕ → Answer (List ParityTrace)
  pub by_tx : ℕ → Text → Answer (Option CallFrame)
  pub ended : ℕ → Moment → Bool

abbrev Transfers : Type 0
Transfers = Outcome Fault (List InternalTransfer)

-- The transfers of a transaction; none of its calls count if it was reverted.
unfoldable pub root_transfers : Text → Option CallFrame → Option (List InternalTransfer)
root_transfers tx none = some []
root_transfers tx (some (frame type from to value error calls)) =
    if is_empty error then walk_call_frames tx [] 0 calls else some []

unfoldable pub block_transfers : List TxTrace → Option (List InternalTransfer)
block_transfers [] = some []
block_transfers (t ∷ ts) = join_both (root_transfers t.tx_hash t.result) (block_transfers ts)

-- blockLevelTraces
unfoldable pub block_level_traces : TraceSource → ℕ → Transfers
block_level_traces source k = answer (source.by_block k) >=> λ ts. parsed (block_transfers ts)

-- parityTraces
unfoldable pub parity_traces : TraceSource → ℕ → Transfers
parity_traces source k = answer (source.parity k) >=> λ ts. parsed (parse_parity_traces ts)

-- perTxTraces
unfoldable pub per_tx_traces : TraceSource → ℕ → List Transaction → Transfers
per_tx_traces source k [] = done []
per_tx_traces source k (tx ∷ txs) = answer (source.by_tx k tx.hash) >=> λ root.
    parsed (root_transfers tx.hash root) >=> λ here.
    per_tx_traces source k txs >=> λ rest. parsed (join_both (some here) (some rest))

-- IsMethodUnsupported on the error of a fetch.
abbrev pub unsupported : Fault → Bool
unsupported (rpc e) = is_method_unsupported e
unsupported (emit e) = false
unsupported malformed = false
unsupported cancelled = false

-- One candidate of selectBackend: it is chosen, selection ends in an error, or the next is tried.
unfoldable pub probe :
    TraceSource
    → ℕ
    → TraceBackend
    → Transfers
    → Act (List InternalTransfer)
    → Act (List InternalTransfer)
probe source k backend (done ts) next s = (done ts, record s { trace_backend = backend })
probe source k backend panicked next s = (panicked, s)
probe source k backend (failed e) next s =
    if source.ended k (after_probe backend)
    then (failed cancelled, s)
    else if unsupported e
    then next s
    else (failed e, s)

abbrev pub has_txs : List Transaction → Bool
has_txs [] = false
has_txs (t ∷ ts) = true

-- selectBackend: one call per transaction is tried on a block with transactions only.
unfoldable pub select_backend : TraceSource → ℕ → List Transaction → Act (List InternalTransfer)
select_backend source k txs =
    let disable : Act (List InternalTransfer) =
      λ s. (done [], record s { trace_backend = backend_disabled }) in
    let last =
      if has_txs txs
      then probe source k backend_per_tx (per_tx_traces source k txs) disable
      else pure [] in
    probe source k backend_block (block_level_traces source k)
      (probe source k backend_parity (parity_traces source k) last)

abbrev pub fetch_by :
    TraceSource → ℕ → List Transaction → TraceBackend → Act (List InternalTransfer)
fetch_by source k txs backend_block s = (block_level_traces source k, s)
fetch_by source k txs backend_parity s = (parity_traces source k, s)
fetch_by source k txs backend_per_tx s = (per_tx_traces source k txs, s)
fetch_by source k txs backend_unknown s = select_backend source k txs s
fetch_by source k txs backend_disabled s = select_backend source k txs s

-- fetchTraces
unfoldable pub fetch_traces : TraceSource → ℕ → List Transaction → Act (List InternalTransfer)
fetch_traces source k txs s = fetch_by source k txs s.trace_backend s

abbrev pub max_trace_attempts : ℕ
max_trace_attempts = 4

-- Whether a backend was selected.
abbrev pub is_selected : TraceBackend → Bool
is_selected backend_unknown = false
is_selected backend_disabled = false
is_selected backend_block = true
is_selected backend_parity = true
is_selected backend_per_tx = true

-- One pass of the loop, given what follows it.
unfoldable pub trace_pass :
    TraceSource
    → ℕ
    → Act (List InternalTransfer)
    → Outcome Fault (List InternalTransfer)
    → Act (List InternalTransfer)
trace_pass source k again (done ts) s = (done ts, s)
trace_pass source k again panicked s = (panicked, s)
trace_pass source k again (failed e) s =
    if source.ended k after_fetch
    then (failed cancelled, s)
    else if is_selected s.trace_backend && unsupported e
    then again (record s { trace_backend = backend_unknown })
    else if leb max_trace_attempts k
    then (done [], s)
    else if source.ended k during_sleep
    then (failed cancelled, s)
    else again s

-- The loop of traceBlockInternal from attempt k on. No fuel is a panic.
unfoldable pub trace_attempts : ℕ → TraceSource → ℕ → List Transaction → Act (List InternalTransfer)
trace_attempts zero source k txs s = (panicked, s)
trace_attempts (suc fuel) source k txs s =
    let again = trace_attempts fuel source (suc k) txs in
    let r = fetch_traces source k txs s in trace_pass source k again r.0 r.1

-- traceBlockInternal
unfoldable pub trace_block_internal : TraceSource → List Transaction → Act (List InternalTransfer)
trace_block_internal source txs = trace_attempts 5 source 1 txs
