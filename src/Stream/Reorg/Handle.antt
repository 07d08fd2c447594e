-- ===== src/Stream/Reorg/Handle.antt =====
-- handleReorgIfAny and emitReorg of internal/stream/reorg.go.
pub mod Laws
pub mod Detect
use evm_tools.Base.{
  ℕ, zero, suc, ◌+◌, ◌-◌, Bool, true, false, not, ◌&&◌, Option, none, some, List, [], ◌∷◌, Text,
  codes, ltb, ◌==◌, if◌then◌else◌, text_eq, equal_fold, ℤ, pos,
}
use evm_tools.Base.Exec.{Outcome, done, failed, Exec, pure, lift, gets, modify, ◌>>=◌, ◌>>◌}
use evm_tools.Record.Envelope.{Envelope, Payload, ReorgData, reorg, reorg_data, tool_stream}
use evm_tools.Rpc.Types.{Block, Answer, got, refused}
use evm_tools.Stream.State.{Stream, Act, answer, Emitter, emit_record}
use evm_tools.Stream.Reorg.Tracker.{ReorgTracker, recorded, forget_above}
use evm_tools.Stream.Reorg.Walk.{resolve_fork}

-- What the node answers in one call of handleReorgIfAny: the head header fetched before it, and the
-- header of a height where it is checked, looked up as the tip's provenance, and walked over. The
-- three need not agree with one another.
pub record View : Type 0 where
  pub head_block : Option Block
  pub check : ℕ → Answer Block
  pub tip : ℕ → Answer Block
  pub walk : ℕ → Answer Block

abbrev pub hash_of : Answer Block → Answer Text
hash_of (got b) = got b.hash
hash_of (refused e) = refused e

-- The node's hash at the frontier, from the head header where that tells it.
unfoldable pub frontier_hash : Option Block → ℕ → ℕ → Answer Block → Answer Text
frontier_hash none head frontier asked = hash_of asked
frontier_hash (some b) head frontier asked =
    if (head == frontier) && not (text_eq b.hash [])
    then got b.hash
    else if (head == frontier + 1) && not (text_eq b.parent_hash [])
    then got b.parent_hash
    else hash_of asked

-- The envelope of emitReorg; the writer fills in the rest.
unfoldable pub reorg_envelope : Stream → ReorgData → Envelope Payload
reorg_envelope s d = record {
  schema = pos 0;
  type = reorg;
  tool = tool_stream;
  name = codes "reorg";
  chain = s.chain_name;
  chain_id = s.chain_id;
  block_number = d.to_block;
  block_hash = d.new_hash;
  tx_hash = [];
  log_index = none;
  trace_address = [];
  timestamp = [];
  emitted_at = [];
  finalized = false;
  payload = reorg_data d;
}

-- emitReorg
unfoldable pub emit_reorg : Emitter → ReorgData → Act (Unit {0})
emit_reorg out d s = emit_record out (reorg_envelope s d) s

-- What follows a mismatch at the frontier.
unfoldable pub rewind : Emitter → View → ReorgTracker → ℕ → Text → Act (ℕ × Bool)
rewind out view r frontier recorded_hash = do
  d ← lift (answer (resolve_fork r (view.tip frontier) view.walk frontier recorded_hash))
  emit_reorg out d
  modify (λ s. record s { reorg = forget_above s.reorg d.fork_block })
  pure (d.fork_block + 1, true)

-- The highest processed height that the node can still confirm.
unfoldable pub frontier_of : ℕ → ℕ → ℕ
frontier_of next head = let frontier = next - 1 in if ltb head frontier then head else frontier

-- The check of the frontier of a tracker, from the hash recorded there.
unfoldable pub check_frontier :
    Emitter → View → ReorgTracker → ℕ → ℕ → ℕ → Option Text → Act (ℕ × Bool)
check_frontier out view r next head frontier none = pure (next, false)
check_frontier out view r next head frontier (some recorded_hash) = do
  node_hash ← lift (answer (frontier_hash view.head_block head frontier (view.check frontier)))
  if equal_fold node_hash recorded_hash
      then pure (next, false)
      else rewind out view r frontier recorded_hash

abbrev handle_tracked : Emitter → View → ℕ → ℕ → Option ReorgTracker → Act (ℕ × Bool)
handle_tracked out view next head none = pure (next, false)
handle_tracked out view next head (some r) =
    if next == 0
    then pure (next, false)
    else let frontier = frontier_of next head in
      check_frontier out view r next head frontier (recorded (some r) frontier)

-- handleReorgIfAny: the next block, and whether it was rewound.
unfoldable pub handle_reorg_if_any : Emitter → View → ℕ → ℕ → Act (ℕ × Bool)
handle_reorg_if_any out view next head s = handle_tracked out view next head s.reorg s
