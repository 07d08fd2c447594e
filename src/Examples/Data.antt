-- ===== src/Examples/Data.antt =====
-- The data of the examples.
use evm_tools.Base.{
  ℕ, ◌+◌, ◌==◌, true, false, Option, none, some, List, [], ◌∷◌, Text, codes, if◌then◌else◌, ℤ, pos,
}
use evm_tools.Base.Exec.{done}
use evm_tools.Record.Envelope.{RecordType, Envelope, tool_stream}
use evm_tools.Rpc.Errors.{RpcError, deadline}
use evm_tools.Rpc.Types.{Block, Log, Answer, got}
use evm_tools.Stream.State.{Stream, NativeFilter, ResolvedContract, backend_unknown, Emitter, Act}
use evm_tools.Stream.Reorg.Tracker.{ReorgTracker}

abbrev pub sample : RecordType → Option ℕ → List ℤ → Envelope Text
sample type index path = record {
  schema = pos 1;
  type = type;
  tool = tool_stream;
  name = codes "usdc";
  chain = codes "eth";
  chain_id = pos 1;
  block_number = 7;
  block_hash = codes "0xb7";
  tx_hash = codes "0xab";
  log_index = index;
  trace_address = path;
  timestamp = [];
  emitted_at = codes "t";
  finalized = false;
  payload = [];
}

abbrev pub every_transfer : NativeFilter
every_transfer = record { enabled = true; include_internal = false; from = none; to = none }

abbrev pub no_transfer : NativeFilter
no_transfer = record { enabled = false; include_internal = false; from = none; to = none }

abbrev pub contract : ResolvedContract
contract = record { name = codes "usdc"; address = codes "0xaa"; by_topic0 = [] }

-- The hashes of the heights 4 and 5, in a window of ten.
abbrev pub tracker : ReorgTracker
tracker = record { depth = 10; hashes = (4, codes "0xa4") ∷ (5, codes "0xa5") ∷ [] }

abbrev pub stream : Stream
stream = record {
  chain_name = codes "eth";
  chain_id = pos 1;
  contracts = contract ∷ [];
  native = no_transfer;
  log_chunk_blocks = 2;
  last_head = 5;
  skipped_seen = [];
  reorg = some tracker;
  finalized_unsupported = true;
  finalized_block = 0;
  finalized_known = false;
  trace_backend = backend_unknown;
  attempts = 0;
  sent = [];
}

abbrev pub block : Text → Block
block hash = record {
  number = codes "0x5";
  hash = hash;
  parent_hash = [];
  timestamp = codes "0x1";
  transactions = [];
}

abbrev pub takes_all : Emitter
takes_all n = none

abbrev pub lost : RpcError
lost = deadline (codes "context deadline exceeded")

-- A node whose chain has another block at height 5.
abbrev pub forked_node : ℕ → Answer Block
forked_node n = got (block (if n == 5 then codes "0xc5" else codes "0xa4"))

-- To count what is emitted.
abbrev pub count_log : Log → Act (Unit {0})
count_log l s = (done tt, record s { attempts = s.attempts + 1 })
