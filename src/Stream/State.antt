-- ===== src/Stream/State.antt =====
-- The state and the options of evm-stream (Stream and Options of internal/stream/stream.go), its
-- errors, and the emission of a record.
use evm_tools.Base.{ℕ, ◌+◌, Bool, ◌&&◌, Option, none, some, List, [], ◌∷◌, ◌++◌, Text, leb, ℤ}
use evm_tools.Base.Exec.{Outcome, done, failed, Exec}
use evm_tools.Record.Envelope.{Envelope, Payload}
use evm_tools.Rpc.Errors.{RpcError}
use evm_tools.Rpc.Types.{Answer, got, refused}
use evm_tools.Stream.Reorg.Tracker.{ReorgTracker}

-- What the error of a write to the output is, where the program tells them apart.
pub data Errno : Type 0 where
  epipe ebadf other_errno : Errno

pub data Fault : Type 0 where
  -- an error of the client
  rpc : RpcError → Fault
  -- *emitErr
  emit : Errno → Fault
  -- a quantity of the node that does not parse
  malformed : Fault
  -- the context's error
  cancelled : Fault

pub data TraceBackend : Type 0 where
  backend_unknown backend_block backend_parity backend_per_tx backend_disabled : TraceBackend

pub record AbiInput : Type 0 where
  pub name : Text
  pub type : Text
  pub indexed : Bool

pub record EventAbi : Type 0 where
  pub name : Text
  pub signature : Text
  pub topic0 : Text
  pub inputs : List AbiInput
  pub anonymous : Bool

-- ResolvedContract: byTopic0 as an association list.
pub record ResolvedContract : Type 0 where
  pub name : Text
  pub address : Text
  pub by_topic0 : List (Text × EventAbi)

-- NativeFilter: a nil set is `none`.
pub record NativeFilter : Type 0 where
  pub enabled : Bool
  pub include_internal : Bool
  pub from : Option (List Text)
  pub to : Option (List Text)

-- The fields of Options and Stream that steer it. The last two stand for the emitter: how often it
-- was called, and the records that it accepted, in order.
pub record Stream : Type 0 where
  pub chain_name : Text
  pub chain_id : ℤ
  pub contracts : List ResolvedContract
  pub native : NativeFilter
  pub log_chunk_blocks : ℕ
  pub last_head : ℕ
  pub skipped_seen : List Text
  pub reorg : Option ReorgTracker
  pub finalized_unsupported : Bool
  pub finalized_block : ℕ
  pub finalized_known : Bool
  pub trace_backend : TraceBackend
  pub attempts : ℕ
  pub sent : List (Envelope Payload)

abbrev pub Act : Type 0 → Type 0
Act A = Exec Fault Stream A

-- isFinalized
unfoldable pub is_finalized : Stream → ℕ → Bool
is_finalized s n = s.finalized_known && leb n s.finalized_block

-- A call of the client inside a method.
abbrev pub answer : {A : Type 0} → Answer A → Outcome Fault A
answer (got a) = done a
answer (refused e) = failed (rpc e)

-- A quantity that the program parses.
abbrev pub parsed : {A : Type 0} → Option A → Outcome Fault A
parsed none = failed malformed
parsed (some a) = done a

-- What the emitter answers to its n-th call: an error, or that it took the record.
abbrev pub Emitter : Type 0
Emitter = ℕ → Option Errno

abbrev accept : Option Errno → Envelope Payload → Act (Unit {0})
accept none env s = (done tt, record s { attempts = s.attempts + 1; sent = s.sent ++ env ∷ [] })
accept (some e) env s = (failed (emit e), record s { attempts = s.attempts + 1 })

-- Emitter.Emit, its error wrapped as an emitErr.
unfoldable pub emit_record : Emitter → Envelope Payload → Act (Unit {0})
emit_record out env s = accept (out s.attempts) env s
