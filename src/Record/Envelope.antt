-- ===== src/Record/Envelope.antt =====
-- internal/record/record.go: the record types, the envelope and the payloads of the producers.
use evm_tools.Base.{ℕ, Text, codes, Bool, Option, List, ℤ}

-- Type is a string: `other` is one that is none of the constants.
pub data RecordType : Type 0 where
  event native_transfer internal_transfer reorg : RecordType
  balance_sample balance_change ownership_sample ownership_change : RecordType
  contract_sample contract_change : RecordType
  other : Text → RecordType

abbrev pub type_name : RecordType → Text
type_name event = codes "event"
type_name native_transfer = codes "native_transfer"
type_name internal_transfer = codes "internal_transfer"
type_name reorg = codes "reorg"
type_name balance_sample = codes "balance_sample"
type_name balance_change = codes "balance_change"
type_name ownership_sample = codes "ownership_sample"
type_name ownership_change = codes "ownership_change"
type_name contract_sample = codes "contract_sample"
type_name contract_change = codes "contract_change"
type_name (other t) = t

abbrev pub schema_version : ℕ
schema_version = 1

abbrev pub tool_stream : Text
tool_stream = codes "evm-stream"

abbrev pub tool_balance : Text
tool_balance = codes "evm-balance"

-- Data is `any`: the payload's type is a parameter. Empty texts and lists stand for omitted ones.
pub record Envelope (D : Type 0) : Type 0 where
  pub schema : ℤ
  pub type : RecordType
  pub tool : Text
  pub name : Text
  pub chain : Text
  pub chain_id : ℤ
  pub block_number : ℕ
  pub block_hash : Text
  pub tx_hash : Text
  pub log_index : Option ℕ
  pub trace_address : List ℤ
  pub timestamp : Text
  pub emitted_at : Text
  pub finalized : Bool
  pub payload : D

pub record EventData : Type 0 where
  pub event_name : Text
  pub signature : Text
  pub contract : Text
  pub params : List (Text × Text)

pub record NativeTransferData : Type 0 where
  pub from_address : Text
  pub to_address : Text
  pub value_wei : Text
  pub value_ether : Text
  pub contract_creation : Bool

pub record InternalTransferData : Type 0 where
  pub from_address : Text
  pub to_address : Text
  pub value_wei : Text
  pub value_ether : Text
  pub call_type : Text
  pub contract_creation : Bool

pub record ReorgData : Type 0 where
  pub fork_block : ℕ
  pub from_block : ℕ
  pub to_block : ℕ
  pub depth : ℕ
  pub old_hash : Text
  pub new_hash : Text
  pub depth_exceeded : Bool

-- What evm-stream puts into Data.
pub data Payload : Type 0 where
  event_data : EventData → Payload
  native_data : NativeTransferData → Payload
  internal_data : InternalTransferData → Payload
  reorg_data : ReorgData → Payload
