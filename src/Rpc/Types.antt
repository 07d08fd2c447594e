-- ===== src/Rpc/Types.antt =====
-- The values that a node returns: internal/rpc/eth.go and trace.go. Quantities are texts, as sent.
use evm_tools.Base.{
  ◌≡◌, refl, ◌⊎◌, inl, inr, ℕ, Bool, false, Option, none, some, List, Text, ◌==◌, ℤ,
}
use evm_tools.Rpc.Hex.{hex_uint, hex_big}
use evm_tools.Rpc.Errors.{RpcError}

pub record Transaction : Type 0 where
  pub hash : Text
  pub from_address : Text
  -- empty for a contract creation
  pub to_address : Text
  pub value : Text

-- Transaction.ValueBig.
unfoldable pub value_big : Transaction → Option ℤ
value_big t = hex_big t.value

pub record Block : Type 0 where
  pub number : Text
  pub hash : Text
  pub parent_hash : Text
  pub timestamp : Text
  pub transactions : List Transaction

-- Block.NumberUint and Block.TimestampUint.
unfoldable pub number_uint : Block → Option ℕ
number_uint b = hex_uint b.number

unfoldable pub timestamp_uint : Block → Option ℕ
timestamp_uint b = hex_uint b.timestamp

pub record Log : Type 0 where
  pub address : Text
  pub topics : List Text
  pub log_data : Text
  pub block_number : Text
  pub block_hash : Text
  pub tx_hash : Text
  pub log_index : Text
  pub removed : Bool

-- Log.BlockNumberUint and Log.LogIndexUint.
unfoldable pub block_number_uint : Log → Option ℕ
block_number_uint l = hex_uint l.block_number

unfoldable pub log_index_uint : Log → Option ℕ
log_index_uint l = hex_uint l.log_index

pub record Receipt : Type 0 where
  pub status : Text
  pub tx_hash : Text
  pub contract_address : Text

-- Receipt.Succeeded.
unfoldable pub succeeded : Receipt → Bool
succeeded r = elim (hex_uint r.status) [ none ↦ false | some v ↦ v == 1 ]

-- CallFrame: `Calls` is a slice of frames.
mutual
  pub data CallFrame : Type 0 where
    frame : Text → Text → Text → Text → Text → CallFrames → CallFrame

  pub data CallFrames : Type 0 where
    no_frames : CallFrames
    more_frames : CallFrame → CallFrames → CallFrames

pub record TxTrace : Type 0 where
  pub tx_hash : Text
  pub result : Option CallFrame

pub record ParityAction : Type 0 where
  pub call_type : Text
  pub from_address : Text
  pub to_address : Text
  pub value : Text
  pub address : Text
  pub refund_address : Text
  pub balance : Text

pub record ParityTrace : Type 0 where
  pub type : Text
  pub action : ParityAction
  -- the created address, where there is a result
  pub result : Option Text
  pub error : Text
  pub trace_address : List ℤ
  pub tx_hash : Text

-- What a call of the client answers.
pub data Answer {ℓ} (A : Type ℓ) : Type ℓ where
  got : A → Answer A
  refused : RpcError → Answer A

-- To split on an answer and keep the equation.
pub Answer-cases {ℓ} :
    {A : Type ℓ} (a : Answer A) → ((x : A) × (a ≡ got x)) ⊎ ((e : RpcError) × (a ≡ refused e))
Answer-cases (got x) = inl (x, refl)
Answer-cases (refused e) = inr (e, refl)
