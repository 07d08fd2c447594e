-- ===== src/Record/Key.antt =====
-- internal/record/key.go: the keys by which sinks deduplicate and partition records.
mod Join
pub mod Parts
pub mod Identity
pub mod Partition
pub mod Collision
pub use Join.{Lacks, join_injective}
unfoldable pub use Join.{join}
use evm_tools.Base.{ℤ, format_int, ℕ, Text, Option, none, some, List, [], ◌∷◌, map, decimal}
use evm_tools.Record.Envelope.{
  RecordType, event, native_transfer, internal_transfer, reorg, balance_sample, balance_change,
  ownership_sample, ownership_change, contract_sample, contract_change, other, type_name, Envelope,
}

abbrev pub sep : ℕ
sep = b'|'

abbrev pub dash : ℕ
dash = b'-'

unfoldable pub log_index_str : Option ℕ → Text
log_index_str none = b'_' ∷ []
log_index_str (some n) = decimal n

unfoldable pub trace_addr_str : List ℤ → Text
trace_addr_str [] = b'_' ∷ []
trace_addr_str (n ∷ path) = join dash (map format_int (n ∷ path))

module _ {D : Type 0} where
  -- The sampled records, and a type that is not known.
  abbrev pub sample_parts : Envelope D → List Text
  sample_parts e =
      format_int e.chain_id ∷ type_name e.type ∷ e.name ∷ decimal e.block_number ∷ e.emitted_at ∷ []

  abbrev pub change_parts : Envelope D → List Text
  change_parts e = format_int e.chain_id ∷ type_name e.type ∷ e.name ∷ decimal e.block_number ∷ []

  -- The switch of DedupKey: the components that the type's case joins.
  unfoldable pub dedup_parts : RecordType → Envelope D → List Text
  unfolding log_index_str trace_addr_str
  dedup_parts event e = format_int e.chain_id ∷ e.tx_hash ∷ log_index_str e.log_index ∷ []
  dedup_parts native_transfer e = format_int e.chain_id ∷ e.tx_hash ∷ []
  dedup_parts internal_transfer e =
      format_int e.chain_id ∷ e.tx_hash ∷ trace_addr_str e.trace_address ∷ []
  dedup_parts reorg e =
      format_int e.chain_id ∷ type_name e.type ∷ decimal e.block_number ∷ e.block_hash ∷ []
  dedup_parts balance_sample e = sample_parts e
  dedup_parts ownership_sample e = sample_parts e
  dedup_parts contract_sample e = sample_parts e
  dedup_parts balance_change e = change_parts e
  dedup_parts ownership_change e = change_parts e
  dedup_parts contract_change e = change_parts e
  dedup_parts (other t) e = sample_parts e

  -- DedupKey.
  unfoldable pub dedup_key : Envelope D → Text
  unfolding dedup_parts join
  dedup_key e = join sep (dedup_parts e.type e)

  -- The switch of PartitionIdentity.
  unfoldable pub partition_parts : RecordType → Envelope D → List Text
  unfolding log_index_str
  partition_parts event e = format_int e.chain_id ∷ e.tx_hash ∷ log_index_str e.log_index ∷ []
  partition_parts native_transfer e = format_int e.chain_id ∷ e.tx_hash ∷ []
  partition_parts internal_transfer e = format_int e.chain_id ∷ e.tx_hash ∷ []
  partition_parts reorg e = format_int e.chain_id ∷ type_name e.type ∷ []
  partition_parts _ e = format_int e.chain_id ∷ type_name e.type ∷ e.name ∷ []

  -- PartitionIdentity.
  unfoldable pub partition_identity : Envelope D → Text
  unfolding partition_parts join
  partition_identity e = join sep (partition_parts e.type e)
