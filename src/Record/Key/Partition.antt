-- ===== src/Record/Key/Partition.antt =====
-- PartitionIdentity of internal/record/key.go against DedupKey, and what a reorg leaves of the keys.
use evm_tools.Base.{ℕ, ◌≡◌, refl, ap, ◌∙◌, ◌⊎◌, arith, Bool, Text}
use evm_tools.Record.Envelope.{
  RecordType, event, native_transfer, internal_transfer, reorg, Envelope,
}
use evm_tools.Record.Key.{join, sep, dedup_parts, dedup_key, partition_parts, partition_identity}
use evm_tools.Record.Key.Identity.{IsKeyable, SameIdentity, dedup_key_iff}

-- The types of the records that stand for a transaction's effects.
abbrev pub IsTxBacked : RecordType → Type 0
IsTxBacked t = (t ≡ event) ⊎ (t ≡ native_transfer) ⊎ (t ≡ internal_transfer)

module _ {D : Type 0} where
  partition_parts-eq :
      (t : RecordType) (e f : Envelope D)
      → e.type ≡ f.type
      → SameIdentity t e f
      → partition_parts t e ≡ partition_parts t f
  unfolding partition_parts
  partition_parts-eq event e f same h = cc
  partition_parts-eq native_transfer e f same h = cc
  partition_parts-eq internal_transfer e f same h = cc
  partition_parts-eq reorg e f same h = cc
  partition_parts-eq t e f same h = cc

  -- Two records of one type with the same dedup key have the same partition identity, if none of
  -- their texts holds the separator: a duplicate goes to the partition of its first delivery.
  pub dedup-partition :
      (e f : Envelope D)
      → IsKeyable e
      → IsKeyable f
      → e.type ≡ f.type
      → dedup_key e ≡ dedup_key f
      → partition_identity e ≡ partition_identity f
  unfolding partition_identity
  dedup-partition e f he hf same h =
      ap (join sep) (partition_parts-eq e.type e f same ((dedup_key_iff e f he hf same).0 h))
      ∙ ap (λ t. join sep (partition_parts t f)) same

  -- What a record looks like when its transaction is included again in another block.
  abbrev pub reincluded : Envelope D → ℕ → Text → Text → Text → Bool → Envelope D
  reincluded e number hash timestamp emitted_at finalized = record e {
    block_number = number;
    block_hash = hash;
    timestamp = timestamp;
    emitted_at = emitted_at;
    finalized = finalized;
  }

  parts_stable :
      (t : RecordType) (e : Envelope D) (number : ℕ) (hash timestamp emitted_at : Text) (fin : Bool)
      → IsTxBacked t
      → (dedup_parts t (reincluded e number hash timestamp emitted_at fin) ≡ dedup_parts t e)
        × (partition_parts t (reincluded e number hash timestamp emitted_at fin)
            ≡ partition_parts t e)
  unfolding dedup_parts partition_parts
  parts_stable event e number hash timestamp emitted_at fin h = (refl, refl)
  parts_stable native_transfer e number hash timestamp emitted_at fin h = (refl, refl)
  parts_stable internal_transfer e number hash timestamp emitted_at fin h = (refl, refl)
  parts_stable t e number hash timestamp emitted_at fin h = ground arith

  -- An event, a native transfer or an internal transfer keeps its dedup key and its partition
  -- identity when its transaction is included again in any other block at any other time.
  pub reorg_stable :
      (e : Envelope D) (number : ℕ) (hash timestamp emitted_at : Text) (fin : Bool)
      → IsTxBacked e.type
      → (dedup_key (reincluded e number hash timestamp emitted_at fin) ≡ dedup_key e)
        × (partition_identity (reincluded e number hash timestamp emitted_at fin)
            ≡ partition_identity e)
  unfolding dedup_key partition_identity
  reorg_stable e number hash timestamp emitted_at fin h =
      let parts = parts_stable e.type e number hash timestamp emitted_at fin h in
      (ap (join sep) parts.0, ap (join sep) parts.1)
