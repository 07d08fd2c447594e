-- ===== src/Record/Key/Identity.antt =====
-- DedupKey of internal/record/key.go identifies a record among those of its type.
use evm_tools.Base.{◌≡◌, sym, ap, ◌∙◌, ◌≢◌, ◌↔◌, arith, [], All, decimal_injective}
use evm_tools.Record.Envelope.{
  RecordType, event, native_transfer, internal_transfer, reorg, balance_change, ownership_change,
  contract_change, type_name, Envelope,
}
use evm_tools.Record.Key.{Lacks, join, sep, join_injective, dedup_parts, dedup_key}
use evm_tools.Record.Key.Parts.{
  IsPath, decimal-Lacks, format_int_injective, format_int-Lacks, log_index_str_injective,
  log_index_str-Lacks, trace_addr_str_injective, trace_addr_str-Lacks,
}

-- No text of the key holds the separator, and a call path has no negative step.
pub record IsKeyable {D : Type 0} (e : Envelope D) : Type 0 where
  pub type_lacks : Lacks sep (type_name e.type)
  pub name_lacks : Lacks sep e.name
  pub tx_hash_lacks : Lacks sep e.tx_hash
  pub block_hash_lacks : Lacks sep e.block_hash
  pub emitted_at_lacks : Lacks sep e.emitted_at
  pub path_natural : IsPath e.trace_address

module _ {D : Type 0} where
  abbrev SameSample : Envelope D → Envelope D → Type 0
  SameSample e f =
      (e.chain_id ≡ f.chain_id)
      × (e.name ≡ f.name)
      × (e.block_number ≡ f.block_number)
      × (e.emitted_at ≡ f.emitted_at)

  abbrev SameChange : Envelope D → Envelope D → Type 0
  SameChange e f = (e.chain_id ≡ f.chain_id) × (e.name ≡ f.name) × (e.block_number ≡ f.block_number)

  -- The fields that identify a record of the type.
  abbrev pub SameIdentity : RecordType → Envelope D → Envelope D → Type 0
  SameIdentity event e f =
      (e.chain_id ≡ f.chain_id) × (e.tx_hash ≡ f.tx_hash) × (e.log_index ≡ f.log_index)
  SameIdentity native_transfer e f = (e.chain_id ≡ f.chain_id) × (e.tx_hash ≡ f.tx_hash)
  SameIdentity internal_transfer e f =
      (e.chain_id ≡ f.chain_id) × (e.tx_hash ≡ f.tx_hash) × (e.trace_address ≡ f.trace_address)
  SameIdentity reorg e f =
      (e.chain_id ≡ f.chain_id) × (e.block_number ≡ f.block_number) × (e.block_hash ≡ f.block_hash)
  SameIdentity balance_change e f = SameChange e f
  SameIdentity ownership_change e f = SameChange e f
  SameIdentity contract_change e f = SameChange e f
  SameIdentity _ e f = SameSample e f

  pub dedup_parts-Lacks :
      (t : RecordType) (e : Envelope D) → IsKeyable e → All (Lacks sep) (dedup_parts t e)
  unfolding dedup_parts
  dedup_parts-Lacks event e k =
      assumption (format_int-Lacks e.chain_id, log_index_str-Lacks e.log_index, tt)
  dedup_parts-Lacks t e k = assumption (
    format_int-Lacks e.chain_id,
    trace_addr_str-Lacks e.trace_address,
    decimal-Lacks sep e.block_number (omega arith),
    tt,
  )

  pub dedup_parts-ne-nil : (t : RecordType) (e : Envelope D) → dedup_parts t e ≢ []
  unfolding dedup_parts
  dedup_parts-ne-nil event e h = cc
  dedup_parts-ne-nil t e h = cc

  -- Equal components are equal identities: every component is determined by its text.
  dedup_parts_iff :
      (t : RecordType) (e f : Envelope D)
      → IsPath e.trace_address
      → IsPath f.trace_address
      → e.type ≡ f.type
      → (dedup_parts t e ≡ dedup_parts t f) ↔ SameIdentity t e f
  unfolding dedup_parts
  dedup_parts_iff event e f he hf same = (
    λ h. ground (
      arith,
      format_int_injective e.chain_id f.chain_id,
      log_index_str_injective e.log_index f.log_index,
    ),
    λ h. cc,
  )
  dedup_parts_iff internal_transfer e f he hf same = (
    λ h. ground (
      arith,
      format_int_injective e.chain_id f.chain_id,
      trace_addr_str_injective e.trace_address f.trace_address he hf,
    ),
    λ h. cc,
  )
  dedup_parts_iff t e f he hf same = (
    λ h. ground (
      arith,
      format_int_injective e.chain_id f.chain_id,
      decimal_injective e.block_number f.block_number,
    ),
    λ h. cc,
  )

  -- Among the records of one type, two have the same dedup key exactly when the fields that identify
  -- a record of the type are the same, if none of their texts holds the separator.
  pub dedup_key_iff :
      (e f : Envelope D)
      → IsKeyable e
      → IsKeyable f
      → e.type ≡ f.type
      → (dedup_key e ≡ dedup_key f) ↔ SameIdentity e.type e f
  unfolding dedup_key
  dedup_key_iff e f he hf same =
      let parts = dedup_parts_iff e.type e f he.path_natural hf.path_natural same in
      (
        λ h. parts.0 (
            join_injective sep (dedup_parts e.type e) (dedup_parts e.type f)
              (dedup_parts-ne-nil e.type e) (dedup_parts-ne-nil e.type f)
              (dedup_parts-Lacks e.type e he) (dedup_parts-Lacks e.type f hf)
              (h ∙ sym (ap (λ t. join sep (dedup_parts t f)) same))),
        λ h. ap (join sep) (parts.1 h) ∙ ap (λ t. join sep (dedup_parts t f)) same,
      )
