-- ===== src/Record/Key/Collision.antt =====
-- The dedup keys of internal/record/key.go across types: an event and an internal transfer of one
-- transaction can have the same key.
use evm_tools.Base.{pos, ℕ, ◌≡◌, ◌≢◌, ◌↔◌, ◌⊎◌, inl, inr, sym, ap, ◌∙◌, arith, some, [], ◌∷◌}
use evm_tools.Record.Envelope.{RecordType, event, native_transfer, internal_transfer, Envelope}
use evm_tools.Record.Key.{join, sep, join_injective, log_index_str, dedup_parts, dedup_key}
use evm_tools.Record.Key.Parts.{format_int_injective, log_index-trace_addr}
use evm_tools.Record.Key.Identity.{IsKeyable, dedup_parts-Lacks, dedup_parts-ne-nil}

module _ {D : Type 0} where
  key_of : (t : RecordType) (e : Envelope D) → e.type ≡ t → dedup_key e ≡ join sep (dedup_parts t e)
  unfolding dedup_key
  key_of t e h = ap (λ u. join sep (dedup_parts u e)) h

  -- Two keys are equal exactly if the components are.
  keys_iff :
      (t u : RecordType) (e f : Envelope D)
      → IsKeyable e
      → IsKeyable f
      → e.type ≡ t
      → f.type ≡ u
      → (dedup_key e ≡ dedup_key f) ↔ (dedup_parts t e ≡ dedup_parts u f)
  keys_iff t u e f he hf ht hu = (
    λ h.
        join_injective sep (dedup_parts t e) (dedup_parts u f) (dedup_parts-ne-nil t e)
          (dedup_parts-ne-nil u f) (dedup_parts-Lacks t e he) (dedup_parts-Lacks u f hf)
          (sym (key_of t e ht) ∙ h ∙ key_of u f hu),
    λ h. key_of t e ht ∙ ap (join sep) h ∙ sym (key_of u f hu),
  )

  -- An event with log index `n` and an internal transfer have the same dedup key exactly when they
  -- are of one chain and one transaction and the transfer's call path is the one step `n`.
  pub event_internal_iff :
      (e f : Envelope D) (n : ℕ)
      → IsKeyable e
      → IsKeyable f
      → e.type ≡ event
      → e.log_index ≡ some n
      → f.type ≡ internal_transfer
      → (dedup_key e ≡ dedup_key f)
        ↔ ((e.chain_id ≡ f.chain_id) × (e.tx_hash ≡ f.tx_hash) × (f.trace_address ≡ pos n ∷ []))
  unfolding dedup_parts
  event_internal_iff e f n he hf ht hi hu =
      let keys = keys_iff event internal_transfer e f he hf ht hu in
      let path = log_index-trace_addr n f.trace_address hf.path_natural in
      let index = ap log_index_str hi in
      (
        λ h. ground (arith, keys.0 h, index, format_int_injective e.chain_id f.chain_id, path),
        λ h. keys.1 (ground (arith, index, path)),
      )

  -- A native transfer shares no dedup key with an event or an internal transfer.
  pub native_separate :
      (e f : Envelope D)
      → IsKeyable e
      → IsKeyable f
      → e.type ≡ native_transfer
      → (f.type ≡ event) ⊎ (f.type ≡ internal_transfer)
      → dedup_key e ≢ dedup_key f
  unfolding dedup_parts
  native_separate e f he hf ht (inl u) h =
      ground (arith, (keys_iff native_transfer event e f he hf ht u).0 h)
  native_separate e f he hf ht (inr u) h =
      ground (arith, (keys_iff native_transfer internal_transfer e f he hf ht u).0 h)
