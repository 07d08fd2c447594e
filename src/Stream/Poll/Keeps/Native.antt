-- ===== src/Stream/Poll/Keeps/Native.antt =====
-- So do the transfers of internal/stream/native.go and internal.go.
use evm_tools.Base.{ℕ, zero, suc, refl, arith, if◌then◌else◌, ◌∙◌, List, [], ◌∷◌, Text}
use evm_tools.Base.Exec.{Outcome, done, failed, panicked, lift, pure, ◌>>=◌, ◌>>◌}
use evm_tools.Rpc.Types.{number_uint, timestamp_uint, Block, Transaction}
use evm_tools.Stream.State.{
  Act, Fault, parsed, answer, Emitter, emit_record, TraceBackend, backend_unknown, backend_disabled,
  backend_block, backend_parity, backend_per_tx,
}
use evm_tools.Stream.Trace.Frames.{InternalTransfer}
use evm_tools.Stream.Trace.Backend.{
  TraceSource, probe, select_backend, fetch_by, fetch_traces, trace_pass, trace_attempts,
  trace_block_internal,
}
use evm_tools.Stream.Logs.{for_each}
use evm_tools.Stream.Native.Detect.{NativeTransfer, detect_native_transfers}
use evm_tools.Stream.Native.Emit.{
  BlockSource, emit_native, emit_internal, emit_internal_transfers, native_block, process_native,
  is_disabled, time_of,
}
use evm_tools.Stream.Poll.Keeps.{
  Keeps, bind-Keeps, lift-Keeps, for_each-Keeps, if_Keeps, either_keeps,
}

module _ (source : TraceSource) (k : ℕ) where
  pub probe-Keeps :
      (b : TraceBackend) (r : Outcome Fault (List InternalTransfer))
      (next : Act (List InternalTransfer))
      → Keeps next
      → Keeps (probe source k b r next)
  unfolding probe
  probe-Keeps b (done ts) next h s = refl
  probe-Keeps b panicked next h s = refl
  probe-Keeps b (failed e) next h s = ground (arith, h s)

  pub select-Keeps : (txs : List Transaction) → Keeps (select_backend source k txs)
  unfolding select_backend
  select-Keeps [] s = probe-Keeps backend_block _ _ (probe-Keeps backend_parity _ _ (λ s. refl)) s
  select-Keeps (tx ∷ txs) s =
      probe-Keeps backend_block _ _
        (probe-Keeps backend_parity _ _ (probe-Keeps backend_per_tx _ _ (λ s. refl))) s

  pub fetch-Keeps : (txs : List Transaction) (b : TraceBackend) → Keeps (fetch_by source k txs b)
  fetch-Keeps txs backend_block s = refl
  fetch-Keeps txs backend_parity s = refl
  fetch-Keeps txs backend_per_tx s = refl
  fetch-Keeps txs backend_unknown s = select-Keeps txs s
  fetch-Keeps txs backend_disabled s = select-Keeps txs s

  pub pass-Keeps :
      (again : Act (List InternalTransfer)) (r : Outcome Fault (List InternalTransfer))
      → Keeps again
      → Keeps (trace_pass source k again r)
  unfolding trace_pass
  pass-Keeps again (done ts) h s = refl
  pass-Keeps again panicked h s = refl
  pass-Keeps again (failed e) h s =
      ground (arith, h s, h (record s { trace_backend = backend_unknown }))

pub attempts_keep :
    (fuel : ℕ) (source : TraceSource) (k : ℕ) (txs : List Transaction)
    → Keeps (trace_attempts fuel source k txs)
unfolding trace_attempts fetch_traces
attempts_keep zero source k txs s = refl
attempts_keep (suc fuel) source k txs s =
    let r = fetch_by source k txs s.trace_backend s in
    pass-Keeps source k (trace_attempts fuel source (suc k) txs) r.0
      (attempts_keep fuel source (suc k) txs) r.1
    ∙ fetch-Keeps source k txs s.trace_backend s

pub emit_internal-Keeps :
    (out : Emitter) (n : ℕ) (ts : Text) (t : InternalTransfer) → Keeps (emit_internal out n ts t)
unfolding emit_internal emit_record
emit_internal-Keeps out n ts t s = ground arith

pub emit_native-Keeps :
    (out : Emitter) (b : Block) (n : ℕ) (ts : Text) (t : NativeTransfer)
    → Keeps (emit_native out b n ts t)
unfolding emit_native emit_record
emit_native-Keeps out b n ts t s = ground arith

pub internal-Keeps :
    (out : Emitter) (source : TraceSource) (b : Block) (n : ℕ) (ts : Text)
    → Keeps (emit_internal_transfers out source b n ts)
unfolding emit_internal_transfers trace_block_internal
internal-Keeps out source b n ts s =
    let send = for_each (emit_internal out n ts) in
    let traced = trace_attempts 5 source 1 b.transactions in
    either_keeps (is_disabled s.trace_backend) (done tt, s) ((traced >>= send) s) s refl
      (bind-Keeps traced send (attempts_keep 5 source 1 b.transactions)
        (λ found. for_each-Keeps (emit_internal out n ts) found (emit_internal-Keeps out n ts)) s)

pub native_block-Keeps :
    (out : Emitter) (source : BlockSource) (n : ℕ) → Keeps (native_block out source n)
unfolding native_block
native_block-Keeps out source n s =
    let ts : Block → Text = λ b. time_of source (timestamp_uint b) in
    let traced : Block → ℕ → Act (Unit {0}) = λ b number.
      if s.native.include_internal
      then emit_internal_transfers out (source.traces n) b number (ts b)
      else pure tt in
    let send : Block → ℕ → List NativeTransfer → Act (Unit {0}) =
      λ b number found. for_each (emit_native out b number (ts b)) found in
    let detect : Block → Outcome Fault (List NativeTransfer) =
      λ b. detect_native_transfers source.first_error source.receipt s.native b.transactions in
    let detected : Block → ℕ → Act (Unit {0}) =
      λ b number. lift (detect b) >>= λ found. send b number found >> traced b number in
    let numbered : Block → Act (Unit {0}) = λ b. lift (parsed (number_uint b)) >>= detected b in
    lift-Keeps (answer (source.full_block n)) numbered
      (λ b. lift-Keeps (parsed (number_uint b)) (detected b) (λ number.
        lift-Keeps (detect b) (λ found. send b number found >> traced b number)
          (λ found.
            bind-Keeps (send b number found) (λ _. traced b number)
              (for_each-Keeps (emit_native out b number (ts b)) found
                (emit_native-Keeps out b number (ts b)))
              (λ _.
                if_Keeps s.native.include_internal
                  (emit_internal_transfers out (source.traces n) b number (ts b)) (pure tt)
                  (internal-Keeps out (source.traces n) b number (ts b)) (λ s. refl)))))
      s

pub process_native-Keeps :
    (out : Emitter) (source : BlockSource) (n count : ℕ) → Keeps (process_native out source n count)
unfolding process_native
process_native-Keeps out source n zero = λ s. refl
process_native-Keeps out source n (suc count) =
    bind-Keeps (native_block out source n) (λ _. process_native out source (suc n) count)
      (native_block-Keeps out source n) (λ _. process_native-Keeps out source (suc n) count)
