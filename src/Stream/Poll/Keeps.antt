-- ===== src/Stream/Poll/Keeps.antt =====
-- Methods of the stream that leave its reorg tracker alone.
pub mod Logs
pub mod Native
pub mod Range
use evm_tools.Base.{
  ℕ, zero, suc, ◌+◌, ◌-◌, ◌%◌, ◌^◌, ◌≡◌, refl, arith, if◌then◌else◌, leb, ◌∙◌, Bool, true, false,
  Option, none, some, List, [], ◌∷◌, Text,
}
use evm_tools.Base.Exec.{Outcome, done, failed, panicked, continue, lift, pure, fail, ◌>>=◌, ◌>>◌}
use evm_tools.Record.Envelope.{Envelope, Payload}
use evm_tools.Rpc.Types.{
  Log, block_number_uint, log_index_uint, number_uint, timestamp_uint, Block, Transaction, Answer,
  got, refused,
}
use evm_tools.Stream.State.{
  Stream, Act, Fault, rpc, parsed, answer, Emitter, emit_record, EventAbi, TraceBackend,
  backend_unknown, backend_disabled, backend_block, backend_parity, backend_per_tx,
}
use evm_tools.Stream.Decode.Hex.{Decoded}
use evm_tools.Stream.Decode.Log.{Params, decode_log}
use evm_tools.Stream.Trace.Frames.{InternalTransfer}
use evm_tools.Stream.Trace.Backend.{
  TraceSource, probe, select_backend, fetch_by, fetch_traces, trace_pass, trace_attempts,
  trace_block_internal,
}
use evm_tools.Stream.Logs.{
  skip_log, event_envelope, emit_decoded, emit_log, emit_matched, matched_event, for_each,
  LogSource, splits, middle, on_answer, process_logs,
}
use evm_tools.Stream.Native.Detect.{NativeTransfer, detect_native_transfers}
use evm_tools.Stream.Native.Emit.{
  BlockSource, emit_native, emit_internal, emit_internal_transfers, native_block, process_native,
  is_disabled, time_of,
}
use evm_tools.Stream.Poll.{
  PollSource, watches_logs, process_range, Progress, after_chunk, poll_chunks, chunk_end,
}

-- A method that leaves the tracker as it is, however it ends.
abbrev pub Keeps : {A : Type 0} → Act A → Type 0
Keeps m = (s : Stream) → (m s).1.reorg ≡ s.reorg

pub continue-Keeps :
    {A B : Type 0} (r : Outcome Fault A × Stream) (f : A → Act B)
    → ((a : A) → Keeps (f a))
    → (continue r.0 f r.1).1.reorg ≡ r.1.reorg
continue-Keeps (done a, s) f h = h a s
continue-Keeps (failed e, s) f h = refl
continue-Keeps (panicked, s) f h = refl

pub bind-Keeps :
    {A B : Type 0} (m : Act A) (f : A → Act B) → Keeps m → ((a : A) → Keeps (f a)) → Keeps (m >>= f)
bind-Keeps m f hm hf s = continue-Keeps (m s) f hf ∙ hm s

pub lift-Keeps :
    {A B : Type 0} (r : Outcome Fault A) (f : A → Act B)
    → ((a : A) → Keeps (f a))
    → Keeps (lift r >>= f)
lift-Keeps r f h s = continue-Keeps (r, s) f h

pub for_each-Keeps :
    {A : Type 0} (f : A → Act (Unit {0})) (xs : List A)
    → ((a : A) → Keeps (f a))
    → Keeps (for_each f xs)
unfolding for_each
for_each-Keeps f [] h s = refl
for_each-Keeps f (x ∷ xs) h s = bind-Keeps (f x) _ (h x) (λ _. for_each-Keeps f xs h) s

pub emit_record-Keeps : (out : Emitter) (env : Envelope Payload) → Keeps (emit_record out env)
unfolding emit_record
emit_record-Keeps out env s = ground arith

pub if_Keeps :
    {A : Type 0} (b : Bool) (m n : Act A) → Keeps m → Keeps n → Keeps (λ s. (if b then m else n) s)
if_Keeps true m n hm hn = hm
if_Keeps false m n hm hn = hn

pub either_keeps :
    {A : Type 0} (b : Bool) (p q : Outcome Fault A × Stream) (s : Stream)
    → p.1.reorg ≡ s.reorg
    → q.1.reorg ≡ s.reorg
    → (if b then p else q).1.reorg ≡ s.reorg
either_keeps true p q s hp hq = hp
either_keeps false p q s hp hq = hq
