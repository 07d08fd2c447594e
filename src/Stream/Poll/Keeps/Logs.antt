-- ===== src/Stream/Poll/Keeps/Logs.antt =====
-- emitLog and processLogs of internal/stream/stream.go leave the reorg tracker alone.
use evm_tools.Base.{ℕ, zero, suc, ◌+◌, ◌≡◌, refl, arith, Option, none, some, List}
use evm_tools.Base.Exec.{done, failed, panicked, lift, fail, ◌>>=◌, ◌>>◌}
use evm_tools.Rpc.Types.{Log, block_number_uint, log_index_uint, Answer, got, refused}
use evm_tools.Stream.State.{Act, rpc, parsed, Emitter, emit_record, EventAbi}
use evm_tools.Stream.Decode.Hex.{Decoded}
use evm_tools.Stream.Decode.Log.{Params, decode_log}
use evm_tools.Stream.Logs.{
  skip_log, event_envelope, emit_decoded, emit_log, emit_matched, matched_event, LogSource, splits,
  middle, on_answer, process_logs,
}
use evm_tools.Stream.Poll.Keeps.{
  Keeps, bind-Keeps, lift-Keeps, for_each-Keeps, emit_record-Keeps, if_Keeps,
}

pub emit_decoded-Keeps :
    (out : Emitter) (l : Log) (ev : EventAbi) (d : Decoded Params) → Keeps (emit_decoded out l ev d)
unfolding emit_decoded skip_log
emit_decoded-Keeps out l ev panicked s = refl
emit_decoded-Keeps out l ev (failed e) s = ground arith
emit_decoded-Keeps out l ev (done params) s =
    let send : ℕ → ℕ → Act (Unit {0}) =
      λ number index. emit_record out (event_envelope s l ev params number index) in
    let indexed : ℕ → Act (Unit {0}) = λ number. lift (parsed (log_index_uint l)) >>= send number in
    lift-Keeps (parsed (block_number_uint l)) indexed
      (λ number.
        lift-Keeps (parsed (log_index_uint l)) (send number) (λ index. emit_record-Keeps out _))
      s

pub emit_log-Keeps :
    (max_elements : ℕ) (out : Emitter) (l : Log) → Keeps (emit_log max_elements out l)
unfolding emit_log
emit_log-Keeps max_elements out l s = matched (matched_event s.contracts l)
  where
    matched : (ev : Option EventAbi) → (emit_matched max_elements out l ev s).1.reorg ≡ s.reorg
    matched none = refl
    matched (some ev) = emit_decoded-Keeps out l ev (decode_log max_elements ev l) s

module _ (emit : Log → Act (Unit {0})) (emit_keeps : (l : Log) → Keeps (emit l))
    (source : LogSource) where
  pub on_answer-Keeps :
      (lo hi : ℕ) (halves : Act (Unit {0})) (a : Answer (List Log))
      → Keeps halves
      → Keeps (on_answer emit source lo hi halves a)
  unfolding on_answer
  on_answer-Keeps lo hi halves (got logs) h = for_each-Keeps emit logs emit_keeps
  on_answer-Keeps lo hi halves (refused e) h =
      if_Keeps (splits source lo hi e) halves (fail (rpc e)) h (λ s. refl)

  pub process_logs-Keeps : (fuel lo hi : ℕ) → Keeps (process_logs emit source fuel lo hi)
  unfolding process_logs
  process_logs-Keeps zero lo hi = λ s. refl
  process_logs-Keeps (suc fuel) lo hi =
      let left = process_logs emit source fuel lo (middle lo hi) in
      let right = process_logs emit source fuel (middle lo hi + 1) hi in
      on_answer-Keeps lo hi (left >> right) (source.get_logs lo hi) (
        bind-Keeps left (λ _. right) (process_logs-Keeps fuel lo (middle lo hi))
          (λ _. process_logs-Keeps fuel (middle lo hi + 1) hi))
