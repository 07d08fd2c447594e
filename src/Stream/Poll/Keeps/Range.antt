-- ===== src/Stream/Poll/Keeps/Range.antt =====
-- And so do processRange and the chunks of pollOnce (internal/stream/stream.go).
use evm_tools.Base.{ℕ, zero, suc, ◌+◌, ◌-◌, ◌%◌, ◌^◌, ◌≡◌, refl, if◌then◌else◌, leb, ◌∙◌, none}
use evm_tools.Base.Exec.{Outcome, done, failed, panicked, pure}
use evm_tools.Stream.State.{Stream, Act, Fault, Emitter}
use evm_tools.Stream.Logs.{emit_log, process_logs}
use evm_tools.Stream.Native.Emit.{process_native}
use evm_tools.Stream.Poll.{
  PollSource, watches_logs, process_range, Progress, after_chunk, poll_chunks, chunk_end,
}
use evm_tools.Stream.Poll.Keeps.{Keeps, bind-Keeps, if_Keeps, either_keeps}
use evm_tools.Stream.Poll.Keeps.Logs.{emit_log-Keeps, process_logs-Keeps}
use evm_tools.Stream.Poll.Keeps.Native.{process_native-Keeps}

-- processRange keeps the tracker.
pub process_range-Keeps :
    (max_elements : ℕ) (out : Emitter) (source : PollSource) (lo hi : ℕ)
    → Keeps (process_range max_elements out source lo hi)
unfolding process_range
process_range-Keeps max_elements out source lo hi s =
    let logs = process_logs (emit_log max_elements out) source.logs (suc (hi - lo)) lo hi in
    let natives = process_native out source.blocks lo (suc hi - lo) in
    let native_part : Act (Unit {0}) = λ t. (if t.native.enabled then natives else pure tt) t in
    let log_part : Act (Unit {0}) = if watches_logs s.contracts then logs else pure tt in
    bind-Keeps log_part (λ _. native_part)
      (if_Keeps (watches_logs s.contracts) logs (pure tt)
        (process_logs-Keeps (emit_log max_elements out) (emit_log-Keeps max_elements out)
          source.logs (suc (hi - lo)) lo hi)
        (λ s. refl))
      (λ _ t.
        if_Keeps t.native.enabled natives (pure tt)
          (process_native-Keeps out source.blocks lo (suc hi - lo)) (λ s. refl) t)
      s

module _ (process : ℕ → ℕ → Act (Unit {0})) (keeps : (lo hi : ℕ) → Keeps (process lo hi))
    (size head : ℕ) where
  pub after_chunk-Keeps :
      (cur : ℕ) (rest : Act Progress) (p : Outcome Fault (Unit {0}) × Stream)
      → Keeps rest
      → (after_chunk cur rest p).1.reorg ≡ p.1.reorg
  unfolding after_chunk
  after_chunk-Keeps cur rest (done u, s) h = h s
  after_chunk-Keeps cur rest (failed e, s) h = refl
  after_chunk-Keeps cur rest (panicked, s) h = refl

  -- And so does the loop over the chunks.
  pub poll_chunks-Keeps : (fuel cur : ℕ) → Keeps (poll_chunks process size head fuel cur)
  unfolding poll_chunks
  poll_chunks-Keeps zero cur = λ s. refl
  poll_chunks-Keeps (suc fuel) cur = λ s.
      let last = chunk_end size head cur in
      let rest = poll_chunks process size head fuel ((last + 1) % 2 ^ 64) in
      either_keeps (leb cur head) (after_chunk cur rest (process cur last s)) (done (cur, none), s)
        s
        (after_chunk-Keeps cur rest (process cur last s)
            (poll_chunks-Keeps fuel ((last + 1) % 2 ^ 64))
          ∙ keeps cur last s)
        refl
