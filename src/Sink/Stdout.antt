-- ===== src/Sink/Stdout.antt =====
-- internal/stdoutsink/stdoutsink.go: the sink that copies each line to standard output, without
-- retries. The duration that it observes is left out.
pub mod Copy
use evm_tools.Base.{
  ℕ, ◌+◌, List, [], ◌∷◌, ◌++◌, Text, codes, Bool, true, false, take, if◌then◌else◌,
}
use evm_tools.Base.Exec.{Outcome, done, failed}
use evm_tools.Record.Envelope.{Envelope}
use evm_tools.Record.Writer.{Wrote, all_of_it, cut_off}
use evm_tools.Stream.State.{Errno, epipe, ebadf, other_errno}

-- New: whether the reader and the writer are there.
unfoldable pub new_stdout : Bool → Bool → Outcome Text (Unit {0})
new_stdout reader_given writer_given =
    if not_given reader_given
    then failed (codes "stdoutsink: reader is required")
    else if not_given writer_given
    then failed (codes "stdoutsink: writer is required")
    else done tt
  where
    not_given : Bool → Bool
    not_given true = false
    not_given false = true

-- What one round of Run reads, and what the write of its line comes to.
pub data Line (D : Type 0) : Type 0 where
  good_line : Envelope D → Text → Wrote Errno → Line D
  refused_line context_ended : Line D

-- The counters, and what standard output has taken.
pub record Stdout : Type 0 where
  pub consumed : ℕ
  pub delivered : ℕ
  pub failures : ℕ
  pub output : Text

-- How Run returns: nil at the end of the input, of the context or of the downstream, or an error.
pub data Returned : Type 0 where
  input_closed stopped downstream_closed : Returned
  read_error write_error : Returned

-- WriteLine, in one write.
unfoldable pub write_line : Text → Wrote Errno → Stdout → Stdout
write_line line all_of_it w = record w { output = w.output ++ (line ++ b'\n' ∷ []) }
write_line line (cut_off n e) w = record w { output = w.output ++ take n (line ++ b'\n' ∷ []) }

unfoldable pub after_write : (Stdout → Returned × Stdout) → Wrote Errno → Stdout → Returned × Stdout
after_write rest all_of_it w = rest (record w { delivered = w.delivered + 1 })
after_write rest (cut_off n epipe) w = (downstream_closed, w)
after_write rest (cut_off n ebadf) w = (write_error, record w { failures = w.failures + 1 })
after_write rest (cut_off n other_errno) w = (write_error, record w { failures = w.failures + 1 })

-- Run
unfoldable pub run_stdout : {D : Type 0} → List (Line D) → Stdout → Returned × Stdout
unfolding write_line after_write
run_stdout [] w = (input_closed, w)
run_stdout (refused_line ∷ lines) w = (read_error, w)
run_stdout (context_ended ∷ lines) w = (stopped, w)
run_stdout (good_line env line a ∷ lines) w =
    after_write (λ v. run_stdout lines v) a
      (write_line line a (record w { consumed = w.consumed + 1 }))
