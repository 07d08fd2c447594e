-- ===== src/Examples/Outputs.antt =====
-- The record writer and the stdout sink, on concrete outputs.
use evm_tools.Base.{ℕ, ◌≡◌, refl, ◌==◌, Option, some, List, [], ◌∷◌, Text, codes, if◌then◌else◌}
use evm_tools.Base.Exec.{failed}
use evm_tools.Record.Envelope.{Envelope}
use evm_tools.Record.Writer.{
  Wrote, all_of_it, cut_off, EmitError, not_written, Writer, emit_line, emit_lines, encode,
  write_text, flush,
}
use evm_tools.Record.Writer.Sticky.{emit_line-lost}
use evm_tools.Record.Writer.Lines.{fresh, lines_of, IsWritten, emit_lines-IsWritten}
use evm_tools.Stream.State.{Errno, epipe, other_errno}
use evm_tools.Sink.Stdout.{Line, good_line, Stdout, run_stdout}
use evm_tools.Sink.Stdout.Copy.{texts, IsCopied, run_stdout-IsCopied}
use evm_tools.Examples.SinkData.{event_3}

-- The output fails once, behind two bytes, and then works.
abbrev recovering : ℕ → Wrote Errno
recovering n = if n == 0 then cut_off 2 other_errno else all_of_it

abbrev json : Envelope Text → Option Text
json env = some env.emitted_at

abbrev now : Text
now = codes "now"

abbrev new_writer : Writer Errno
new_writer = fresh 0 []

first_fails :
    (emit_line recovering json now event_3 new_writer).0 ≡ failed (not_written other_errno)
unfolding emit_line encode write_text flush
first_fails = refl

emit_line-lost_example :
    let v = emit_lines recovering json [] (emit_line recovering json now event_3 new_writer).1 in
    ((x : EmitError Errno) × ((emit_line recovering json now event_3 v).0 ≡ failed x))
    × ((emit_line recovering json now event_3 v).1.output
        ≡ (emit_line recovering json now event_3 new_writer).1.output)
emit_line-lost_example =
    emit_line-lost recovering json now now event_3 event_3 [] new_writer other_errno first_fails

abbrev events : List (Text × Envelope Text)
events = (now, event_3) ∷ (now, event_3) ∷ []

emit_lines-IsWritten_example :
    IsWritten recovering json 0
      (lines_of recovering json events)
      []
      (emit_lines recovering json events new_writer)
emit_lines-IsWritten_example = emit_lines-IsWritten recovering json events 0 []

abbrev copies_of : List (Line Text)
copies_of =
    good_line event_3 (codes "first") all_of_it
    ∷ good_line event_3 (codes "second") (cut_off 2 epipe)
    ∷ []

abbrev terminal : Stdout
terminal = record { consumed = 0; delivered = 0; failures = 0; output = [] }

run_stdout-IsCopied_example : IsCopied (texts copies_of) 0 [] (run_stdout copies_of terminal)
run_stdout-IsCopied_example = run_stdout-IsCopied copies_of terminal
