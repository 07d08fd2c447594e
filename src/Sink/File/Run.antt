-- ===== src/Sink/File/Run.antt =====
-- internal/filesink/filesink.go: the loop that appends records to the rotating files; and NewWriter.
pub mod Delivered
pub mod Closed
use evm_tools.Base.{
  ℕ, ◌*◌, Bool, true, false, List, [], ◌∷◌, ◌++◌, Text, codes, if◌then◌else◌, text_eq,
}
use evm_tools.Base.Exec.{Outcome, done, failed, panicked, ◌>=>◌}
use evm_tools.Record.Envelope.{Envelope}
use evm_tools.Stream.Run.Start.{trim_space}
use evm_tools.Sink.Loop.{
  Answered, confirmed, transient, permanent, Prepared, deliver, skip, Input, Ended, World, Delivery,
  Destination, deliver_with_retry, run,
}
use evm_tools.Sink.Loop.Gauges.{Attempt}
use evm_tools.Sink.Loop.Options.{SinkOptions, required, default_for, millisecond, second}
use evm_tools.Sink.Filter.{FilterOptions, allow}
use evm_tools.Sink.File.Disk.{Disk}
use evm_tools.Sink.File.Writer.{IoError, RotateConfig, Writer, Os, open_active, write}

-- NewWriter
unfoldable pub new_writer : RotateConfig → Os → Disk → Outcome IoError (Unit {0}) × Writer
new_writer c os disk =
    let w : Writer = record { disk = disk; is_open = false; size = 0; opened_at = 0 } in
    if text_eq (trim_space c.name) []
    then (failed (record { full_disk = false; text = codes "filesink: path is required" }), w)
    else open_active c os w

-- New, which has no probe.
unfoldable pub new_sink : SinkOptions → Outcome Text SinkOptions
unfolding default_for
new_sink o = required o.reader_given (codes "filesink: reader is required") o >=> λ p.
    required p.destination_given (codes "filesink: writer is required") p >=> λ q. done (record q {
      backoff_base = default_for (500 * millisecond) q.backoff_base;
      backoff_max = default_for (30 * second) q.backoff_max;
    })

-- Classify
unfoldable pub classify_io : IoError → Answered
classify_io e = if e.full_disk then transient else permanent

abbrev pub write_answer : Outcome IoError (Unit {0}) → Answered
write_answer (done x) = confirmed
write_answer (failed e) = classify_io e
write_answer panicked = permanent

unfoldable pub to_line : {D : Type 0} → FilterOptions → Envelope D → Text → Prepared Text
to_line filter env line = if allow filter env then deliver line else skip

module _ (c : RotateConfig) (options : SinkOptions) where
  -- The context is not looked at again after a failed write.
  abbrev pub files : Destination Writer Os Text
  files = record {
    call = λ line os w. (write_answer (write c os line w).0, (write c os line w).1);
    rechecks = false;
    backoff_base = options.backoff_base;
    backoff_max = options.backoff_max;
  }

  -- writeWithRetry
  unfoldable pub write_with_retry :
      List (Attempt Os) → Text → World Writer → Delivery × World Writer
  write_with_retry attempts line w = deliver_with_retry files attempts line w

  -- Run
  unfoldable pub run_file :
      {D : Type 0} → FilterOptions → List (Input D Os) → World Writer → Ended × World Writer
  run_file filter inputs w = run files (to_line filter) inputs w
