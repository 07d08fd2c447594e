-- ===== src/Examples/SinkData.antt =====
-- The records and the attempts that the examples of the sinks share.
use evm_tools.Base.{true, false, some, List, [], ◌∷◌, Text, codes}
use evm_tools.Record.Envelope.{event, Envelope}
use evm_tools.Sink.Loop.{Input, read, World}
use evm_tools.Sink.Loop.Gauges.{Meters, Attempt}
use evm_tools.Sink.Loop.Options.{SinkOptions}
use evm_tools.Examples.Data.{sample}

abbrev pub event_3 : Envelope Text
event_3 = sample event (some 3) []

abbrev pub options : SinkOptions
options = record {
  reader_given = true;
  destination_given = true;
  backoff_base = 5;
  backoff_max = 20;
  probe_interval = 0;
  probe_timeout = 0;
}

abbrev pub no_meters : Meters
no_meters = record {
  consumed = 0;
  filtered = 0;
  delivered = 0;
  failures = 0;
  retries = 0;
  consecutive = 0;
  blocked = false;
  backoff = 0;
  reachable = true;
  emit_blocked = 0;
}

abbrev pub world : {S : Type 0} → S → World S
world s = record { meters = no_meters; dest = s }

abbrev pub attempt : {A : Type 0} → A → Attempt A
attempt a = record {
  ended_before = false;
  answer = a;
  ended_in_call = false;
  start = 1;
  finish = 2;
  draw = λ n. 0;
  ended_in_sleep = false;
}

-- Taken, but not confirmed; then taken and confirmed.
abbrev pub twice : {A : Type 0} → A → A → List (Input Text A)
twice lost ok =
    read event_3 (codes "first") (attempt lost ∷ attempt ok ∷ [])
    ∷ read event_3 (codes "second") (attempt lost ∷ attempt ok ∷ [])
    ∷ []
