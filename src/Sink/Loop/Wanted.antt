-- ===== src/Sink/Loop/Wanted.antt =====
-- What the sinks' loop has to deliver of its input.
use evm_tools.Base.{◌≢◌, List, [], ◌∷◌, Text}
use evm_tools.Record.Envelope.{Envelope}
use evm_tools.Sink.Loop.{Prepared, deliver, skip, refuse, Input, read, refused_line, ended}

abbrev pub prepared : {M : Type 0} → Prepared M → List M → List M
prepared (deliver m) ms = m ∷ ms
prepared skip ms = ms
prepared refuse ms = []

module _ {D A M : Type 0} (prepare : Envelope D → Text → Prepared M) where
  -- What Run has to deliver of its input, up to a line or a record that is refused.
  abbrev pub messages : List (Input D A) → List M
  messages [] = []
  messages (refused_line ∷ inputs) = []
  messages (ended ∷ inputs) = []
  messages (read env line attempts ∷ inputs) = prepared (prepare env line) (messages inputs)

  -- No line and no record is refused, and the context does not end.
  abbrev pub IsWhole : List (Input D A) → Type 0
  IsWhole [] = Unit
  IsWhole (refused_line ∷ inputs) = ⊥
  IsWhole (ended ∷ inputs) = ⊥
  IsWhole (read env line attempts ∷ inputs) = (prepare env line ≢ refuse) × IsWhole inputs
