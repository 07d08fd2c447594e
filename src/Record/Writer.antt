-- ===== src/Record/Writer.antt =====
-- internal/record/writer.go: Emit, over a bufio.Writer and a json.Encoder, whose errors stay. The
-- encoding of an envelope and the rendering of the current time are parameters, and so is what the
-- output does in each of its calls.
pub mod Sticky
pub mod Lines
use evm_tools.Base.{
  ℕ, zero, suc, ◌+◌, ◌-◌, Bool, true, false, Option, none, some, List, [], ◌∷◌, ◌++◌, Text,
  if◌then◌else◌, leb, length, take, drop, ℤ, pos,
}
use evm_tools.Base.Exec.{Outcome, done, failed, panicked, Exec, pure, fail, ◌>>=◌, ◌>>◌}
use evm_tools.Record.Envelope.{Envelope, schema_version}

-- A write to an io.Writer: it takes all of the bytes, or the first ones and returns an error.
pub data Wrote (E : Type 0) : Type 0 where
  all_of_it : Wrote E
  cut_off : ℕ → E → Wrote E

-- The error of an Emit.
pub data EmitError (E : Type 0) : Type 0 where
  not_encoded : EmitError E
  not_written : E → EmitError E

-- What is buffered, the errors that stay in the bufio.Writer and in the json.Encoder, how often the
-- output was called, and the bytes that it has taken.
pub record Writer (E : Type 0) : Type 0 where
  pub buffered : Text
  pub error : Option E
  pub encoder_error : Option E
  pub calls : ℕ
  pub output : Text

abbrev pub buffer_size : ℕ
buffer_size = 4096

module _ {E : Type 0} (out : ℕ → Wrote E) where
  abbrev pub Act : Type 0
  Act = Exec (EmitError E) (Writer E) (Unit {0})

  -- The write of bytes to the output, with the bytes that stay in the buffer when it is cut off.
  abbrev pub taken_by : Wrote E → Text → Text → Act
  taken_by all_of_it t kept w = (done tt, record w { calls = w.calls + 1; output = w.output ++ t })
  taken_by (cut_off n e) t kept w = (
    failed (not_written e),
    record w {
      buffered = kept;
      error = some e;
      calls = w.calls + 1;
      output = w.output ++ take n t;
    },
  )

  abbrev pub left_by : Wrote E → Text → Text
  left_by all_of_it t = []
  left_by (cut_off n e) t = drop n t

  -- bufio.Writer.Flush
  abbrev pub flush_buffer : Text → Act
  flush_buffer [] w = (done tt, w)
  flush_buffer (c ∷ t) w =
      taken_by (out w.calls) (c ∷ t) (left_by (out w.calls) (c ∷ t)) (record w { buffered = [] })

  unfoldable pub flush : Act
  flush w = elim w.error [ some e ↦ (failed (not_written e), w) | none ↦ flush_buffer w.buffered w ]

  -- bufio.Writer.Write, where the buffer is empty: more than it holds is written directly.
  abbrev pub write_fresh : Text → Act
  write_fresh t w =
      if leb (length t) buffer_size
      then (done tt, record w { buffered = t })
      else taken_by (out w.calls) t [] w

  -- Where it is not, it is filled and flushed first.
  abbrev pub write_behind : Text → Act
  write_behind t w =
      let room = buffer_size - length w.buffered in
      if leb (length t) room
      then (done tt, record w { buffered = w.buffered ++ t })
      else (flush_buffer (w.buffered ++ take room t) >> write_fresh (drop room t)) w

  abbrev pub write_buffer : Text → Text → Act
  write_buffer [] t = write_fresh t
  write_buffer (c ∷ b) t = write_behind t

  -- bufio.Writer.Write
  unfoldable pub write_text : Text → Act
  write_text t w = elim w.error [
    | some e ↦ (failed (not_written e), w)
    | none ↦ write_buffer w.buffered t w
  ]

  abbrev pub noted :
      Outcome (EmitError E) (Unit {0}) × Writer E → Outcome (EmitError E) (Unit {0}) × Writer E
  noted (done x, w) = (done x, w)
  noted (failed not_encoded, w) = (failed not_encoded, w)
  noted (failed (not_written e), w) = (failed (not_written e), record w { encoder_error = some e })
  noted (panicked, w) = (panicked, w)

  abbrev pub encode_line : Option Text → Act
  encode_line none w = (failed not_encoded, w)
  encode_line (some t) w = noted (write_text (t ++ b'\n' ∷ []) w)

  -- json.Encoder.Encode, given what the encoding comes to.
  unfoldable pub encode : Option Text → Act
  unfolding write_text
  encode json w = elim w.encoder_error [
    | some e ↦ (failed (not_written e), w)
    | none ↦ encode_line json w
  ]

  module _ {D : Type 0} (json : Envelope D → Option Text) where
    -- The schema version, and the time where there is none.
    abbrev pub stamped : Text → Envelope D → Envelope D
    stamped now env = record env {
      schema = pos schema_version;
      emitted_at = elim env.emitted_at [ [] ↦ now | c ∷ t ↦ c ∷ t ];
    }

    -- Emit and write
    unfoldable pub emit_line : Text → Envelope D → Act
    unfolding encode flush
    emit_line now env = encode (json (stamped now env)) >> flush

    -- Calls of Emit one after the other, whatever each of them returns.
    unfoldable pub emit_lines : List (Text × Envelope D) → Writer E → Writer E
    unfolding emit_line
    emit_lines [] w = w
    emit_lines ((now, env) ∷ envs) w = emit_lines envs (emit_line now env w).1
