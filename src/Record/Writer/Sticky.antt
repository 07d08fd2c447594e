-- ===== src/Record/Writer/Sticky.antt =====
-- The record writer behind an Emit that has failed on the output (internal/record/writer.go).
use evm_tools.Base.{
  ℕ, ◌≡◌, ◌-◌, ◌⊎◌, inl, inr, refl, sym, ap, ◌∙◌, subst, Option, none, some, List, [], ◌∷◌, ◌++◌,
  Text, if_either, leb, length, take,
}
use evm_tools.Base.Exec.{Outcome, done, failed, panicked, continue}
use evm_tools.Record.Envelope.{Envelope}
use evm_tools.Record.Writer.{
  Wrote, all_of_it, cut_off, EmitError, not_encoded, not_written, Writer, taken_by, flush_buffer,
  flush, write_fresh, write_buffer, write_text, noted, encode_line, encode, stamped, emit_line,
  emit_lines, buffer_size,
}

module _ {E : Type 0} (out : ℕ → Wrote E) where
  abbrev pub Result : Type 0
  Result = Outcome (EmitError E) (Unit {0}) × Writer E

  -- The buffer or the encoder has an error.
  abbrev pub IsStuck : Writer E → Type 0
  IsStuck w = (e : E) × ((w.error ≡ some e) ⊎ (w.encoder_error ≡ some e))

  -- An error of the output stays in the buffer.
  abbrev StuckIfFailed : Result → Type 0
  StuckIfFailed (done x, w) = Unit
  StuckIfFailed (failed not_encoded, w) = Unit
  StuckIfFailed (failed (not_written e), w) = IsStuck w
  StuckIfFailed (panicked, w) = Unit

  taken-StuckIfFailed :
      (a : Wrote E) (t kept : Text) (w : Writer E) → StuckIfFailed (taken_by out a t kept w)
  taken-StuckIfFailed all_of_it t kept w = tt
  taken-StuckIfFailed (cut_off n e) t kept w = (e, inl refl)

  flush_buffer-StuckIfFailed : (t : Text) (w : Writer E) → StuckIfFailed (flush_buffer out t w)
  flush_buffer-StuckIfFailed [] w = tt
  flush_buffer-StuckIfFailed (c ∷ t) w = taken-StuckIfFailed (out w.calls) (c ∷ t) _ _

  flush-StuckIfFailed : (w : Writer E) → StuckIfFailed (flush out w)
  unfolding flush
  flush-StuckIfFailed w = by_error w.error refl
    where
      by_error :
          (o : Option E)
          → w.error ≡ o
          → StuckIfFailed (elim o [
            | some e ↦ (failed (not_written e), w)
            | none ↦ flush_buffer out w.buffered w
          ])
      by_error (some e) h = (e, inl h)
      by_error none h = flush_buffer-StuckIfFailed w.buffered w

  fresh-StuckIfFailed : (t : Text) (w : Writer E) → StuckIfFailed (write_fresh out t w)
  fresh-StuckIfFailed t w =
      if_either StuckIfFailed (leb (length t) buffer_size) tt
        (taken-StuckIfFailed (out w.calls) t [] w)

  after_flush :
      (t : Text) (r : Result)
      → StuckIfFailed r
      → StuckIfFailed (continue r.0 (λ _. write_fresh out t) r.1)
  after_flush t (done x, w) h = fresh-StuckIfFailed t w
  after_flush t (failed not_encoded, w) h = tt
  after_flush t (failed (not_written e), w) h = h
  after_flush t (panicked, w) h = tt

  buffer-StuckIfFailed : (b t : Text) (w : Writer E) → StuckIfFailed (write_buffer out b t w)
  buffer-StuckIfFailed [] t w = fresh-StuckIfFailed t w
  buffer-StuckIfFailed (c ∷ b) t w =
      if_either StuckIfFailed (leb (length t) (buffer_size - length w.buffered)) tt (
        after_flush _ (flush_buffer out (w.buffered ++ take _ t) w)
          (flush_buffer-StuckIfFailed _ w))

  text-StuckIfFailed : (t : Text) (w : Writer E) → StuckIfFailed (write_text out t w)
  unfolding write_text
  text-StuckIfFailed t w = by_error w.error refl
    where
      by_error :
          (o : Option E)
          → w.error ≡ o
          → StuckIfFailed (elim o [
            | some e ↦ (failed (not_written e), w)
            | none ↦ write_buffer out w.buffered t w
          ])
      by_error (some e) h = (e, inl h)
      by_error none h = buffer-StuckIfFailed w.buffered t w

  noted-StuckIfFailed : (r : Result) → StuckIfFailed r → StuckIfFailed (noted out r)
  noted-StuckIfFailed (done x, w) h = tt
  noted-StuckIfFailed (failed not_encoded, w) h = tt
  noted-StuckIfFailed (failed (not_written e), w) h = (e, inr refl)
  noted-StuckIfFailed (panicked, w) h = tt

  line-StuckIfFailed : (o : Option Text) (w : Writer E) → StuckIfFailed (encode_line out o w)
  line-StuckIfFailed none w = tt
  line-StuckIfFailed (some t) w =
      noted-StuckIfFailed (write_text out (t ++ b'\n' ∷ []) w) (text-StuckIfFailed _ w)

  encode-StuckIfFailed : (o : Option Text) (w : Writer E) → StuckIfFailed (encode out o w)
  unfolding encode
  encode-StuckIfFailed o w = by_error w.encoder_error refl
    where
      by_error :
          (x : Option E)
          → w.encoder_error ≡ x
          → StuckIfFailed
              (elim x [ some e ↦ (failed (not_written e), w) | none ↦ encode_line out o w ])
      by_error (some e) h = (e, inr h)
      by_error none h = line-StuckIfFailed o w

  then_flush : (r : Result) → StuckIfFailed r → StuckIfFailed (continue r.0 (λ _. flush out) r.1)
  then_flush (done x, w) h = flush-StuckIfFailed w
  then_flush (failed not_encoded, w) h = tt
  then_flush (failed (not_written e), w) h = h
  then_flush (panicked, w) h = tt

  -- The call fails, and leaves the output as it was and the writer stuck.
  abbrev FailsStuck : Text → Result → Type 0
  FailsStuck output r = ((x : EmitError E) × (r.0 ≡ failed x)) × IsStuck r.1 × (r.1.output ≡ output)

  stuck_text :
      (t : Text) (e : E) (w : Writer E)
      → w.error ≡ some e
      → write_text out t w ≡ (failed (not_written e), w)
  unfolding write_text
  stuck_text t e w h =
      ap
        (λ o. elim o [
          | some x ↦ (failed (not_written x), w)
          | none ↦ write_buffer out w.buffered t w
        ])
        h

  stuck_line :
      (o : Option Text) (e : E) (w : Writer E)
      → w.error ≡ some e
      → FailsStuck w.output (encode_line out o w)
  stuck_line none e w h = ((not_encoded, refl), (e, inl h), refl)
  stuck_line (some t) e w h =
      subst (λ r. FailsStuck w.output (noted out r)) (sym (stuck_text (t ++ b'\n' ∷ []) e w h))
        ((not_written e, refl), (e, inl h), refl)

  stuck_encode : (o : Option Text) (w : Writer E) → IsStuck w → FailsStuck w.output (encode out o w)
  unfolding encode
  stuck_encode o w h = by_error w.encoder_error refl
    where
      by_error :
          (x : Option E)
          → w.encoder_error ≡ x
          → FailsStuck w.output
              (elim x [ some e ↦ (failed (not_written e), w) | none ↦ encode_line out o w ])
      by_error (some e) k = ((not_written e, refl), (e, inr k), refl)
      by_error none k = elim h.1 [
        | inl in_buffer ↦ stuck_line o h.0 w in_buffer
        | inr in_encoder ↦ absurd (cc (k, in_encoder))
      ]

  skip_flush :
      (output : Text) (r : Result)
      → FailsStuck output r
      → FailsStuck output (continue r.0 (λ _. flush out) r.1)
  skip_flush output (done x, w) ((e, h), stuck, same) = cc h
  skip_flush output (failed e, w) h = h
  skip_flush output (panicked, w) ((e, h), stuck, same) = cc h

  module _ {D : Type 0} (json : Envelope D → Option Text) where
    stuck_emit :
        (now : Text) (env : Envelope D) (w : Writer E)
        → IsStuck w
        → FailsStuck w.output (emit_line out json now env w)
    unfolding emit_line
    stuck_emit now env w h =
        skip_flush w.output (encode out (json (stamped out json now env)) w)
          (stuck_encode (json (stamped out json now env)) w h)

    pub lines-IsStuck :
        (later : List (Text × Envelope D)) (w : Writer E)
        → IsStuck w
        → IsStuck (emit_lines out json later w) × ((emit_lines out json later w).output ≡ w.output)
    unfolding emit_lines
    lines-IsStuck [] w h = (h, refl)
    lines-IsStuck ((now, env) ∷ later) w h =
        let (failing, stuck, same) = stuck_emit now env w h in
        let (at_end, same_end) = lines-IsStuck later (emit_line out json now env w).1 stuck in
        (at_end, same_end ∙ same)

    emit_line-StuckIfFailed :
        (now : Text) (env : Envelope D) (w : Writer E)
        → StuckIfFailed (emit_line out json now env w)
    unfolding emit_line
    emit_line-StuckIfFailed now env w =
        then_flush (encode out (json (stamped out json now env)) w)
          (encode-StuckIfFailed (json (stamped out json now env)) w)

    -- When an Emit has failed because of the output, with whatever error and however much of its line
    -- was taken, each later Emit fails too and writes nothing, whatever the output would do then.
    pub emit_line-lost :
        (now now' : Text) (env env' : Envelope D) (later : List (Text × Envelope D)) (w : Writer E)
        (e : E)
        → (emit_line out json now env w).0 ≡ failed (not_written e)
        → let v = emit_lines out json later (emit_line out json now env w).1 in
          ((x : EmitError E) × ((emit_line out json now' env' v).0 ≡ failed x))
          × ((emit_line out json now' env' v).1.output ≡ (emit_line out json now env w).1.output)
    emit_line-lost now now' env env' later w e h =
        let first = emit_line out json now env w in
        let (at_end, same) =
          lines-IsStuck later first.1 (stuck first (emit_line-StuckIfFailed now env w) h) in
        let (failing, _, same_end) =
          stuck_emit now' env' (emit_lines out json later first.1) at_end in
        (failing, same_end ∙ same)
      where
        stuck : (r : Result) → StuckIfFailed r → r.0 ≡ failed (not_written e) → IsStuck r.1
        stuck (done x, v) s k = cc k
        stuck (failed not_encoded, v) s k = cc k
        stuck (failed (not_written x), v) s k = s
        stuck (panicked, v) s k = cc k
