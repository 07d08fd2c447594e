-- ===== src/Record/Writer/Lines.antt =====
-- What calls of Emit leave on the output (internal/record/writer.go).
use evm_tools.Base.{
  ℕ, suc, arith, ◌+◌, ◌≡◌, ◌⊎◌, inl, inr, refl, sym, ap, ◌∙◌, subst, Option, none, some, List, [],
  ◌∷◌, ◌++◌, append-nil, append_assoc, Text, if_either, leb, length, take,
}
use evm_tools.Base.Exec.{done, continue}
use evm_tools.Record.Envelope.{Envelope}
use evm_tools.Record.Writer.{
  Wrote, all_of_it, cut_off, Writer, taken_by, left_by, flush_buffer, flush, write_text, noted,
  encode, stamped, emit_line, emit_lines, buffer_size,
}
use evm_tools.Record.Writer.Sticky.{IsStuck, Result, lines-IsStuck}

-- A writer with nothing in its buffer and no error.
abbrev pub fresh : {E : Type 0} → ℕ → Text → Writer E
fresh n output = record {
  buffered = [];
  error = none;
  encoder_error = none;
  calls = n;
  output = output;
}

-- The lines one after the other, each with its newline.
abbrev pub joined : List Text → Text
joined [] = []
joined (t ∷ ts) = (t ++ b'\n' ∷ []) ++ joined ts

one_more_call : (n : ℕ) → n + 1 ≡ suc n
one_more_call n = omega arith

module _ {E : Type 0} (out : ℕ → Wrote E) where
  -- The text is written whole by the call `n` of the output, or that call fails behind a first part of
  -- it, and the writer is stuck.
  abbrev IsPut : ℕ → Text → Text → Result out → Type 0
  IsPut n t output r =
      (r ≡ (done tt, fresh (suc n) (output ++ t)))
      ⊎ ((m : ℕ) × (e : E) × (out n ≡ cut_off m e)
          × IsStuck out r.1
          × (r.1.output ≡ output ++ take m t))

  flushed :
      (c : ℕ) (t : Text) (n : ℕ) (output : Text) (a : Wrote E)
      → out n ≡ a
      → IsPut n (c ∷ t) output (taken_by out a (c ∷ t) (left_by out a (c ∷ t)) (fresh n output))
  flushed c t n output all_of_it h =
      inl (ap (λ k. (done tt, fresh k (output ++ c ∷ t))) (one_more_call n))
  flushed c t n output (cut_off m e) h = inr (m, e, h, (e, inl refl), refl)

  line_flushed :
      (t : Text) (n : ℕ) (output : Text)
      → IsPut n (t ++ b'\n' ∷ []) output (
          flush_buffer out
            (t ++ b'\n' ∷ [])
            (record (fresh n output) { buffered = t ++ b'\n' ∷ [] }))
  line_flushed [] n output = flushed b'\n' [] n output (out n) refl
  line_flushed (c ∷ t) n output = flushed c (t ++ b'\n' ∷ []) n output (out n) refl

  abbrev finished : Result out → Result out
  finished r = continue (noted out r).0 (λ _. flush out) (noted out r).1

  written :
      (t : Text) (n : ℕ) (output : Text) (a : Wrote E)
      → out n ≡ a
      → IsPut n t output (finished (taken_by out a t [] (fresh n output)))
  unfolding flush
  written t n output all_of_it h =
      inl (ap (λ k. (done tt, fresh k (output ++ t))) (one_more_call n))
  written t n output (cut_off m e) h = inr (m, e, h, (e, inl refl), refl)

  line-IsPut :
      (t : Text) (n : ℕ) (output : Text)
      → IsPut n (t ++ b'\n' ∷ []) output (
          continue
            (encode out (some t) (fresh n output)).0
            (λ _. flush out)
            (encode out (some t) (fresh n output)).1)
  unfolding encode write_text flush
  line-IsPut t n output =
      let line = t ++ b'\n' ∷ [] in
      if_either (λ r. IsPut n line output (finished r)) (leb (length line) buffer_size)
        (line_flushed t n output) (written line n output (out n) refl)

  module _ {D : Type 0} (json : Envelope D → Option Text) where
    abbrev pub with_line : Option Text → List Text → List Text
    with_line none ts = ts
    with_line (some t) ts = t ∷ ts

    -- The encodings of the records that have one, in order.
    abbrev pub lines_of : List (Text × Envelope D) → List Text
    lines_of [] = []
    lines_of ((now, env) ∷ envs) = with_line (json (stamped out json now env)) (lines_of envs)

    -- All lines are on the output behind what was there; or the call of the output for one of them, the
    -- calls before it being those of the lines before, has failed, and behind those lines the part of it
    -- is there that this call has taken.
    abbrev pub IsWritten : ℕ → List Text → Text → Writer E → Type 0
    IsWritten n ts before w =
        (w.output ≡ before ++ joined ts)
        ⊎ ((front : List Text) × (line : Text) × (behind : List Text) × (m : ℕ) × (e : E) × (out
                (n + length front)
              ≡ cut_off m e)
            × (ts ≡ front ++ line ∷ behind)
            × (w.output ≡ before ++ (joined front ++ take m (line ++ b'\n' ∷ []))))

    one_more :
        (n : ℕ) (t : Text) (ts : List Text) (before : Text) (w : Writer E)
        → IsWritten (suc n) ts (before ++ (t ++ b'\n' ∷ [])) w
        → IsWritten n (t ∷ ts) before w
    one_more n t ts before w (inl h) = inl (h ∙ append_assoc before (t ++ b'\n' ∷ []) (joined ts))
    one_more n t ts before w (inr (front, line, behind, m, e, bad, split, h)) =
        let cut = take m (line ++ b'\n' ∷ []) in
        let later : n + suc (length front) ≡ suc n + length front = omega arith in
        inr (
          t ∷ front,
          line,
          behind,
          m,
          e,
          ap out later ∙ bad,
          ap (λ l. t ∷ l) split,
          h
              ∙ append_assoc before (t ++ b'\n' ∷ []) (joined front ++ cut)
              ∙ ap (λ x. before ++ x) (sym (append_assoc (t ++ b'\n' ∷ []) (joined front) cut)),
        )

    then_lines :
        (t : Text) (envs : List (Text × Envelope D)) (n : ℕ) (before : Text) (r : Result out)
        → ((k : ℕ) (output : Text)
            → IsWritten k (lines_of envs) output (emit_lines out json envs (fresh k output)))
        → IsPut n (t ++ b'\n' ∷ []) before r
        → IsWritten n (t ∷ lines_of envs) before (emit_lines out json envs r.1)
    then_lines t envs n before r next (inl h) =
        let output = before ++ (t ++ b'\n' ∷ []) in
        one_more n t (lines_of envs) before (emit_lines out json envs r.1) (
          subst
            (λ (x : Result out).
              IsWritten (suc n) (lines_of envs) output (emit_lines out json envs x.1))
            (sym h) (next (suc n) output))
    then_lines t envs n before r next (inr (m, e, bad, stuck, h)) =
        let first : n + 0 ≡ n = omega arith in
        inr (
          [],
          t,
          lines_of envs,
          m,
          e,
          ap out first ∙ bad,
          refl,
          (lines-IsStuck out json envs r.1 stuck).1 ∙ h,
        )

    by_encoding :
        (o : Option Text) (envs : List (Text × Envelope D)) (n : ℕ) (before : Text)
        → ((k : ℕ) (output : Text)
            → IsWritten k (lines_of envs) output (emit_lines out json envs (fresh k output)))
        → IsWritten n (with_line o (lines_of envs)) before (
            emit_lines out json envs
              (continue
                (encode out o (fresh n before)).0
                (λ _. flush out)
                (encode out o (fresh n before)).1).1)
    unfolding encode
    by_encoding none envs n before next = next n before
    by_encoding (some t) envs n before next =
        then_lines t envs n before _ next (line-IsPut t n before)

    -- Whatever the output does, calls of Emit on a new writer leave on it the lines of the records
    -- that can be encoded, whole and in order behind what was there, each by one call of the output; or,
    -- where the call for one of them has failed, the lines before it, the part of it that the call has
    -- taken, and nothing behind that. On an output that never fails all of them are there.
    pub emit_lines-IsWritten :
        (envs : List (Text × Envelope D)) (n : ℕ) (before : Text)
        → IsWritten n (lines_of envs) before (emit_lines out json envs (fresh n before))
    unfolding emit_lines emit_line
    emit_lines-IsWritten [] n before = inl (sym (append-nil before))
    emit_lines-IsWritten ((now, env) ∷ envs) n before =
        by_encoding (json (stamped out json now env)) envs n before
          (λ k output. emit_lines-IsWritten envs k output)
