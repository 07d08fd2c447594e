-- ===== src/Sink/Stdout/Copy.antt =====
-- What the stdout sink copies (internal/stdoutsink/stdoutsink.go).
use evm_tools.Base.{
  ℕ, suc, ◌+◌, ◌≡◌, ◌≢◌, refl, sym, ap, ◌∙◌, arith, List, [], ◌∷◌, ◌++◌, append-nil, append_assoc,
  Text, take, drop, length,
}
use evm_tools.Record.Writer.{all_of_it, cut_off}
use evm_tools.Record.Writer.Lines.{joined}
use evm_tools.Stream.State.{epipe, ebadf, other_errno}
use evm_tools.Sink.Stdout.{
  Line, good_line, refused_line, context_ended, Stdout, Returned, input_closed, stopped,
  downstream_closed, read_error, write_error, write_line, after_write, run_stdout,
}

-- The lines of the input, up to one that is refused or the end of the context.
abbrev pub texts : {D : Type 0} → List (Line D) → List Text
texts [] = []
texts (refused_line ∷ lines) = []
texts (context_ended ∷ lines) = []
texts (good_line env line a ∷ lines) = line ∷ texts lines

-- The next line with its newline, if there is one.
abbrev pub first_line : List Text → Text
first_line [] = []
first_line (line ∷ lines) = line ++ b'\n' ∷ []

-- The first `n` lines are copied, and `m` bytes of the next one.
abbrev pub IsCopied : List Text → ℕ → Text → Returned × Stdout → Type 0
IsCopied lines delivered output r =
    (n : ℕ) × (m : ℕ) × (r.1.delivered ≡ delivered + n)
    × (r.1.output ≡ output ++ (joined (take n lines) ++ take m (first_line (drop n lines))))
    × (r.0 ≡ input_closed → (length lines ≡ n) × (drop n lines ≡ []))

nothing-IsCopied :
    (lines : List Text) (e : Returned) (w : Stdout)
    → (e ≡ input_closed → lines ≡ [])
    → IsCopied lines w.delivered w.output (e, w)
nothing-IsCopied lines e w h =
    (0, 0, omega arith, sym (append-nil w.output), (λ k. (ap length (h k), h k)))

part-IsCopied :
    (line : Text) (lines : List Text) (m : ℕ) (e : Returned) (w v : Stdout)
    → e ≢ input_closed
    → v.delivered ≡ w.delivered
    → v.output ≡ w.output ++ take m (line ++ b'\n' ∷ [])
    → IsCopied (line ∷ lines) w.delivered w.output (e, v)
part-IsCopied line lines m e w v h same put = (0, m, omega arith, put, (λ k. absurd (h k)))

one-IsCopied :
    (line : Text) (lines : List Text) (delivered : ℕ) (output : Text) (r : Returned × Stdout)
    → IsCopied lines (delivered + 1) (output ++ (line ++ b'\n' ∷ [])) r
    → IsCopied (line ∷ lines) delivered output r
one-IsCopied line lines delivered output r (n, m, counted, put, at_end) =
    let here = line ++ b'\n' ∷ [] in
    let part = take m (first_line (drop n lines)) in
    (
      suc n,
      m,
      omega arith,
      put
          ∙ append_assoc output here (joined (take n lines) ++ part)
          ∙ ap (λ x. output ++ x) (sym (append_assoc here (joined (take n lines)) part)),
      (λ k. (ap suc (at_end k).0, (at_end k).1)),
    )

-- Whatever standard output answers: the lines that Run counts as delivered are the first ones of its
-- input, and standard output has taken them, each whole, once and in order behind what was there, and
-- at most a part of the next line. If Run returns because the input is closed, those are all the lines.
pub run_stdout-IsCopied :
    {D : Type 0} (lines : List (Line D)) (w : Stdout)
    → IsCopied (texts lines) w.delivered w.output (run_stdout lines w)
unfolding run_stdout write_line after_write
run_stdout-IsCopied [] w = nothing-IsCopied [] input_closed w (λ _. refl)
run_stdout-IsCopied (refused_line ∷ lines) w = nothing-IsCopied [] read_error w (λ _. refl)
run_stdout-IsCopied (context_ended ∷ lines) w = nothing-IsCopied [] stopped w (λ _. refl)
run_stdout-IsCopied (good_line env line all_of_it ∷ lines) w =
    one-IsCopied line (texts lines) w.delivered w.output
      (run_stdout (good_line env line all_of_it ∷ lines) w) (run_stdout-IsCopied lines _)
run_stdout-IsCopied (good_line env line (cut_off n epipe) ∷ lines) w =
    part-IsCopied line (texts lines) n downstream_closed w
      (run_stdout (good_line env line (cut_off n epipe) ∷ lines) w).1 (λ e. cc e) refl refl
run_stdout-IsCopied (good_line env line (cut_off n ebadf) ∷ lines) w =
    part-IsCopied line (texts lines) n write_error w
      (run_stdout (good_line env line (cut_off n ebadf) ∷ lines) w).1 (λ e. cc e) refl refl
run_stdout-IsCopied (good_line env line (cut_off n other_errno) ∷ lines) w =
    part-IsCopied line (texts lines) n write_error w
      (run_stdout (good_line env line (cut_off n other_errno) ∷ lines) w).1 (λ e. cc e) refl refl
