-- ===== src/Sink/File/Run/Delivered.antt =====
-- What the file sink leaves on the disk (internal/filesink).
use evm_tools.Base.{
  ℕ, ◌≡◌, inl, inr, sym, ap, ◌∙◌, subst, true, false, some, List, [], ◌∷◌, ◌++◌, append_assoc,
  append-nil, Text, if_cases, take,
}
use evm_tools.Base.Exec.{Outcome, done, failed, panicked}
use evm_tools.Sink.Loop.{transient, permanent, Input, World}
use evm_tools.Sink.Loop.Options.{SinkOptions}
use evm_tools.Sink.Loop.Wanted.{messages, IsWhole}
use evm_tools.Sink.Loop.AtLeastOnce.{Called, Contract, IsDelivered, run_at_least_once, AllInputs}
use evm_tools.Sink.Filter.{FilterOptions}
use evm_tools.Sink.File.Writer.{IoError, RotateConfig, Writer, Os, write}
use evm_tools.Sink.File.Archive.{IsArchive, HasBytes, HasRemoved, IsWritten, write-IsWritten}
use evm_tools.Sink.File.Run.{classify_io, write_answer, files, to_line, run_file}

abbrev pub ended : Text → Text
ended line = line ++ b'\n' ∷ []

-- The lines, each with its newline.
abbrev pub encode : List Text → Text
encode [] = []
encode (line ∷ lines) = ended line ++ encode lines

encode-append : (ls : List Text) (line : Text) → encode (ls ++ line ∷ []) ≡ encode ls ++ ended line
encode-append [] line = append-nil (ended line)
encode-append (l ∷ ls) line =
    ap (λ x. ended l ++ x) (encode-append ls line)
    ∙ sym (append_assoc (ended l) (encode ls) (ended line))

-- The truncation of a rollback does not fail because the disk is full.
abbrev pub CanRollBack : Os → Type 0
CanRollBack os = (e : IoError) → os.truncating ≡ some e → e.full_disk ≡ false

abbrev pub IsOrderly : Os → Type 0
IsOrderly os = CanRollBack os × HasRemoved os.compressing

module _ (c : RotateConfig) (options : SinkOptions) (unpruned : c.max_backups ≡ 0)
    (first : Text) where
  -- The archive is what was there first and then the lines.
  abbrev pub HoldsLines : List Text → Writer → Type 0
  HoldsLines l w = IsArchive c (first ++ encode l) w

  -- The same, with a part of one more line.
  abbrev pub TornLines : List Text → Text → Writer → Type 0
  TornLines l line w = (n : ℕ) × HasBytes c ((first ++ encode l) ++ take n (ended line)) w

  same_lines : (l : List Text) (w : Writer) → HoldsLines l w → HoldsLines (l ++ []) w
  same_lines l w h = subst (λ k. HoldsLines k w) (sym (append-nil l)) h

  one_line :
      (l : List Text) (line : Text) (w : Writer)
      → IsArchive c ((first ++ encode l) ++ ended line) w
      → HoldsLines (l ++ line ∷ []) w
  one_line l line w a =
      subst (λ b. IsArchive c b w)
        (append_assoc first (encode l) (ended line)
          ∙ ap (λ x. first ++ x) (sym (encode-append l line)))
        a

  whole_lines : (l : List Text) (line : Text) (w : Writer) → HoldsLines l w → TornLines l line w
  whole_lines l line w a =
      (0, (subst (λ b. IsArchive c b w) (sym (append-nil (first ++ encode l))) a).whole)

  pub called :
      (line : Text) (os : Os) (l : List Text) (r : Outcome IoError (Unit {0}) × Writer)
      → CanRollBack os
      → IsWritten c (first ++ encode l) (ended line) os r
      → Called HoldsLines TornLines l line (write_answer r.0, r.1)
  unfolding classify_io
  called line os l (done x, w) ok a = (0, one_line l line w a)
  called line os l (panicked, w) ok h = absurd h
  called line os l (failed e, w) ok h =
      if_cases (λ a. Called HoldsLines TornLines l line (a, w)) e.full_disk (by_full h)
        (λ _. for_good h)
    where
      by_full :
          IsWritten c (first ++ encode l) (ended line) os (failed e, w)
          → e.full_disk ≡ true
          → Called HoldsLines TornLines l line (transient, w)
      by_full (inl a) full = (0, same_lines l w a)
      by_full (inr (inl a)) full = (1, one_line l line w a)
      by_full (inr (inr (refused, torn))) full = absurd (cc (full, ok e refused))

      for_good :
          IsWritten c (first ++ encode l) (ended line) os (failed e, w)
          → Called HoldsLines TornLines l line (permanent, w)
      for_good (inl a) = (0, whole_lines (l ++ []) line w (same_lines l w a))
      for_good (inr (inl a)) = (1, whole_lines (l ++ line ∷ []) line w (one_line l line w a))
      for_good (inr (inr (refused, torn))) =
          (0, subst (λ k. TornLines k line w) (sym (append-nil l)) torn)

  unfoldable pub file_contract : Contract (files c options)
  file_contract = record {
    Holds = HoldsLines;
    Torn = TornLines;
    Admits = IsOrderly;
    takes = λ line os l w ok h.
        called line os l (write c os line w) ok.0
          (write-IsWritten c unpruned (first ++ encode l) line os w ok.1 h);
  }

  -- Where no segment is pruned, no rollback fails for a full disk and the source of a compressed
  -- segment can be removed, whatever the operating system answers otherwise: all files of the directory
  -- but the active one, plain or compressed and in the order in which they were made, and then the
  -- active file have exactly the bytes of what was there first, then the line of each record that Run has
  -- counted, whole, at least once and in order, and then at most copies of the next line and a part of
  -- it. Where the input came to its end, no line was refused, and every record that the filter passes
  -- is there.
  pub run_file_at_least_once :
      {D : Type 0} (filter : FilterOptions) (inputs : List (Input D Os)) (w : World Writer)
      → AllInputs IsOrderly inputs
      → IsArchive c first w.dest
      → IsDelivered file_contract
          (IsWhole (to_line filter) inputs)
          (messages (to_line filter) inputs)
          []
          w.meters.delivered
          (run_file c options filter inputs w)
  unfolding run_file file_contract
  run_file_at_least_once filter inputs w ok a =
      run_at_least_once file_contract (to_line filter) inputs [] w ok
        (subst (λ b. IsArchive c b w.dest) (sym (append-nil first)) a)
