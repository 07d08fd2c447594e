-- ===== src/Record/Reader/Account.antt =====
-- Next of internal/record/reader.go passes over no line without a trace.
use evm_tools.Base.{◌≡◌, ◌⊎◌, none, refl, true, false, some, List, [], ◌∷◌, ◌++◌, Text}
use evm_tools.Record.Envelope.{Envelope}
use evm_tools.Record.Reader.{
  is_blank, is_space, trim_start, has_more, Malformed, good, bad, judge, is_accepted, Reader,
  scan_failed, found, at_end, halted, handle_malformed, Read, after_judge, next,
}

module _ {D : Type 0} (r : Reader D) where
  -- Lines that the reader went past: blank ones, and malformed ones that the hook has kept, which are
  -- the second list.
  pub data Passed : List Text → List Text → Type 0 where
    none_passed : Passed [] []
    blank :
        (line : Text) (lines kept : List Text)
        → is_blank line ≡ true
        → Passed lines kept
        → Passed (line ∷ lines) kept
    quarantined :
        (line : Text) (m : Malformed) (lines kept : List Text)
        → is_blank line ≡ false
        → judge (r.decode line) ≡ bad m
        → handle_malformed r.quarantine line m ≡ none
        → Passed lines kept
        → Passed (line ∷ lines) (line ∷ kept)

  -- The lines up to the one that decides, and what that one is.
  abbrev pub IsAccounted : List Text → Read D → Type 0
  IsAccounted lines (found env line rest, kept) =
      (front : List Text) × (lines ≡ front ++ line ∷ rest)
      × Passed front kept
      × (is_blank line ≡ false)
      × (judge (r.decode line) ≡ good env)
  IsAccounted lines (at_end, kept) = Passed lines kept × (r.scan_error ≡ none)
  IsAccounted lines (halted e, kept) =
      ((front : List Text) × (line : Text) × (rest : List Text) × (m : Malformed) × (lines
          ≡ front ++ line ∷ rest)
        × Passed front kept
        × (is_blank line ≡ false)
        × (judge (r.decode line) ≡ bad m)
        × (handle_malformed r.quarantine line m ≡ some e))
      ⊎ (Passed lines kept × ((t : Text) × (r.scan_error ≡ some t) × (e ≡ scan_failed t)))

  -- A line whose value is followed by a closing brace, whatever comes behind that, is read as a good
  -- record, if it has the schema version and is not blank.
  pub closing_accepted :
      (line : Text) (lines : List Text) (env : Envelope D) (behind : Text)
      → is_blank line ≡ false
      → r.decode line ≡ some (env, b'}' ∷ behind)
      → is_accepted env.schema ≡ true
      → next r (line ∷ lines) ≡ (found env line lines, [])
  unfolding next after_judge judge has_more trim_start is_space
  closing_accepted line lines env behind b decoded version = rw (b, decoded, version) refl
