-- ===== src/Record/Reader.antt =====
-- internal/record/reader.go: Next with its quarantine hook, on the lines of the stream. The decoding of
-- the JSON value at the head of a line, which gives the text behind it too, is the standard library's.
pub mod Account
use evm_tools.Base.{
  ℕ, Bool, true, false, not, ◌&&◌, ◌||◌, ◌==◌, Option, none, some, List, [], ◌∷◌, Text,
  if◌then◌else◌, ℤ, pos, negsuc,
}
use evm_tools.Record.Envelope.{Envelope, schema_version}

unfoldable pub is_space : ℕ → Bool
is_space c = (c == 32) || (c == 9) || (c == 13) || (c == 10)

-- The first loop of trimSpace.
unfoldable pub trim_start : Text → Text
trim_start [] = []
trim_start (c ∷ s) = let rest = trim_start s in if is_space c then rest else c ∷ s

abbrev pub cons_end : ℕ → Text → Text
cons_end c [] = if is_space c then [] else c ∷ []
cons_end c (d ∷ s) = c ∷ d ∷ s

-- The second.
unfoldable pub trim_end : Text → Text
trim_end [] = []
trim_end (c ∷ s) = cons_end c (trim_end s)

abbrev pub no_text : Text → Bool
no_text [] = true
no_text (c ∷ s) = false

-- len(trimSpace(line)) == 0
unfoldable pub is_blank : Text → Bool
is_blank line = no_text (trim_end (trim_start line))

-- json.Decoder.More on the text behind the value: whether there is another element, which a closing
-- bracket is not.
abbrev starts_element : Text → Bool
starts_element [] = false
starts_element (c ∷ s) = not (c == b']') && not (c == b'}')

unfoldable pub has_more : Text → Bool
has_more behind = starts_element (trim_start behind)

pub data Malformed : Type 0 where
  not_json trailing_data : Malformed
  bad_schema : ℤ → Malformed

pub data Judged (D : Type 0) : Type 0 where
  good : Envelope D → Judged D
  bad : Malformed → Judged D

abbrev pub is_accepted : ℤ → Bool
is_accepted (pos n) = n == schema_version
is_accepted (negsuc n) = false

-- What Next makes of a line that is not blank.
unfoldable pub judge : {D : Type 0} → Option (Envelope D × Text) → Judged D
judge none = bad not_json
judge (some (env, behind)) =
    if has_more behind
    then bad trailing_data
    else if is_accepted env.schema
    then good env
    else bad (bad_schema env.schema)

-- The hook: its error, or none where it has kept the line.
abbrev pub Hook : Type 0
Hook = Text → Malformed → Option Text

-- The decoder, the hook, if it is installed, and the scanner's error behind the last line, if it has one:
-- a line that is too long, or an error of the input.
pub record Reader (D : Type 0) : Type 0 where
  pub decode : Text → Option (Envelope D × Text)
  pub quarantine : Option Hook
  pub scan_error : Option Text

-- An error of Next: of a malformed line, of the hook, or of the scanner.
pub data NextError : Type 0 where
  malformed : Malformed → NextError
  hook_failed : Text → NextError
  scan_failed : Text → NextError

-- What a call of Next comes to: a record, its line and the lines behind it, io.EOF, or an error.
pub data Next (D : Type 0) : Type 0 where
  found : Envelope D → Text → List Text → Next D
  at_end : Next D
  halted : NextError → Next D

abbrev pub hook_error : Option Text → Option NextError
hook_error none = none
hook_error (some e) = some (hook_failed e)

-- handleMalformed: without a hook the line's error, and else that of the hook; the reader goes on behind
-- the line where there is none.
unfoldable pub handle_malformed : Option Hook → Text → Malformed → Option NextError
handle_malformed none line m = some (malformed m)
handle_malformed (some keep) line m = hook_error (keep line m)

-- With the lines that went to the hook and were kept.
abbrev pub Read : Type 0 → Type 0
Read D = Next D × List Text

abbrev pub after_hook : {D : Type 0} → Text → Read D → Option NextError → Read D
after_hook line rest none = (rest.0, line ∷ rest.1)
after_hook line rest (some e) = (halted e, [])

unfoldable pub after_judge : {D : Type 0} → Reader D → Text → List Text → Read D → Judged D → Read D
after_judge r line lines rest (good env) = (found env line lines, [])
after_judge r line lines rest (bad m) = after_hook line rest (handle_malformed r.quarantine line m)

-- What Next returns where Scan has no other line.
abbrev pub ending : {D : Type 0} → Option Text → Next D
ending none = at_end
ending (some e) = halted (scan_failed e)

-- Next
unfoldable pub next : {D : Type 0} → Reader D → List Text → Read D
next r [] = (ending r.scan_error, [])
next r (line ∷ lines) =
    let rest = next r lines in
    if is_blank line then rest else after_judge r line lines rest (judge (r.decode line))
