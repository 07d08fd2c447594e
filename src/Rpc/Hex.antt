-- ===== src/Rpc/Hex.antt =====
-- hexUint, hexBig and BlockTag of internal/rpc/eth.go, with big.Int.SetString at base 16.
pub mod RoundTrip
use evm_tools.Base.{
  ℕ, zero, suc, ◌+◌, ◌-◌, ◌*◌, ◌/◌, ◌%◌, ◌^◌, ◌≤◌, ◌<◌, ◌≡◌, refl, arith, Bool, true, false, ◌&&◌,
  Option, none, some, List, [], ◌∷◌, ◌++◌, Text, codes, ltb, leb, ◌==◌, if◌then◌else◌, ℤ, pos, neg,
}

unfoldable pub hex_digit : ℕ → ℕ
hex_digit d = if ltb d 10 then b'0' + d else b'a' + (d - 10)

unfoldable pub digit_value : ℕ → Option ℕ
digit_value c =
    if leb b'0' c && leb c b'9'
    then some (c - b'0')
    else if leb b'a' c && leb c b'f'
    then some (c - b'a' + 10)
    else if leb b'A' c && leb c b'F'
    then some (c - b'A' + 10)
    else none

unfoldable pub hex_digits : ℕ → ℕ → Text → Text
hex_digits zero n out = out
hex_digits (suc f) n out =
    let rest = hex_digits f (n / 16) (hex_digit (n % 16) ∷ out) in
    if ltb n 16 then hex_digit n ∷ out else rest

-- One digit needs one round, so a round for each number below is enough.
unfoldable pub hex_text : ℕ → Text
unfolding hex_digits hex_digit
hex_text n = hex_digits (suc n) n []

-- BlockTag.
unfoldable pub block_tag : ℕ → Text
block_tag n = b'0' ∷ b'x' ∷ hex_text n

-- The digits behind `n`.
unfoldable pub scan_hex : Text → ℕ → Option ℕ
scan_hex [] n = some n
scan_hex (c ∷ s) n = elim (digit_value c) [ none ↦ none | some d ↦ scan_hex s (n * 16 + d) ]

unfoldable pub unsigned_hex : Text → Option ℕ
unfolding scan_hex digit_value
unsigned_hex [] = none
unsigned_hex (c ∷ s) = scan_hex (c ∷ s) 0

-- big.Int.SetString(s, 16): an optional sign, then at least one digit.
unfoldable pub set_string : Text → Option ℤ
unfolding unsigned_hex
set_string [] = none
set_string (c ∷ s) =
    if c == b'-'
    then elim (unsigned_hex s) [ none ↦ none | some n ↦ some (neg n) ]
    else if c == b'+'
    then elim (unsigned_hex s) [ none ↦ none | some n ↦ some (pos n) ]
    else elim (unsigned_hex (c ∷ s)) [ none ↦ none | some n ↦ some (pos n) ]

-- strings.TrimPrefix with a prefix of two bytes.
unfoldable pub trim_two : ℕ → ℕ → Text → Text
trim_two a b [] = []
trim_two a b (c ∷ []) = c ∷ []
trim_two a b (c ∷ d ∷ s) = if (c == a) && (d == b) then s else c ∷ d ∷ s

unfoldable pub trim_hex_prefix : Text → Text
trim_hex_prefix s = trim_two b'0' b'X' (trim_two b'0' b'x' s)

-- hexBig; `none` is the error.
unfoldable pub hex_big : Text → Option ℤ
hex_big s = set_string (trim_hex_prefix s)

abbrev pub to_uint64 : Option ℤ → Option ℕ
to_uint64 none = none
to_uint64 (some (pos n)) = if ltb n (2 ^ 64) then some n else none
to_uint64 (some z) = none

-- hexUint; `none` is either error.
unfoldable pub hex_uint : Text → Option ℕ
hex_uint s = to_uint64 (hex_big s)
