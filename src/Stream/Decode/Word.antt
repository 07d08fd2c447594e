-- ===== src/Stream/Decode/Word.antt =====
-- decodeWord, decodeSignedInt, fixedBytesSize, isDynamicType and decodeTopic of
-- internal/stream/decode.go.
use evm_tools.Base.{
  ℕ, ◌+◌, ◌-◌, ◌*◌, ◌^◌, Bool, true, not, ◌&&◌, ◌||◌, Option, none, some, [], ◌∷◌, Text, codes,
  length, take, drop, ltb, leb, ◌==◌, if◌then◌else◌, text_eq, has_prefix, has_suffix, trim_prefix,
  ℤ, pos, negsuc, neg, format_int, decimal,
}
use evm_tools.Base.Exec.{done, failed, ◌>=>◌}
use evm_tools.Stream.Decode.Hex.{Bytes, undecodable, Decoded, encode_hex, hex_to_bytes, be_value}

-- Two's complement of 256 bits: the word's number, less 2 ^ 256 if its top bit is set.
unfoldable pub signed_value : Bytes → ℤ
signed_value [] = pos 0
signed_value (b ∷ bs) =
    let n = be_value 0 (b ∷ bs) in if leb 128 b then neg (2 ^ 256 - n) else pos n

-- decodeSignedInt
unfoldable pub decode_signed_int : Bytes → Text
decode_signed_int word = format_int (signed_value word)

-- The digits of strconv.Atoi behind `n`; a number past `limit` is an error there too.
unfoldable pub scan_decimal : Text → ℕ → Option ℕ
scan_decimal [] n = some n
scan_decimal (c ∷ s) n =
    let rest = scan_decimal s (n * 10 + (c - b'0')) in
    if leb b'0' c && leb c b'9' then rest else none

unfoldable pub unsigned_decimal : Text → Option ℕ
unfolding scan_decimal
unsigned_decimal [] = none
unsigned_decimal (c ∷ s) = scan_decimal (c ∷ s) 0

-- strconv.Atoi, for the callers that refuse a number above 2 ^ 63 - 1 anyway.
unfoldable pub atoi : Text → Option ℤ
unfolding unsigned_decimal
atoi [] = none
atoi (c ∷ s) =
    if c == b'-'
    then elim (unsigned_decimal s) [ none ↦ none | some n ↦ some (neg n) ]
    else if c == b'+'
    then elim (unsigned_decimal s) [ none ↦ none | some n ↦ some (pos n) ]
    else elim (unsigned_decimal (c ∷ s)) [ none ↦ none | some n ↦ some (pos n) ]

abbrev pub in_word : Option ℤ → Decoded ℕ
in_word none = failed undecodable
in_word (some (negsuc n)) = failed undecodable
in_word (some (pos n)) = if ltb n 1 || ltb 32 n then failed undecodable else done n

-- fixedBytesSize
unfoldable pub fixed_bytes_size : Text → Decoded ℕ
fixed_bytes_size typ =
    if text_eq typ (codes "bytes")
    then failed undecodable
    else in_word (atoi (trim_prefix typ (codes "bytes")))

-- word[31] == 0, where the word has 32 bytes.
abbrev last_is_zero : Bytes → Bool
last_is_zero word = elim (drop 31 word) [ [] ↦ true | b ∷ bs ↦ b == 0 ]

abbrev hex_prefixed : Bytes → Text
hex_prefixed bs = b'0' ∷ b'x' ∷ encode_hex bs

-- decodeWord
unfoldable pub decode_word : Text → Bytes → Decoded Text
decode_word typ word =
    if not (length word == 32)
    then failed undecodable
    else if text_eq typ (codes "address")
    then done (hex_prefixed (drop 12 word))
    else if text_eq typ (codes "bool")
    then done (if last_is_zero word then codes "false" else codes "true")
    else if has_prefix typ (codes "uint")
    then done (decimal (be_value 0 word))
    else if has_prefix typ (codes "int")
    then done (decode_signed_int word)
    else if has_prefix typ (codes "bytes")
    then (fixed_bytes_size typ >=> λ n. done (hex_prefixed (take n word)))
    else failed undecodable

-- isDynamicType
unfoldable pub is_dynamic_type : Text → Bool
is_dynamic_type typ =
    text_eq typ (codes "bytes")
    || text_eq typ (codes "string")
    || has_suffix typ (codes "[]")
    || has_prefix typ (codes "tuple")

-- decodeTopic
unfoldable pub decode_topic : Text → Text → Decoded Text
decode_topic typ topic = hex_to_bytes topic >=> λ word.
    if not (length word == 32)
    then failed undecodable
    else if is_dynamic_type typ
    then done (hex_prefixed word)
    else decode_word typ word
