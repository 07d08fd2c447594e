-- ===== src/Stream/Decode/Data.antt =====
-- decodeDynamic and decodeData of internal/stream/decode.go. Offsets and counts are an `int`: the
-- conversion from uint64 keeps the bits, so what is 2 ^ 63 or more is negative.
use evm_tools.Base.{
  ℕ, zero, suc, ◌+◌, ◌*◌, ◌^◌, List, [], ◌∷◌, ◌++◌, Text, codes, length, ltb, leb, if◌then◌else◌,
  text_eq, has_suffix, trim_suffix, signed_lt, add64, mul64,
}
use evm_tools.Base.Exec.{done, failed, panicked, ◌>=>◌}
use evm_tools.Record.Key.{join}
use evm_tools.Stream.State.{AbiInput}
use evm_tools.Stream.Decode.Hex.{Bytes, undecodable, Decoded, encode_hex, be_value, slice}
use evm_tools.Stream.Decode.Word.{decode_word, is_dynamic_type}

-- The payload of bytes and string: `count` bytes behind the length word.
unfoldable pub payload : Bytes → ℕ → ℕ → Decoded Bytes
payload bytes offset count =
    let end = add64 (add64 offset 32) count in
    if signed_lt (length bytes) end then failed undecodable else slice bytes (add64 offset 32) end

-- `for i := 0; i < count; i++` over the elements, by the rounds left.
unfoldable pub elements : Text → Bytes → ℕ → ℕ → ℕ → Decoded (List Text)
elements elem_type bytes base i zero = done []
elements elem_type bytes base i (suc rounds) =
    let start = add64 base (mul64 i 32) in
    let rest = elements elem_type bytes base (suc i) rounds in
    if signed_lt (length bytes) (add64 start 32)
    then failed undecodable
    else (slice bytes start (add64 start 32) >=> λ word.
        decode_word elem_type word >=> λ v. rest >=> λ vs. done (v ∷ vs))

-- make([]string, count) panics for a length that is negative or past what the runtime allows.
unfoldable pub array : ℕ → Text → Bytes → ℕ → ℕ → Decoded Text
array max_elements elem_type bytes offset count =
    if is_dynamic_type elem_type
    then failed undecodable
    else if ltb max_elements count
    then panicked
    else (elements elem_type bytes (add64 offset 32) 0 count >=> λ vs.
        done (b'[' ∷ join b',' vs ++ b']' ∷ []))

-- The three forms of a dynamic type, with the count of the length word.
unfoldable pub decode_payload : ℕ → Text → Bytes → ℕ → ℕ → Decoded Text
decode_payload max_elements typ bytes offset count =
    if text_eq typ (codes "bytes")
    then (payload bytes offset count >=> λ bs. done (b'0' ∷ b'x' ∷ encode_hex bs))
    else if text_eq typ (codes "string")
    then payload bytes offset count
    else if has_suffix typ (codes "[]")
    then array max_elements (trim_suffix typ (codes "[]")) bytes offset count
    else failed undecodable

-- decodeDynamic
unfoldable pub decode_dynamic : ℕ → Text → Bytes → ℕ → Decoded Text
decode_dynamic max_elements typ bytes offset =
    if signed_lt (length bytes) (add64 offset 32)
    then failed undecodable
    else (slice bytes offset (add64 offset 32) >=> λ word.
        let n = be_value 0 word in
        if leb (2 ^ 64) n
        then failed undecodable
        else decode_payload max_elements typ bytes offset n)

-- One parameter of decodeData, from its head word.
unfoldable pub decode_slot : ℕ → Text → Bytes → Bytes → Decoded Text
decode_slot max_elements typ bytes word =
    if is_dynamic_type typ
    then (let off = be_value 0 word in
        if leb (2 ^ 64) off then failed undecodable else decode_dynamic max_elements typ bytes off)
    else decode_word typ word

-- decodeData: the parameters from the i-th on.
unfoldable pub decode_data : ℕ → Bytes → ℕ → List AbiInput → Decoded (List Text)
decode_data max_elements bytes i [] = done []
decode_data max_elements bytes i (p ∷ inputs) =
    let head = i * 32 in
    let rest = decode_data max_elements bytes (suc i) inputs in
    if ltb (length bytes) (head + 32)
    then failed undecodable
    else (slice bytes head (head + 32) >=> λ word.
        decode_slot max_elements p.type bytes word >=> λ v. rest >=> λ vs. done (v ∷ vs))
