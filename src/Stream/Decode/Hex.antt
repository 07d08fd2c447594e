-- ===== src/Stream/Decode/Hex.antt =====
-- encoding/hex, hexToBytes of internal/stream/decode.go, and big-endian values.
pub mod RoundTrip
use evm_tools.Base.{
  ℕ, ◌+◌, ◌-◌, ◌*◌, ◌/◌, ◌%◌, ◌<◌, ◌&&◌, Option, none, some, List, [], ◌∷◌, Text, length, take,
  drop, leb, if◌then◌else◌,
}
use evm_tools.Base.Exec.{Outcome, done, failed, panicked}
use evm_tools.Rpc.Hex.{hex_digit, digit_value, trim_hex_prefix}

abbrev pub Bytes : Type 0
Bytes = List ℕ

abbrev pub IsByte : ℕ → Type 0
IsByte b = b < 256

-- An error of the decoder: the log is skipped, whatever the message.
pub data DecodeError : Type 0 where
  undecodable : DecodeError

abbrev pub Decoded : Type 0 → Type 0
Decoded A = Outcome DecodeError A

-- hex.EncodeToString
unfoldable pub encode_hex : Bytes → Text
encode_hex [] = []
encode_hex (b ∷ bs) = hex_digit (b / 16) ∷ hex_digit (b % 16) ∷ encode_hex bs

abbrev pub both : Option ℕ → Option ℕ → Option Bytes → Option Bytes
both (some hi) (some lo) (some bs) = some ((hi * 16 + lo) ∷ bs)
both _ _ _ = none

-- hex.DecodeString: an odd length or a byte that is no digit is an error.
unfoldable pub decode_hex : Text → Option Bytes
decode_hex [] = some []
decode_hex (c ∷ []) = none
decode_hex (c ∷ d ∷ s) = both (digit_value c) (digit_value d) (decode_hex s)

-- hexToBytes: a text that is empty behind its prefix has no bytes.
unfoldable pub hex_to_bytes : Text → Decoded Bytes
hex_to_bytes s = elim (decode_hex (trim_hex_prefix s)) [
  | none ↦ failed undecodable
  | some bs ↦ done bs
]

-- big.Int.SetBytes, behind `n`.
unfoldable pub be_value : ℕ → Bytes → ℕ
be_value n [] = n
be_value n (b ∷ bs) = be_value (n * 256 + b) bs

-- The slice expression bs[lo:hi] over a slice that fills its capacity; as in Go the bounds are
-- compared unsigned, so a negative one is out of range.
unfoldable pub slice : Bytes → ℕ → ℕ → Decoded Bytes
slice bs lo hi =
    if leb lo hi && leb hi (length bs) then done (take (hi - lo) (drop lo bs)) else panicked
