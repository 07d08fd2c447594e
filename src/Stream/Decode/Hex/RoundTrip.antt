-- ===== src/Stream/Decode/Hex/RoundTrip.antt =====
-- Decoding and encoding with encoding/hex.
use evm_tools.Base.{
  ℕ, suc, ◌+◌, ◌*◌, ◌/◌, ◌%◌, ◌<◌, ◌≡◌, refl, ap, ◌∙◌, arith, Option, none, some, [], ◌∷◌, Text,
  length, to_lower, lower_byte,
}
use evm_tools.Rpc.Hex.{hex_digit, digit_value}
use evm_tools.Stream.Decode.Hex.{Bytes, encode_hex, decode_hex, both}

pub digit_value-lower_byte : (c : ℕ) → digit_value (lower_byte c) ≡ digit_value c
unfolding digit_value lower_byte
digit_value-lower_byte c = ground arith

hex_digit-digit_value : (c v : ℕ) → digit_value c ≡ some v → (v < 16) × (hex_digit v ≡ lower_byte c)
unfolding digit_value lower_byte hex_digit
hex_digit-digit_value c v h = ground arith

pub decode_hex-to_lower : (s : Text) → decode_hex (to_lower s) ≡ decode_hex s
unfolding decode_hex to_lower
decode_hex-to_lower [] = refl
decode_hex-to_lower (c ∷ []) = refl
decode_hex-to_lower (c ∷ d ∷ s) =
    rw (digit_value-lower_byte c, digit_value-lower_byte d, decode_hex-to_lower s) refl

pub length-to_lower : (s : Text) → length (to_lower s) ≡ length s
unfolding to_lower
length-to_lower [] = refl
length-to_lower (c ∷ s) = ap suc (length-to_lower s)

both-some :
    (x y : Option ℕ) (o : Option Bytes) (bs : Bytes)
    → both x y o ≡ some bs
    → (hi : ℕ) × (lo : ℕ) × (rest : Bytes) × (x ≡ some hi)
      × (y ≡ some lo)
      × (o ≡ some rest)
      × (bs ≡ (hi * 16 + lo) ∷ rest)
both-some (some hi) (some lo) (some rest) bs h = (hi, lo, rest, refl, refl, refl, cc h)
both-some (some hi) (some lo) none bs h = cc h
both-some (some hi) none o bs h = cc h
both-some none y o bs h = cc h

encode_byte :
    (hi lo : ℕ) (rest : Bytes)
    → hi < 16
    → lo < 16
    → encode_hex ((hi * 16 + lo) ∷ rest) ≡ hex_digit hi ∷ hex_digit lo ∷ encode_hex rest
unfolding encode_hex
encode_byte hi lo rest h l =
    let high : (hi * 16 + lo) / 16 ≡ hi = omega arith in
    let low : (hi * 16 + lo) % 16 ≡ lo = omega arith in rw (high, low) refl

-- A text of hexadecimal digits has a byte for each two of them, and encoding the bytes gives the digits
-- in lower case.
pub encode_hex-decode_hex :
    (s : Text) (bs : Bytes)
    → decode_hex s ≡ some bs
    → (encode_hex bs ≡ to_lower s) × (length s ≡ 2 * length bs)
unfolding decode_hex encode_hex to_lower
encode_hex-decode_hex [] bs h = by_bytes bs h
  where
    by_bytes : (b : Bytes) → some [] ≡ some b → (encode_hex b ≡ []) × (0 ≡ 2 * length b)
    by_bytes [] k = (refl, refl)
    by_bytes (x ∷ b) k = absurd (cc k)
encode_hex-decode_hex (c ∷ []) bs h = absurd (cc h)
encode_hex-decode_hex (c ∷ d ∷ s) bs h =
    let (hi, lo, rest, x, y, o, e) =
      both-some (digit_value c) (digit_value d) (decode_hex s) bs h in
    let (small, first) = hex_digit-digit_value c hi x in
    let (small', second) = hex_digit-digit_value d lo y in
    let (digits, sized) = encode_hex-decode_hex s rest o in
    (
      ap encode_hex e ∙ encode_byte hi lo rest small small' ∙ cc (first, second, digits),
      omega (arith, ap length e),
    )
