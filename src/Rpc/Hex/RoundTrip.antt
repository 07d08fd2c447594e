-- ===== src/Rpc/Hex/RoundTrip.antt =====
-- BlockTag and hexUint of internal/rpc/eth.go are inverse on the heights of an uint64.
use evm_tools.Base.{
  ℕ, zero, suc, ◌/◌, ◌%◌, ◌^◌, ◌<◌, ◌≡◌, ◌≢◌, refl, arith, some, [], ◌∷◌, Text, All, pos,
}
use evm_tools.Rpc.Hex.{
  hex_digit, digit_value, hex_digits, hex_text, block_tag, scan_hex, unsigned_hex, set_string,
  trim_two, trim_hex_prefix, hex_big, hex_uint,
}

-- No sign, and no capital X.
abbrev IsPlain : ℕ → Type 0
IsPlain c = (c ≢ b'-') × (c ≢ b'+') × (c ≢ b'X')

hex_digit-IsPlain : (d : ℕ) → IsPlain (hex_digit d)
unfolding hex_digit
hex_digit-IsPlain d = ground arith

hex_digits-IsPlain : (f n : ℕ) (out : Text) → All IsPlain out → All IsPlain (hex_digits f n out)
unfolding hex_digits
hex_digits-IsPlain zero n out h = h
hex_digits-IsPlain (suc f) n out h = ground (
  arith,
  hex_digit-IsPlain n,
  hex_digits-IsPlain f (n / 16) (hex_digit (n % 16) ∷ out) (hex_digit-IsPlain (n % 16), h),
)

digit_value-hex_digit : (d : ℕ) → d < 16 → digit_value (hex_digit d) ≡ some d
unfolding digit_value hex_digit
digit_value-hex_digit d h = ground arith

scan_hex-digits : (f n : ℕ) (out : Text) → n < f → scan_hex (hex_digits f n out) 0 ≡ scan_hex out n
unfolding hex_digits scan_hex
scan_hex-digits zero n out h = absurd (omega arith)
scan_hex-digits (suc f) n out h = ground (
  arith,
  digit_value-hex_digit n,
  digit_value-hex_digit (n % 16),
  scan_hex-digits f (n / 16) (hex_digit (n % 16) ∷ out),
)

hex_digits-ne-nil : (f n : ℕ) (out : Text) → n < f → hex_digits f n out ≢ []
unfolding hex_digits
hex_digits-ne-nil zero n out h = absurd (omega arith)
hex_digits-ne-nil (suc f) n out h =
    ground (arith, hex_digits-ne-nil f (n / 16) (hex_digit (n % 16) ∷ out))

trim_capital : (s : Text) → All IsPlain s → trim_two b'0' b'X' s ≡ s
unfolding trim_two
trim_capital [] h = refl
trim_capital (c ∷ []) h = refl
trim_capital (c ∷ d ∷ s) h = ground arith

set_string-plain :
    (s : Text) (n : ℕ)
    → s ≢ []
    → All IsPlain s
    → scan_hex s 0 ≡ some n
    → set_string s ≡ some (pos n)
unfolding set_string unsigned_hex
set_string-plain [] n nn h e = absurd (nn refl)
set_string-plain (c ∷ s) n nn h e = ground arith

trim-block_tag : (s : Text) → All IsPlain s → trim_hex_prefix (b'0' ∷ b'x' ∷ s) ≡ s
unfolding trim_hex_prefix
trim-block_tag s h = rw (trim_prefix s) (trim_capital s h)
  where
    trim_prefix : (t : Text) → trim_two b'0' b'x' (b'0' ∷ b'x' ∷ t) ≡ t
    trim_prefix t = unfold trim_two in refl

set_string-hex_text : (n : ℕ) → set_string (hex_text n) ≡ some (pos n)
unfolding hex_text scan_hex
set_string-hex_text n =
    set_string-plain (hex_digits (suc n) n []) n (hex_digits-ne-nil (suc n) n [] (omega arith))
      (hex_digits-IsPlain (suc n) n [] tt) (scan_hex-digits (suc n) n [] (omega arith))

hex_text-IsPlain : (n : ℕ) → All IsPlain (hex_text n)
unfolding hex_text
hex_text-IsPlain n = hex_digits-IsPlain (suc n) n [] tt

-- Every height below 2 ^ 64 is read back from its block tag, as a height and as a quantity.
pub hex_uint-block_tag :
    (n : ℕ)
    → n < 2 ^ 64
    → (hex_uint (block_tag n) ≡ some n) × (hex_big (block_tag n) ≡ some (pos n))
unfolding hex_uint hex_big block_tag
hex_uint-block_tag n h =
    rw (trim-block_tag (hex_text n) (hex_text-IsPlain n), set_string-hex_text n)
      (ground arith, refl)
