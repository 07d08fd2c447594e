-- ===== src/Balance/Abi/Words.antt =====
-- The words of evm-balance's calldata, and their reading (internal/balance/abi.go).
use evm_tools.Base.{
  ℕ, suc, zero, ◌-◌, ◌<◌, ◌≤◌, ◌≡◌, refl, ap, ◌∙◌, arith, true, false, if_cases, Option, none, some,
  List, [], ◌∷◌, ◌++◌, Text, length, length-append, drop, ltb, to_lower, ◌==◌, ◌&&◌,
}
use evm_tools.Base.Exec.{done, ◌>=>◌}
use evm_tools.Rpc.Hex.{trim_hex_prefix, trim_two, digit_value}
use evm_tools.Stream.Decode.Hex.{Bytes, encode_hex, decode_hex, both}
use evm_tools.Stream.Decode.Hex.RoundTrip.{
  encode_hex-decode_hex, decode_hex-to_lower, length-to_lower,
}
use evm_tools.Balance.Abi.{
  low, repeat, pad_word, pad_address, bytes_of, result_word, decode_address,
}

length-repeat : (c n : ℕ) → length (repeat c n) ≡ n
unfolding repeat
length-repeat c zero = refl
length-repeat c (suc n) = ap suc (length-repeat c n)

drop_some : {A : Type 0} (n : ℕ) (xs : List A) → length (drop n xs) ≡ length xs - n
drop_some zero xs = omega arith
drop_some (suc n) [] = omega arith
drop_some (suc n) (x ∷ xs) = drop_some n xs ∙ omega arith

length-low : {A : Type 0} (n : ℕ) (xs : List A) → length (low n xs) ≤ n
unfolding low
length-low {A} n xs =
    if_cases {yes = drop (length xs - n) xs} {no = xs} (λ l. length l ≤ n) (ltb n (length xs)) cut
      short
  where
    cut : ltb n (length xs) ≡ true → length (drop (length xs - n) xs) ≤ n
    cut e = let long : n < length xs = ground arith in omega (arith, drop_some (length xs - n) xs)

    short : ltb n (length xs) ≡ false → length xs ≤ n
    short e = ground arith

-- Whatever an address is, its word has 64 digits.
pub length-pad_address : (addr : Text) → length (pad_address addr) ≡ 64
unfolding pad_address pad_word
length-pad_address addr =
    let digits = low 40 (to_lower (trim_hex_prefix addr)) in
    length-append (repeat b'0' (64 - length digits)) digits
    ∙ omega (
      arith,
      length-repeat b'0' (64 - length digits),
      length-low 40 (to_lower (trim_hex_prefix addr)),
    )

-- What is not longer is kept.
low_short : {A : Type 0} (n : ℕ) (xs : List A) → length xs ≤ n → low n xs ≡ xs
unfolding low
low_short n xs h =
    if_cases (λ l. l ≡ xs) (ltb n (length xs)) (λ e. absurd (ground arith)) (λ _. refl)

-- Hexadecimal digits have no prefix 0X.
no_prefix : (s : Text) (bs : Bytes) → decode_hex s ≡ some bs → trim_two b'0' b'X' s ≡ s
unfolding decode_hex trim_two digit_value
no_prefix [] bs h = refl
no_prefix (c ∷ []) bs h = refl
no_prefix (c ∷ d ∷ s) bs h =
    if_cases (λ l. l ≡ c ∷ d ∷ s) ((c == b'0') && (d == b'X')) (λ e. absurd (is_digit (at_x e)))
      (λ _. refl)
  where
    at_x : ((c == b'0') && (d == b'X')) ≡ true → digit_value d ≡ none
    at_x e = ground arith

    is_digit : digit_value d ≡ none → ⊥
    is_digit e = none_left (digit_value c) (digit_value d) e h
      where
        none_left : (x y : Option ℕ) → y ≡ none → both x y (decode_hex s) ≡ some bs → ⊥
        none_left (some x) none e k = absurd (cc k)
        none_left none none e k = absurd (cc k)
        none_left x (some y) e k = absurd (cc e)

-- Twelve bytes of zero in front of an address.
abbrev pub padded : Bytes → Bytes
padded bs = 0 ∷ 0 ∷ 0 ∷ 0 ∷ 0 ∷ 0 ∷ 0 ∷ 0 ∷ 0 ∷ 0 ∷ 0 ∷ 0 ∷ bs

decode_padded :
    (s : Text) (bs : Bytes)
    → decode_hex s ≡ some bs
    → decode_hex (repeat b'0' 24 ++ s) ≡ some (padded bs)
unfolding decode_hex repeat digit_value
decode_padded s bs h = rw h refl

drop_padded : (bs : Bytes) → length bs ≡ 20 → low 20 (padded bs) ≡ bs
unfolding low
drop_padded bs h = rw h refl

address_word :
    (s : Text) (bs : Bytes)
    → decode_hex s ≡ some bs
    → length s ≡ 40
    → pad_address (b'0' ∷ b'x' ∷ s) ≡ repeat b'0' 24 ++ to_lower s
unfolding pad_address pad_word trim_hex_prefix trim_two
address_word s bs h sized =
    let n : length (to_lower s) ≡ 40 = length-to_lower s ∙ sized in
    ap (λ t. pad_word (low 40 (to_lower t))) (no_prefix s bs h)
    ∙ ap pad_word (low_short 40 (to_lower s) (omega arith))
    ∙ ap (λ k. repeat b'0' (64 - k) ++ to_lower s) n

no_prefix_word : (t : Text) → trim_hex_prefix (repeat b'0' 24 ++ t) ≡ repeat b'0' 24 ++ t
unfolding trim_hex_prefix trim_two repeat
no_prefix_word t = refl

read_word :
    (t : Text) (bs : Bytes)
    → decode_hex t ≡ some bs
    → length bs ≡ 20
    → result_word (repeat b'0' 24 ++ t) ≡ done (padded bs)
unfolding result_word
read_word t bs h sized =
    ap (λ x. bytes_of (decode_hex x) >=> λ b. done (low 32 b)) (no_prefix_word t)
    ∙ ap (λ o. bytes_of o >=> λ b. done (low 32 b)) (decode_padded t bs h)
    ∙ ap done (low_short 32 (padded bs) (omega (arith, sized)))

-- An address of forty hexadecimal digits that is padded into a word of calldata is read back from the
-- word as the same digits, in lower case.
pub decode_address-pad_address :
    (s : Text) (bs : Bytes)
    → decode_hex s ≡ some bs
    → length s ≡ 40
    → decode_address (pad_address (b'0' ∷ b'x' ∷ s)) ≡ done (b'0' ∷ b'x' ∷ to_lower s)
unfolding decode_address
decode_address-pad_address s bs h sized =
    let (digits, two_each) = encode_hex-decode_hex s bs h in
    let lower = decode_hex-to_lower s ∙ h in
    ap (λ x. result_word x >=> λ w. done (b'0' ∷ b'x' ∷ encode_hex (low 20 w)))
      (address_word s bs h sized)
    ∙ ap (λ r. r >=> λ w. done (b'0' ∷ b'x' ∷ encode_hex (low 20 w)))
        (read_word (to_lower s) bs lower (omega arith))
    ∙ ap (λ b. done (b'0' ∷ b'x' ∷ encode_hex b)) (drop_padded bs (omega arith))
    ∙ ap (λ t. done (b'0' ∷ b'x' ∷ t)) digits
