-- ===== src/Stream/Native/Units/Exact.antt =====
-- The digits that formatUnits of internal/stream/native.go writes.
use native.Mathlib.Nat.{mod-lt, div-add-mod, mul_comm}
use evm_tools.Base.{
  ℕ, zero, suc, ◌+◌, ◌-◌, ◌*◌, ◌/◌, ◌%◌, ◌^◌, ◌≤◌, ◌<◌, ◌≡◌, ◌≢◌, if_either, inl, inr, refl, sym,
  ap, ◌∙◌, arith, Bool-cases, ◌==◌, ltb, [], ◌∷◌, ◌++◌, Text, All, length, length-append, digits,
  decimal, value, value-decimal, decimal-ne-nil, IsDigit, decimal-IsDigit, ℤ, abs,
}
use evm_tools.Stream.Native.Units.{
  zeros, cons_trimmed, trim_zeros, or_zero, fraction, sign_of, format_units,
}

power_suc : (k : ℕ) → 10 ^ suc k ≡ 10 * 10 ^ k
power_suc k = omega arith

digits-length :
    (f n k : ℕ) (out : Text) → n < f → n < 10 ^ suc k → length (digits f n out) ≤ suc k + length out
unfolding digits
digits-length zero n k out lt small = absurd (omega arith)
digits-length (suc f) n zero out lt small = ground arith
digits-length (suc f) n (suc k) out lt small =
    let p = power_suc (suc k) in
    elim (Bool-cases (ltb n 10)) [
      | inl one ↦ rw one (omega arith)
      | inr more ↦
          let big : 10 ≤ n = ground arith in
          let rest =
            digits-length f (n / 10) k ((b'0' + n % 10) ∷ out) (omega arith) (omega arith) in
          rw more (omega arith)
    ]

length-zeros : (k : ℕ) → length (zeros k) ≡ k
unfolding zeros
length-zeros zero = refl
length-zeros (suc k) = ap suc (length-zeros k)

value-zeros : (k : ℕ) (s : Text) → value 0 (zeros k ++ s) ≡ value 0 s
unfolding zeros value
value-zeros zero s = refl
value-zeros (suc k) s = value-zeros k s

trim-length : (s : Text) → length (trim_zeros s) ≤ length s
unfolding trim_zeros
trim-length [] = omega arith
trim-length (c ∷ s) = ground (arith, trim-length s)

zeros-IsDigit : (k : ℕ) (s : Text) → All IsDigit s → All IsDigit (zeros k ++ s)
unfolding zeros
zeros-IsDigit zero s h = h
zeros-IsDigit (suc k) s h = (((omega arith), (omega arith)), zeros-IsDigit k s h)

trim_zeros-IsDigit : (s : Text) → All IsDigit s → All IsDigit (trim_zeros s)
unfolding trim_zeros
trim_zeros-IsDigit [] h = tt
trim_zeros-IsDigit (c ∷ s) h = behind (trim_zeros s) (trim_zeros-IsDigit s h.1)
  where
    behind : (t : Text) → All IsDigit t → All IsDigit (cons_trimmed c t)
    behind (d ∷ t) k = (h.0, k)
    behind [] k = if_either (All IsDigit) (c == b'0') tt (h.0, tt)

-- Digits, and at least one.
abbrev AreDigits : Text → Type 0
AreDigits s = All IsDigit s × (1 ≤ length s)

or_zero-AreDigits : (s : Text) → All IsDigit s → AreDigits (or_zero s)
or_zero-AreDigits [] h = (((omega arith, omega arith), tt), omega arith)
or_zero-AreDigits (c ∷ s) h = (h, omega arith)

-- The fraction is some digits.
fraction-AreDigits : (n d : ℕ) → AreDigits (fraction n d)
unfolding fraction
fraction-AreDigits n d =
    let k = d - length (decimal n) in
    or_zero-AreDigits (trim_zeros (zeros k ++ decimal n))
      (trim_zeros-IsDigit (zeros k ++ decimal n) (zeros-IsDigit k (decimal n) (decimal-IsDigit n)))

less_one : (n : ℕ) → suc n - 1 ≡ n - 0
less_one n = omega arith

minus_zero : (n : ℕ) → n - 0 ≡ n
minus_zero n = omega arith

minus_suc : (n m : ℕ) → suc n - suc m ≡ n - m
minus_suc n m = omega arith

regroup : (a p : ℕ) → (a * 10 + 0) * p ≡ a * (10 * p)
regroup a p = grind arith

scale_up : (a d n : ℕ) → d ≡ 0 → (a * 10 + d) * 10 ^ (n - 0) ≡ a * 10 ^ (suc n - 0)
scale_up a d n e = rw (e, minus_zero n, minus_zero (suc n), power_suc n) (regroup a (10 ^ n))

-- Zeros at the end scale the number that is spelled.
value-trim_zeros :
    (a : ℕ) (s : Text)
    → value a s ≡ value a (trim_zeros s) * 10 ^ (length s - length (trim_zeros s))
unfolding trim_zeros value
value-trim_zeros a [] = omega arith
value-trim_zeros a (c ∷ s) =
    behind (trim_zeros s) (trim-length s) (value-trim_zeros (a * 10 + (c - b'0')) s)
  where
    behind :
        (t : Text)
        → length t ≤ length s
        → value (a * 10 + (c - b'0')) s ≡ value (a * 10 + (c - b'0')) t * 10 ^ (length s - length t)
        → value (a * 10 + (c - b'0')) s
          ≡ value a (cons_trimmed c t) * 10 ^ (length (c ∷ s) - length (cons_trimmed c t))
    behind (d ∷ t) fits ih = rw (minus_suc (length s) (suc (length t))) ih
    behind [] fits ih = elim (Bool-cases (c == b'0')) [
      | inr digit ↦ rw (digit, (less_one (length s))) ih
      | inl zero_digit ↦
          let digit : c ≡ b'0' = ground arith in
          rw zero_digit (ih ∙ scale_up a (c - b'0') (length s) (omega arith))
    ]

-- The digits behind the point, with zeros to the right of them, spell what is left of the amount.
module _ (n d : ℕ) (small : n < 10 ^ suc d) where
  padded : Text
  padded = zeros (suc d - length (decimal n)) ++ decimal n

  padded-length : length padded ≡ suc d
  unfolding padded decimal
  padded-length =
      let fits = digits-length (suc n) n d [] (omega arith) small in
      omega (
        arith,
        length-append (zeros (suc d - length (decimal n))) (decimal n),
        length-zeros (suc d - length (decimal n)),
      )

  padded-value : value 0 padded ≡ n
  unfolding padded
  padded-value = value-zeros (suc d - length (decimal n)) (decimal n) ∙ value-decimal n

  abbrev Spells : Text → Type 0
  Spells s = (length s ≤ suc d) × (value 0 s * 10 ^ (suc d - length s) ≡ n)

  nothing_left : (v p m : ℕ) → v ≡ 0 * p → v ≡ m → 0 * 10 ^ (suc d - 1) ≡ m
  nothing_left v p m h e = grind arith

  trimmed-Spells : Spells (or_zero (trim_zeros padded))
  unfolding value
  trimmed-Spells = nonempty (trim_zeros padded) (trim-length padded) (value-trim_zeros 0 padded)
    where
      nonempty :
          (t : Text)
          → length t ≤ length padded
          → value 0 padded ≡ value 0 t * 10 ^ (length padded - length t)
          → Spells (or_zero t)
      nonempty [] fits e = (omega arith, nothing_left (value 0 padded) _ n e padded-value)
      nonempty (c ∷ t) fits e =
          (omega (arith, padded-length), rw padded-length at (sym e ∙ padded-value))

  fraction-Spells : Spells (fraction n (suc d))
  unfolding fraction padded
  fraction-Spells = trimmed-Spells

length_pos : (s : Text) → s ≢ [] → 1 ≤ length s
length_pos [] h = absurd (h refl)
length_pos (c ∷ s) h = omega arith

some_digit : (n : ℕ) → 1 ≤ length (decimal n)
some_digit n = length_pos (decimal n) (decimal-ne-nil n)

power_pos : (k : ℕ) → 0 < 10 ^ k
power_pos zero = omega arith
power_pos (suc k) = omega (arith, power_pos k)

whole_and_rest : (a p : ℕ) → (a / p) * p + a % p ≡ a
whole_and_rest a p = rw (mul_comm (a / p) p) (div-add-mod a p)

-- What weiToEther, and formatUnits for one decimal or more, print is the amount, exactly: a sign for a
-- negative one, the digits of a whole number, a point, and at least one and at most as many digits as
-- there are decimals, which with the whole number spell the amount without its sign.
pub format_units_exact :
    (amount : ℤ) (d : ℕ)
    → (whole frac : Text) × (format_units amount (suc d) ≡ sign_of amount ++ whole ++ b'.' ∷ frac)
      × All IsDigit whole
      × All IsDigit frac
      × (1 ≤ length whole)
      × (1 ≤ length frac)
      × (length frac ≤ suc d)
      × (value 0 whole * 10 ^ suc d + value 0 frac * 10 ^ (suc d - length frac) ≡ abs amount)
unfolding format_units
format_units_exact amount d =
    let scale = 10 ^ suc d in
    let rest = mod-lt (abs amount) (power_pos (suc d)) in
    let (fits, spelled) = fraction-Spells (abs amount % scale) d rest in
    (
      decimal (abs amount / scale),
      fraction (abs amount % scale) (suc d),
      refl,
      decimal-IsDigit (abs amount / scale),
      (fraction-AreDigits (abs amount % scale) (suc d)).0,
      some_digit (abs amount / scale),
      (fraction-AreDigits (abs amount % scale) (suc d)).1,
      fits,
      rw (value-decimal (abs amount / scale), spelled) (whole_and_rest (abs amount) scale),
    )
