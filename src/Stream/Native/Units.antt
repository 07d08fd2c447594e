-- ===== src/Stream/Native/Units.antt =====
-- formatUnits and weiToEther of internal/stream/native.go.
pub mod Exact
use evm_tools.Base.{
  ℕ, zero, suc, ◌+◌, ◌-◌, ◌*◌, ◌/◌, ◌%◌, ◌^◌, Bool, true, false, ◌&&◌, ◌==◌, List, [], ◌∷◌, ◌++◌,
  Text, if◌then◌else◌, ℤ, pos, negsuc, format_int, abs, decimal, length,
}

-- strings.Repeat("0", n)
unfoldable pub zeros : ℕ → Text
zeros zero = []
zeros (suc n) = b'0' ∷ zeros n

abbrev pub cons_trimmed : ℕ → Text → Text
cons_trimmed c [] = if c == b'0' then [] else c ∷ []
cons_trimmed c (d ∷ ds) = c ∷ d ∷ ds

-- strings.TrimRight(s, "0")
unfoldable pub trim_zeros : Text → Text
trim_zeros [] = []
trim_zeros (c ∷ cs) = cons_trimmed c (trim_zeros cs)

abbrev pub or_zero : Text → Text
or_zero [] = b'0' ∷ []
or_zero (c ∷ cs) = c ∷ cs

-- The digits behind the point.
unfoldable pub fraction : ℕ → ℕ → Text
fraction n decimals =
    let frac = decimal n in or_zero (trim_zeros (zeros (decimals - length frac) ++ frac))

abbrev pub sign_of : ℤ → Text
sign_of (pos n) = []
sign_of (negsuc n) = b'-' ∷ []

-- formatUnits, for a number of decimals that is not negative.
unfoldable pub format_units : ℤ → ℕ → Text
format_units amount zero = format_int amount
format_units amount (suc d) =
    let scale = 10 ^ suc d in
    sign_of amount ++ decimal (abs amount / scale) ++ b'.' ∷ fraction (abs amount % scale) (suc d)

-- weiToEther
abbrev pub wei_to_ether : ℤ → Text
wei_to_ether v = format_units v 18
