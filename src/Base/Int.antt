-- ===== src/Base/Int.antt =====
-- Signed integers: a Go int or int64 that is printed, and big.Int.
use Prim.Native.Nat.{ℕ, zero, suc, ◌+◌}
use mathlib.Core.List.{◌∷◌}
use evm_tools.Base.Bytes.{Text, decimal}

-- An int64 or an int; `negsuc n` is -(n + 1).
pub data ℤ : Type 0 where
  pos : ℕ → ℤ
  negsuc : ℕ → ℤ

-- strconv.FormatInt, strconv.Itoa and big.Int.String.
unfoldable pub format_int : ℤ → Text
format_int (pos n) = decimal n
format_int (negsuc n) = b'-' ∷ decimal (n + 1)

abbrev pub neg : ℕ → ℤ
neg zero = pos zero
neg (suc n) = negsuc n

-- big.Int.Sign() > 0 and the absolute value.
abbrev pub abs : ℤ → ℕ
abs (pos n) = n
abs (negsuc n) = n + 1
