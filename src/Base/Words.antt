-- ===== src/Base/Words.antt =====
-- Go's int64, int and uint64, kept as the residue modulo 2 ^ 64 that stands for them.
use Prim.Native.Nat.{ℕ, ◌+◌, ◌*◌, ◌%◌, ◌^◌, ◌<◌}
use mathlib.Core.Path.{◌≡◌}
use mathlib.Core.Bool.{Bool}
use native.Mathlib.Omega.{arith}
use evm_tools.Base.Tests.{ltb}

-- `a < b` of two int64: flipping the sign bit makes the order unsigned.
abbrev pub signed_lt : ℕ → ℕ → Bool
signed_lt a b = ltb ((a + 2 ^ 63) % 2 ^ 64) ((b + 2 ^ 63) % 2 ^ 64)

abbrev pub add64 : ℕ → ℕ → ℕ
add64 a b = (a + b) % 2 ^ 64

abbrev pub mul64 : ℕ → ℕ → ℕ
mul64 a b = (a * b) % 2 ^ 64

-- Two int64 that are not negative compare as their numbers.
pub signed_lt-eq-ltb : (a b : ℕ) → a < 2 ^ 63 → b < 2 ^ 63 → signed_lt a b ≡ ltb a b
signed_lt-eq-ltb a b ha hb = ground arith
