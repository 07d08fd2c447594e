-- ===== src/Base/Bytes.antt =====
-- Text as its bytes: equality, ASCII case folding (strings.ToLower, strings.EqualFold on the
-- hexadecimal and configured names of the program), and decimal printing (strconv.FormatUint).
use Prim.Native.Nat.{ℕ, zero, suc, ◌+◌, ◌-◌, ◌*◌, ◌/◌, ◌%◌, ◌≤◌, ◌<◌}
use Prim.Native.Char.{code}
use Prim.Native.String.{String}
use mathlib.Core.Path.{◌≡◌, refl, ap}
use mathlib.Core.Logic.{◌≢◌}
use mathlib.Core.Bool.{Bool, true, false, ◌&&◌, ◌||◌}
use mathlib.Core.List.{List, [], ◌∷◌, map, reverse}
use mathlib.Core.Option.{Option, none, some}
use native.Mathlib.Omega.{arith}
use evm_tools.Base.Tests.{ltb, leb, ◌==◌, if◌then◌else◌}
use evm_tools.Base.Lists.{All}

abbrev pub Text : Type 0
Text = List ℕ

-- The code points of a literal: its bytes, if it is ASCII.
abbrev pub codes : String → Text
codes String.[] = []
codes (String.◌∷◌ c s) = code c ∷ codes s

unfoldable pub text_eq : Text → Text → Bool
text_eq [] [] = true
text_eq [] (d ∷ t) = false
text_eq (c ∷ s) [] = false
text_eq (c ∷ s) (d ∷ t) = (c == d) && text_eq s t

pub text_eq_refl : (s : Text) → text_eq s s ≡ true
unfolding text_eq
text_eq_refl [] = refl
text_eq_refl (c ∷ s) = ground (arith, text_eq_refl s)

pub text_eq_sound : (s t : Text) → text_eq s t ≡ true → s ≡ t
unfolding text_eq
text_eq_sound [] [] h = refl
text_eq_sound [] (d ∷ t) h = cc
text_eq_sound (c ∷ s) [] h = cc
text_eq_sound (c ∷ s) (d ∷ t) h = ground (arith, text_eq_sound s t)

unfoldable pub lower_byte : ℕ → ℕ
lower_byte c = if leb b'A' c && leb c b'Z' then c + 32 else c

unfoldable pub upper_byte : ℕ → ℕ
upper_byte c = if leb b'a' c && leb c b'z' then c - 32 else c

-- strings.ToUpper, of ASCII
unfoldable pub to_upper : Text → Text
unfolding upper_byte
to_upper s = map upper_byte s

abbrev pub onto : ℕ → Option (Text × Text) → Option (Text × Text)
onto c none = none
onto c (some (before, behind)) = some (c ∷ before, behind)

-- strings.IndexByte: what stands before and behind the first such byte.
unfoldable pub cut_at : ℕ → Text → Option (Text × Text)
cut_at b [] = none
cut_at b (c ∷ s) = let later = onto c (cut_at b s) in if c == b then some ([], s) else later

unfoldable pub to_lower : Text → Text
unfolding lower_byte
to_lower s = map lower_byte s

unfoldable pub equal_fold : Text → Text → Bool
unfolding to_lower text_eq
equal_fold s t = text_eq (to_lower s) (to_lower t)

unfoldable pub digits : ℕ → ℕ → Text → Text
digits zero n out = out
digits (suc f) n out =
    let rest = digits f (n / 10) ((b'0' + n % 10) ∷ out) in
    if ltb n 10 then (b'0' + n) ∷ out else rest

-- One digit needs one round, so a round for each number below is enough.
unfoldable pub decimal : ℕ → Text
unfolding digits
decimal n = digits (suc n) n []

abbrev pub IsDigit : ℕ → Type 0
IsDigit c = (b'0' ≤ c) × (c ≤ b'9')

-- The number that digits spell behind `n`.
unfoldable pub value : ℕ → Text → ℕ
value n [] = n
value n (c ∷ s) = value (n * 10 + (c - b'0')) s

value-digits : (f n : ℕ) (out : Text) → n < f → value 0 (digits f n out) ≡ value n out
unfolding value digits
value-digits zero n out h = absurd (omega arith)
value-digits (suc f) n out h = ground (arith, value-digits f (n / 10) ((b'0' + n % 10) ∷ out))

pub value-decimal : (n : ℕ) → value 0 (decimal n) ≡ n
unfolding decimal value
value-decimal n = value-digits (suc n) n [] (omega arith)

digits-IsDigit : (f n : ℕ) (out : Text) → All IsDigit out → All IsDigit (digits f n out)
unfolding digits
digits-IsDigit zero n out h = h
digits-IsDigit (suc f) n out h = ground (arith, digits-IsDigit f (n / 10) ((b'0' + n % 10) ∷ out))

pub decimal-IsDigit : (n : ℕ) → All IsDigit (decimal n)
unfolding decimal
decimal-IsDigit n = digits-IsDigit (suc n) n [] tt

pub decimal_injective : (a b : ℕ) → decimal a ≡ decimal b → a ≡ b
decimal_injective a b h = cc (value-decimal a, value-decimal b, ap (value 0) h)

digits-ne-nil : (f n : ℕ) (out : Text) → n < f → digits f n out ≢ []
unfolding digits
digits-ne-nil zero n out h = absurd (omega arith)
digits-ne-nil (suc f) n out h = ground (arith, digits-ne-nil f (n / 10) ((b'0' + n % 10) ∷ out))

pub decimal-ne-nil : (n : ℕ) → decimal n ≢ []
unfolding decimal
decimal-ne-nil n = digits-ne-nil (suc n) n [] (omega arith)

-- strings.HasPrefix and strings.Contains.
unfoldable pub has_prefix : Text → Text → Bool
has_prefix s [] = true
has_prefix [] (d ∷ t) = false
has_prefix (c ∷ s) (d ∷ t) = (c == d) && has_prefix s t

unfoldable pub contains : Text → Text → Bool
unfolding has_prefix
contains [] t = has_prefix [] t
contains (c ∷ s) t = has_prefix (c ∷ s) t || contains s t

-- Does `s` contain one of the texts?
unfoldable pub contains_any : Text → List Text → Bool
unfolding contains
contains_any s [] = false
contains_any s (t ∷ ts) = contains s t || contains_any s ts

-- strings.TrimPrefix; what is left of `s` behind the prefix, or all of it.
unfoldable pub after_prefix : Text → Text → Option Text
after_prefix s [] = some s
after_prefix [] (d ∷ t) = none
after_prefix (c ∷ s) (d ∷ t) = if c == d then after_prefix s t else none

unfoldable pub trim_prefix : Text → Text → Text
unfolding after_prefix
trim_prefix s t = elim (after_prefix s t) [ none ↦ s | some r ↦ r ]

-- strings.HasSuffix and strings.TrimSuffix.
unfoldable pub has_suffix : Text → Text → Bool
unfolding has_prefix
has_suffix s t = has_prefix (reverse s) (reverse t)

unfoldable pub trim_suffix : Text → Text → Text
unfolding trim_prefix
trim_suffix s t = reverse (trim_prefix (reverse s) (reverse t))
