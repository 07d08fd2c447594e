-- ===== src/Sink/Webhook/Condition/Amounts.antt =====
-- The field condition of the webhook sink on amounts (internal/webhooksink/filter.go).
use evm_tools.Base.{
  ℕ, ◌^◌, ◌<◌, ◌≡◌, refl, ap, ◌∙◌, arith, Bool, false, Option, some, List, [], ◌∷◌, Text, decimal,
  decimal-IsDigit, decimal-ne-nil, IsDigit, All, if_cases, text_eq, text_eq_sound, ltb, ◌==◌, sym,
}
use evm_tools.Stream.Run.Start.{is_space, trim_left, cons_unspaced, trim_right, trim_space}
use evm_tools.Sink.Webhook.Condition.{
  Numbers, object, Value, text, FieldCondition, FieldOp, op_eq, op_gt, op_lt, other_op, field_of,
  scalar_string, parse_number, compare_by, both, matches_value, matches_payload,
}

trim_left_digits : (s : Text) → All IsDigit s → trim_left s ≡ s
unfolding trim_left
trim_left_digits [] h = refl
trim_left_digits (c ∷ s) (d, h) =
    if_cases (λ r. r ≡ c ∷ s) (is_space c) (λ e. absurd (ground arith)) (λ _. refl)

keep_digit : (c : ℕ) (s : Text) → IsDigit c → cons_unspaced c s ≡ c ∷ s
keep_digit c [] d = if_cases (λ r. r ≡ c ∷ []) (is_space c) (λ e. absurd (ground arith)) (λ _. refl)
keep_digit c (x ∷ s) d = refl

trim_right_digits : (s : Text) → All IsDigit s → trim_right s ≡ s
unfolding trim_right
trim_right_digits [] h = refl
trim_right_digits (c ∷ s) (d, h) =
    ap (λ r. cons_unspaced c r) (trim_right_digits s h) ∙ keep_digit c s d

pub trim_space-decimal : (n : ℕ) → trim_space (decimal n) ≡ decimal n
unfolding trim_space
trim_space-decimal n =
    let d = decimal-IsDigit n in
    ap trim_right (trim_left_digits (decimal n) d) ∙ trim_right_digits (decimal n) d

-- Numbers of up to 256 bits are exact as 256-bit floats, and are ordered as they are.
pub record IsExactOn {F64 F : Type 0} (numbers : Numbers F64 F) (float : ℕ → F) : Type 0 where
  pub parses : (n : ℕ) → n < 2 ^ 256 → numbers.parse (decimal n) ≡ some (float n)
  pub ordered : (m n : ℕ) → m < 2 ^ 256 → n < 2 ^ 256 → numbers.less (float m) (float n) ≡ ltb m n
  pub equated : (m n : ℕ) → m < 2 ^ 256 → n < 2 ^ 256 → numbers.same (float m) (float n) ≡ (m == n)

-- What the operators say of a field's amount and the wanted one.
abbrev pub compared : FieldOp → ℕ → ℕ → Bool
compared op_eq got want = got == want
compared op_gt got want = ltb want got
compared op_lt got want = ltb got want
compared other_op got want = false

module _ {F64 F : Type 0} (numbers : Numbers F64 F) (float : ℕ → F)
    (exact : IsExactOn numbers float) where
  parse_amount : (n : ℕ) → n < 2 ^ 256 → parse_number numbers (decimal n) ≡ some (float n)
  unfolding parse_number
  parse_amount n h =
      if_cases (λ r. r ≡ some (float n)) (text_eq (trim_space (decimal n)) [])
        (λ e. absurd (decimal-ne-nil n (sym (trim_space-decimal n) ∙ text_eq_sound _ _ e)))
        (λ _. ap numbers.parse (trim_space-decimal n) ∙ exact.parses n h)

  both-some :
      (test : F → F → Bool) (otherwise : Bool) (a b : Option F) (x y : F)
      → a ≡ some x
      → b ≡ some y
      → both numbers test otherwise a b ≡ test x y
  both-some test otherwise a b x y p q = rw (p, q) refl

  compare_amounts :
      (op : FieldOp) (got want : ℕ)
      → got < 2 ^ 256
      → want < 2 ^ 256
      → compare_by numbers op (decimal got) (decimal want) ≡ compared op got want
  unfolding compare_by
  compare_amounts op_eq got want g w =
      both-some numbers.same _ _ _ (float got) (float want) (parse_amount got g)
        (parse_amount want w)
      ∙ exact.equated got want g w
  compare_amounts op_gt got want g w =
      both-some (λ a b. numbers.less b a) false _ _ (float got) (float want) (parse_amount got g)
        (parse_amount want w)
      ∙ exact.ordered want got w g
  compare_amounts op_lt got want g w =
      both-some numbers.less false _ _ (float got) (float want) (parse_amount got g)
        (parse_amount want w)
      ∙ exact.ordered got want g w
  compare_amounts other_op got want g w = refl

  -- On an amount of up to 256 bits, printed in decimal as the records print it, the condition holds
  -- exactly if the amount is equal to, greater or less than the wanted one, as numbers and not as
  -- texts or rounded, provided that 256-bit floats are exact on such numbers.
  pub matches_payload-compared :
      (c : FieldCondition) (fields : List (Text × Value F64)) (got want : ℕ)
      → field_of numbers fields c.field ≡ some (text (decimal got))
      → c.value ≡ decimal want
      → got < 2 ^ 256
      → want < 2 ^ 256
      → matches_payload numbers c (object fields) ≡ compared c.op got want
  unfolding matches_payload scalar_string
  matches_payload-compared c fields got want found wanted g w =
      ap (λ v. matches_value numbers c v) found
      ∙ ap (λ v. compare_by numbers c.op (decimal got) v) wanted
      ∙ compare_amounts c.op got want g w
