-- ===== src/Examples/Hooks.antt =====
-- The parts of the webhook sink, on concrete inputs.
use evm_tools.Base.{
  ℕ, ◌≡◌, refl, arith, some, [], ◌∷◌, codes, decimal, value, value-decimal, ap, ltb, ◌==◌, text_eq,
}
use evm_tools.Sink.Webhook.Condition.{
  Numbers, field_of, FieldCondition, op_gt, text, object, matches_payload,
}
use evm_tools.Sink.Webhook.Condition.Amounts.{IsExactOn, compared, matches_payload-compared}

-- Numbers that are natural ones.
abbrev naturals : Numbers ℕ ℕ
naturals = record {
  render = decimal;
  parse = λ t. some (value 0 t);
  less = ltb;
  same = λ m n. m == n;
}

naturals-IsExactOn : IsExactOn naturals (λ n. n)
naturals-IsExactOn = record {
  parses = λ n h. ap some (value-decimal n);
  ordered = λ m n h k. refl;
  equated = λ m n h k. refl;
}

abbrev above_two : FieldCondition
above_two = record { field = codes "value"; op = op_gt; value = decimal 2 }

at_value :
    field_of naturals ((codes "value", text (decimal 10)) ∷ []) (codes "value")
    ≡ some (text (decimal 10))
unfolding field_of text_eq
at_value = refl

matches_payload-compared_example :
    matches_payload naturals above_two (object ((codes "value", text (decimal 10)) ∷ []))
    ≡ compared op_gt 10 2
matches_payload-compared_example =
    matches_payload-compared naturals (λ n. n) naturals-IsExactOn above_two
      ((codes "value", text (decimal 10)) ∷ []) 10 2 at_value refl (omega arith) (omega arith)
