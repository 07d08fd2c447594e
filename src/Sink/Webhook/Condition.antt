-- ===== src/Sink/Webhook/Condition.antt =====
-- internal/webhooksink/filter.go: the allow- and deny-lists and the condition on one field.
pub mod Amounts
use evm_tools.Base.{
  ℕ, ◌≡◌, Bool, true, false, not, ◌&&◌, ◌||◌, Option, none, some, List, [], ◌∷◌, Text, codes,
  if◌then◌else◌, text_eq,
}
use evm_tools.Base.Exec.{Outcome, done, failed, panicked}
use evm_tools.Record.Envelope.{Envelope, type_name}
use evm_tools.Stream.Run.Start.{trim_space}
use evm_tools.Sink.Filter.{FilterOptions, allow}

-- A decoded JSON value; a number is a float64.
pub data Value (F64 : Type 0) : Type 0 where
  text : Text → Value F64
  boolean : Bool → Value F64
  number : F64 → Value F64
  null composite : Value F64

pub data Payload (F64 : Type 0) : Type 0 where
  object : List (Text × Value F64) → Payload F64
  not_object : Payload F64

-- What math/big does: a float64 in decimal, a decimal text as a 256-bit float, and their order.
pub record Numbers (F64 F : Type 0) : Type 0 where
  pub render : F64 → Text
  pub parse : Text → Option F
  pub less : F → F → Bool
  pub same : F → F → Bool

-- FieldOp; `other_op` is none of the constants.
pub data FieldOp : Type 0 where
  op_eq op_gt op_lt other_op : FieldOp

pub record FieldCondition : Type 0 where
  pub field : Text
  pub op : FieldOp
  pub value : Text

pub record WebhookFilter : Type 0 where
  pub lists : FilterOptions
  pub condition : Option FieldCondition

abbrev pub checked_op : FieldOp → Bool
checked_op other_op = false
checked_op op = true

unfoldable pub check_condition : FieldCondition → Outcome Text FieldCondition
check_condition c =
    if text_eq (trim_space c.field) []
    then failed (codes "webhooksink: filter field condition requires a field name")
    else if checked_op c.op
    then done c
    else failed (codes "webhooksink: unsupported field condition op")

-- NewFilter
unfoldable pub new_filter : WebhookFilter → Outcome Text WebhookFilter
unfolding check_condition
new_filter f = elim f.condition [
  | none ↦ done f
  | some c ↦ elim (check_condition c) [
    | done c' ↦ done (record f { condition = some c' })
    | failed e ↦ failed e
    | panicked ↦ panicked
  ]
]

module _ {F64 F : Type 0} (numbers : Numbers F64 F) where
  unfoldable pub field_of : List (Text × Value F64) → Text → Option (Value F64)
  field_of [] name = none
  field_of ((n, v) ∷ fields) name =
      let rest = field_of fields name in if text_eq n name then some v else rest

  -- scalarString
  unfoldable pub scalar_string : Value F64 → Text
  scalar_string (text t) = t
  scalar_string (boolean true) = codes "true"
  scalar_string (boolean false) = codes "false"
  scalar_string (number x) = numbers.render x
  scalar_string null = []
  scalar_string composite = []

  -- parseNumber
  unfoldable pub parse_number : Text → Option F
  parse_number s = let t = trim_space s in if text_eq t [] then none else numbers.parse t

  abbrev pub both : (F → F → Bool) → Bool → Option F → Option F → Bool
  both test otherwise (some a) (some b) = test a b
  both test otherwise (some a) none = otherwise
  both test otherwise none b = otherwise

  unfoldable pub compare_by : FieldOp → Text → Text → Bool
  unfolding parse_number
  compare_by op_eq got want =
      both numbers.same (text_eq got want) (parse_number got) (parse_number want)
  compare_by op_gt got want =
      both (λ a b. numbers.less b a) false (parse_number got) (parse_number want)
  compare_by op_lt got want = both numbers.less false (parse_number got) (parse_number want)
  compare_by other_op got want = false

  abbrev pub matches_value : FieldCondition → Option (Value F64) → Bool
  matches_value c none = false
  matches_value c (some raw) = compare_by c.op (scalar_string raw) c.value

  -- matches
  unfoldable pub matches_payload : FieldCondition → Payload F64 → Bool
  unfolding field_of
  matches_payload c not_object = false
  matches_payload c (object fields) = matches_value c (field_of fields c.field)

  abbrev pub meets : Option FieldCondition → Payload F64 → Bool
  meets none payload = true
  meets (some c) payload = matches_payload c payload

  -- Allow
  unfoldable pub allow_webhook : WebhookFilter → Envelope (Payload F64) → Bool
  allow_webhook f env = if allow f.lists env then meets f.condition env.payload else false
