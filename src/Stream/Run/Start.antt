-- ===== src/Stream/Run/Start.antt =====
-- resolveStart, parseFromBlock and ValidateFromBlock of internal/stream/stream.go.
use evm_tools.Base.{
  ◌≡◌, ◌<◌, ◌⊎◌, inl, inr, ◌↔◌, refl, arith, Bool-cases, Option-cases, ℕ, ◌+◌, ◌*◌, ◌-◌, ◌%◌, ◌^◌,
  Bool, true, false, not, ◌&&◌, ◌||◌, ◌==◌, Option, none, some, [], ◌∷◌, Text, codes, ltb, leb,
  if◌then◌else◌, text_eq, equal_fold, ℤ, pos, negsuc, neg,
}
use evm_tools.Rpc.Errors.{RpcError}
use evm_tools.Rpc.Types.{Answer, got, refused}
use evm_tools.Stream.Run.{Cursor}

-- The white space of ASCII, as strings.TrimSpace takes it off.
abbrev pub is_space : ℕ → Bool
is_space c = (c == 32) || (leb 9 c && leb c 13)

unfoldable pub trim_left : Text → Text
trim_left [] = []
trim_left (c ∷ s) = let rest = trim_left s in if is_space c then rest else c ∷ s

abbrev pub cons_unspaced : ℕ → Text → Text
cons_unspaced c [] = if is_space c then [] else c ∷ []
cons_unspaced c (d ∷ s) = c ∷ d ∷ s

unfoldable pub trim_right : Text → Text
trim_right [] = []
trim_right (c ∷ s) = cons_unspaced c (trim_right s)

-- strings.TrimSpace
unfoldable pub trim_space : Text → Text
trim_space s = trim_right (trim_left s)

-- The decimal digits behind n.
unfoldable pub scan_digits : Text → ℕ → Option ℕ
scan_digits [] n = some n
scan_digits (c ∷ s) n =
    let rest = scan_digits s (n * 10 + (c - b'0')) in
    if leb b'0' c && leb c b'9' then rest else none

abbrev digits_of : Text → Option ℕ
digits_of [] = none
digits_of (c ∷ s) = scan_digits (c ∷ s) 0

abbrev negated : Option ℕ → Option ℤ
negated none = none
negated (some n) = some (neg n)

abbrev positive : Option ℕ → Option ℤ
positive none = none
positive (some n) = some (pos n)

-- big.Int.SetString(s, 10): an optional sign, then at least one digit.
unfoldable pub set_decimal : Text → Option ℤ
set_decimal [] = none
set_decimal (c ∷ s) =
    if c == b'-'
    then negated (digits_of s)
    else if c == b'+'
    then positive (digits_of s)
    else positive (digits_of (c ∷ s))

abbrev block_of : Option ℤ → Option ℕ
block_of none = none
block_of (some (negsuc n)) = none
block_of (some (pos n)) = if ltb n (2 ^ 64) then some n else none

-- parseFromBlock
unfoldable pub parse_from_block : Text → Option ℕ
parse_from_block fb = block_of (set_decimal (trim_space fb))

abbrev pub is_latest : Text → Bool
is_latest fb = text_eq fb [] || equal_fold fb (codes "latest")

abbrev pub is_some : Option ℕ → Bool
is_some none = false
is_some (some n) = true

-- ValidateFromBlock: whether there is no error.
unfoldable pub validate_from_block : Text → Bool
validate_from_block from_block =
    let fb = trim_space from_block in if is_latest fb then true else is_some (parse_from_block fb)

-- What Checkpoint.Load gives: an error, no file, or a cursor.
pub data Loaded : Type 0 where
  load_failed no_cursor : Loaded
  cursor : Cursor → Loaded

-- The errors of resolveStart.
pub data StartError : Type 0 where
  no_head : RpcError → StartError
  bad_from_block : StartError

pub data Started : Type 0 where
  start_at : ℕ → Started
  start_failed : StartError → Started

abbrev int_eq : ℤ → ℤ → Bool
int_eq (pos m) (pos n) = m == n
int_eq (negsuc m) (negsuc n) = m == n
int_eq x y = false

-- A cursor with no chain belongs to any.
unfoldable pub is_foreign : Cursor → ℤ → Bool
is_foreign c chain_id = not (int_eq c.chain_id (pos 0)) && not (int_eq c.chain_id chain_id)

abbrev from_head : Answer ℕ → Started
from_head (got head) = start_at ((head + 1) % 2 ^ 64)
from_head (refused e) = start_failed (no_head e)

abbrev from_number : Option ℕ → Started
from_number none = start_failed bad_from_block
from_number (some n) = start_at n

unfoldable pub from_config : Text → Answer ℕ → Started
from_config from_block head =
    let fb = trim_space from_block in
    if is_latest fb then from_head head else from_number (parse_from_block fb)

-- resolveStart: the checkpoint is none where the options have none.
unfoldable pub resolve_start : ℤ → Option Loaded → Text → Answer ℕ → Started
resolve_start chain_id none from_block head = from_config from_block head
resolve_start chain_id (some load_failed) from_block head = from_config from_block head
resolve_start chain_id (some no_cursor) from_block head = from_config from_block head
resolve_start chain_id (some (cursor c)) from_block head =
    if is_foreign c chain_id
    then from_config from_block head
    else start_at ((c.last_block + 1) % 2 ^ 64)

-- The offline check of from_block and the start of a run accept the same texts: once the head is
-- known, a run without a cursor starts somewhere exactly if `validate` reports no error.
pub validate_from_block_iff :
    (chain_id : ℤ) (from_block : Text) (head : ℕ)
    → (validate_from_block from_block ≡ true)
      ↔ ((n : ℕ) × (resolve_start chain_id none from_block (got head) ≡ start_at n))
unfolding validate_from_block resolve_start from_config
validate_from_block_iff chain_id from_block head =
    elim (Bool-cases (is_latest (trim_space from_block))) [
      | inl latest ↦ rw latest (λ _. ((head + 1) % 2 ^ 64, refl), λ _. refl)
      | inr other ↦ elim (Option-cases (parse_from_block (trim_space from_block))) [
        | inl bad ↦ rw (other, bad) (λ h. absurd (cc h), λ h. absurd (cc h.1))
        | inr (n, good) ↦ rw (other, good) (λ _. (n, refl), λ _. refl)
      ]
    ]

int_eq_refl : (z : ℤ) → int_eq z z ≡ true
int_eq_refl (pos n) = ground arith
int_eq_refl (negsuc n) = ground arith

own_foreign :
    (chain_id : ℤ) (c : Cursor)
    → (c.chain_id ≡ chain_id) ⊎ (c.chain_id ≡ pos 0)
    → is_foreign c chain_id ≡ false
unfolding is_foreign
own_foreign chain_id c (inl own) = rw own (and_false (not (int_eq chain_id (pos 0))) chain_id)
  where
    and_false : (b : Bool) (z : ℤ) → (b && not (int_eq z z)) ≡ false
    and_false true z = rw (int_eq_refl z) refl
    and_false false z = refl
own_foreign chain_id c (inr any) = rw any refl

-- A run with a cursor of its own chain, or of none, starts at the block after the cursor's, whatever
-- from_block and the head are.
pub resolve_start-resumes :
    (chain_id : ℤ) (c : Cursor) (from_block : Text) (head : Answer ℕ)
    → (c.chain_id ≡ chain_id) ⊎ (c.chain_id ≡ pos 0)
    → c.last_block + 1 < 2 ^ 64
    → resolve_start chain_id (some (cursor c)) from_block head ≡ start_at (c.last_block + 1)
unfolding resolve_start
resolve_start-resumes chain_id c from_block head own small =
    let exact : (c.last_block + 1) % 2 ^ 64 ≡ c.last_block + 1 = omega arith in
    rw (own_foreign chain_id c own, exact) refl
