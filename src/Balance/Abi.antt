-- ===== src/Balance/Abi.antt =====
-- internal/balance/abi.go: the words of calldata, and what the results of calls are read as. The
-- selectors are parameters.
pub mod Words
use evm_tools.Base.{
  ℕ, ◌-◌, ◌+◌, Bool, Option, none, some, List, [], ◌∷◌, ◌++◌, Text, length, drop, ltb, to_lower,
  if◌then◌else◌, zero, suc,
}
use evm_tools.Base.Exec.{Outcome, done, failed, panicked, ◌>=>◌}
use evm_tools.Rpc.Hex.{trim_hex_prefix}
use evm_tools.Stream.Decode.Hex.{Bytes, encode_hex, decode_hex, be_value}

-- Why a result is no value: it is not hexadecimal; it is empty, which is permanent; it is out of range.
pub data ResultError : Type 0 where
  undecodable_result empty_result out_of_range : ResultError

abbrev pub Result : Type 0 → Type 0
Result A = Outcome ResultError A

-- The last `n` of more.
unfoldable pub low : {A : Type 0} → ℕ → List A → List A
low n xs = if ltb n (length xs) then drop (length xs - n) xs else xs

-- strings.Repeat
unfoldable pub repeat : ℕ → ℕ → Text
repeat c zero = []
repeat c (suc n) = c ∷ repeat c n

unfoldable pub pad_word : Text → Text
unfolding repeat
pad_word s = repeat b'0' (64 - length s) ++ s

-- padAddress
unfoldable pub pad_address : Text → Text
unfolding pad_word low
pad_address addr = pad_word (low 40 (to_lower (trim_hex_prefix addr)))

-- callDataBalanceOf
unfoldable pub call_data_balance_of : Text → Text → Text
unfolding pad_address
call_data_balance_of selector addr = selector ++ pad_address addr

-- hexBytes, and the test of the decoders for an empty result.
abbrev pub bytes_of : Option Bytes → Result Bytes
bytes_of none = failed undecodable_result
bytes_of (some []) = failed empty_result
bytes_of (some (b ∷ bs)) = done (b ∷ bs)

unfoldable pub result_word : Text → Result Bytes
unfolding low
result_word hex = bytes_of (decode_hex (trim_hex_prefix hex)) >=> λ bs. done (low 32 bs)

-- decodeAddress
unfoldable pub decode_address : Text → Result Text
unfolding result_word
decode_address hex = result_word hex >=> λ word. done (b'0' ∷ b'x' ∷ encode_hex (low 20 word))

-- decodeUint256
unfoldable pub decode_uint256 : Text → Result ℕ
unfolding result_word
decode_uint256 hex = result_word hex >=> λ word. done (be_value 0 word)

-- decodeUint8
unfoldable pub decode_uint8 : Text → Result ℕ
unfolding decode_uint256
decode_uint8 hex = decode_uint256 hex >=> λ v. if ltb v 256 then done v else failed out_of_range
