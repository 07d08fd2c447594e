-- ===== src/Examples/Records.antt =====
-- The theorems on backoffs, keys, quantities, ether values and the decoder, on concrete inputs.
use evm_tools.Base.{
  ℕ, ◌+◌, ◌-◌, ◌*◌, ◌/◌, ◌^◌, ◌≤◌, ◌<◌, ◌≡◌, ◌↔◌, ◌⊎◌, inl, refl, arith, none, some, List, [], ◌∷◌,
  ◌++◌, Text, codes, length, take, drop, All, pos, value, IsDigit, count_from, text_eq,
  if◌then◌else◌, false,
}
use evm_tools.Base.Exec.{panicked}
use evm_tools.Backoff.{duration, backoff_for}
use evm_tools.Backoff.Bounds.{backoff_for_bounds}
use evm_tools.Record.Envelope.{event, native_transfer, internal_transfer, Envelope}
use evm_tools.Record.Key.{dedup_key}
use evm_tools.Record.Key.Identity.{IsKeyable, SameIdentity, dedup_key_iff}
use evm_tools.Record.Key.Collision.{event_internal_iff}
use evm_tools.Record.Reader.{Reader, is_blank, trim_start, trim_end, is_space}
use evm_tools.Rpc.Hex.{block_tag, hex_uint, hex_big}
use evm_tools.Rpc.Hex.RoundTrip.{hex_uint-block_tag}
use evm_tools.Stream.Native.Units.{format_units, sign_of}
use evm_tools.Stream.Native.Units.Exact.{format_units_exact}
use evm_tools.Stream.Decode.Hex.{be_value}
use evm_tools.Stream.Decode.Data.{decode_dynamic}
use evm_tools.Stream.Decode.Panics.{decode_dynamic-panics_iff}
use evm_tools.Examples.Data.{sample}

abbrev smallest : ℕ → ℕ
smallest k = 0

backoff_for_bounds_example :
    (duration 3 500 30000 / 2 ≤ backoff_for smallest 3 500 30000)
    × (backoff_for smallest 3 500 30000 ≤ duration 3 500 30000)
    × (duration 3 500 30000 ≤ 30000)
backoff_for_bounds_example =
    backoff_for_bounds smallest 3 500 30000 (λ k h. h) (ground arith) (ground arith) (ground arith)
      (ground arith)

abbrev event_3 : Envelope Text
event_3 = sample event (some 3) []

abbrev call_3 : Envelope Text
call_3 = sample internal_transfer none (pos 3 ∷ [])

abbrev transfer : Envelope Text
transfer = sample native_transfer none []

event_3-IsKeyable : IsKeyable event_3
event_3-IsKeyable = record {
  type_lacks = ground arith;
  name_lacks = ground arith;
  tx_hash_lacks = ground arith;
  block_hash_lacks = ground arith;
  emitted_at_lacks = ground arith;
  path_natural = tt;
}

call_3-IsKeyable : IsKeyable call_3
call_3-IsKeyable = record {
  type_lacks = ground arith;
  name_lacks = ground arith;
  tx_hash_lacks = ground arith;
  block_hash_lacks = ground arith;
  emitted_at_lacks = ground arith;
  path_natural = (tt, tt);
}

transfer-IsKeyable : IsKeyable transfer
transfer-IsKeyable = record {
  type_lacks = ground arith;
  name_lacks = ground arith;
  tx_hash_lacks = ground arith;
  block_hash_lacks = ground arith;
  emitted_at_lacks = ground arith;
  path_natural = tt;
}

dedup_key_iff_example : (dedup_key event_3 ≡ dedup_key event_3) ↔ SameIdentity event event_3 event_3
dedup_key_iff_example = dedup_key_iff event_3 event_3 event_3-IsKeyable event_3-IsKeyable refl

event_internal_iff_example : (dedup_key event_3 ≡ dedup_key call_3) ↔ (
    (event_3.chain_id ≡ call_3.chain_id)
    × (event_3.tx_hash ≡ call_3.tx_hash)
    × (call_3.trace_address ≡ pos 3 ∷ []))
event_internal_iff_example =
    event_internal_iff event_3 call_3 3 event_3-IsKeyable call_3-IsKeyable refl refl refl

hex_uint-block_tag_example :
    (hex_uint (block_tag 26) ≡ some 26) × (hex_big (block_tag 26) ≡ some (pos 26))
hex_uint-block_tag_example = hex_uint-block_tag 26 (ground arith)

format_units_exact_example :
    (whole frac : Text) × (format_units (pos 1500) 3 ≡ sign_of (pos 1500) ++ whole ++ b'.' ∷ frac)
    × All IsDigit whole
    × All IsDigit frac
    × (1 ≤ length whole)
    × (1 ≤ length frac)
    × (length frac ≤ 3)
    × (value 0 whole * 10 ^ 3 + value 0 frac * 10 ^ (3 - length frac) ≡ 1500)
format_units_exact_example = format_units_exact (pos 1500) 2

-- A word whose value is below 2 ^ 253.
abbrev word : List ℕ
word = count_from 0 32

decode_dynamic-panics_iff_example :
    (decode_dynamic 1000 (codes "bytes") word (2 ^ 63) ≡ panicked) ↔ (
      (2 ^ 63 ≤ 2 ^ 63 + 32)
      ⊎ ((2 ^ 63 + 32 ≤ length word)
          × (be_value 0 (take 32 (drop (2 ^ 63) word)) < 2 ^ 64)
          × (2 ^ 63 ≤ 2 ^ 63 + 32 + be_value 0 (take 32 (drop (2 ^ 63) word)))))
decode_dynamic-panics_iff_example =
    decode_dynamic-panics_iff 1000 (codes "bytes") word (2 ^ 63) (inl refl) (ground arith)
      (ground arith) (ground arith)

-- A decoder of two lines: one record, with a brace too many on the second.
abbrev two_lines : Reader Text
two_lines = record {
  decode = λ line.
      if text_eq line (codes "a")
      then some (event_3, [])
      else if text_eq line (codes "a}")
      then some (event_3, codes "}")
      else none;
  quarantine = none;
  scan_error = none;
}

brace_not_blank : is_blank (codes "a}") ≡ false
unfolding is_blank trim_start trim_end is_space
brace_not_blank = refl

brace_behind : two_lines.decode (codes "a}") ≡ some (event_3, b'}' ∷ [])
unfolding text_eq
brace_behind = refl
