-- ===== src/Examples/Balances.antt =====
-- The theorems on evm-balance, on concrete readings.
use evm_tools.Base.{
  ℕ, ◌+◌, ◌^◌, ◌<◌, ◌≡◌, ◌≢◌, refl, subst, arith, if_either, to_lower, false, ◌==◌, Option, none,
  some, List, [], ◌∷◌, Text, codes, if◌then◌else◌, pos,
}
use evm_tools.Record.Envelope.{balance_sample, balance_change}
use evm_tools.Stream.State.{Errno, epipe, ebadf, other_errno}
use evm_tools.Balance.Apply.{Reading, Poller}
use evm_tools.Balance.Errors.{ReadError}
use evm_tools.Base.Exec.{done}
use evm_tools.Rpc.Hex.{digit_value}
use evm_tools.Stream.Decode.Hex.{Bytes, decode_hex}
use evm_tools.Balance.Abi.{pad_address, decode_address}
use evm_tools.Balance.Abi.Words.{decode_address-pad_address}
use evm_tools.Balance.Cadence.{
  ReadResult, got_readings, read_error, Round, Runner, goes_on, run_interval_cadence,
  run_block_cadence,
}
use evm_tools.Balance.Cadence.Paced.{IsPaced, run_block_cadence-IsPaced}
use evm_tools.Balance.Cadence.GoesOn.{IsConnected, AllLive, cadences-GoesOn}
use evm_tools.Examples.Data.{sample}

abbrev vault : Reading Text
vault = record {
  key = codes "vault";
  cur = pos 7;
  sample = sample balance_sample none [];
  change = λ prev. sample balance_change none [];
}

abbrev poller : Poller Text
poller = record { prior = (codes "vault", pos 5) ∷ []; attempts = 0; sent = [] }

-- An output that fails on its second record.
abbrev fails_once : ℕ → Option Errno
fails_once n = if n == 1 then some other_errno else none

abbrev slow : ReadError
slow = record { permanent = false; text = codes "timeout" }

-- A round whose read times out, and one that finds the vault's value, at two heads.
abbrev round : ℕ → List (ReadResult Text) → Round Text
round head reads = record {
  head = some head;
  reads = reads;
  ended_in_poll = false;
  ended_in_sleep = false;
  ended_in_wait = false;
}

abbrev rounds : List (Round Text)
rounds = round 20 (read_error slow ∷ []) ∷ round 21 (got_readings (vault ∷ []) ∷ []) ∷ []

abbrev runner : Runner Text
runner = record { poller = poller; failures = 0; last_sampled = some 10; heads = 10 ∷ [] }

never : (e : Errno) → e ≢ other_errno → (n : ℕ) → fails_once n ≢ some e
never e h n = if_either (λ o. o ≢ some e) (n == 1) (λ k. h (cc k)) (λ k. cc k)

connected : IsConnected fails_once
connected = record { no_epipe = never epipe (λ k. cc k); no_ebadf = never ebadf (λ k. cc k) }

live : AllLive rounds
live = (
  record { live_in_poll = refl; live_in_sleep = refl; live_in_wait = refl; transient = (refl, tt) },
  (
    record { live_in_poll = refl; live_in_sleep = refl; live_in_wait = refl; transient = (tt, tt) },
    tt,
  ),
)

at_height : (n h : ℕ) → some n ≡ some h → n + 5 < 2 ^ 64 → h + 5 < 2 ^ 64
at_height n h e bound = subst (λ x. x + 5 < 2 ^ 64) (cc e) bound

paced : IsPaced 5 runner
paced = record { spaced = tt; latest = refl; fits = λ h e. at_height 10 h e (omega arith) }

cadences-GoesOn_example :
    ((run_interval_cadence fails_once rounds runner).0 ≡ goes_on)
    × ((run_block_cadence fails_once 5 rounds runner).0 ≡ goes_on)
cadences-GoesOn_example = cadences-GoesOn fails_once connected 5 rounds runner live

run_block_cadence-IsPaced_example : IsPaced 5 (run_block_cadence fails_once 5 rounds runner).1
run_block_cadence-IsPaced_example =
    run_block_cadence-IsPaced 5 fails_once rounds runner
      ((λ h e. at_height 20 h e (omega arith)), ((λ h e. at_height 21 h e (omega arith)), tt)) paced

abbrev digits : Text
digits = codes "AbAbAbAbAbAbAbAbAbAbAbAbAbAbAbAbAbAbAbAb"

abbrev bytes : Bytes
bytes =
    171 ∷ 171 ∷ 171 ∷ 171 ∷ 171 ∷ 171 ∷ 171 ∷ 171 ∷ 171 ∷ 171 ∷ 171 ∷ 171 ∷ 171 ∷ 171 ∷ 171 ∷ 171
    ∷ 171 ∷ 171 ∷ 171 ∷ 171 ∷ []

digits-decoded : decode_hex digits ≡ some bytes
unfolding decode_hex digit_value
digits-decoded = refl

decode_address-pad_address_example :
    decode_address (pad_address (b'0' ∷ b'x' ∷ digits)) ≡ done (b'0' ∷ b'x' ∷ to_lower digits)
decode_address-pad_address_example = decode_address-pad_address digits bytes digits-decoded refl
