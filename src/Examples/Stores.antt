-- ===== src/Examples/Stores.antt =====
-- The Redis sink and the table names of the Postgres sink, on concrete inputs.
use evm_tools.Base.{
  cut_at, All, ◌⊎◌, ◌++◌, ◌≡◌, refl, arith, Bool, true, false, List, [], ◌∷◌, Text, codes, text_eq,
  text_eq_refl, ◌||◌,
}
use evm_tools.Sink.Loop.{Input}
use evm_tools.Sink.Loop.Wanted.{messages, IsWhole}
use evm_tools.Sink.Redis
use evm_tools.Sink.Redis.{
  Commands, server_error, answered, ClientConfig, put_entry, to_entry, run_redis,
}
use evm_tools.Sink.Redis.Entries.{IsRedis}
use evm_tools.Sink.Redis.Once.{IsAppended, run_redis_once}
use evm_tools.Examples.SinkData.{options, world, twice}
use evm_tools.Sink.Postgres.Tables.{
  is_identifier, all_word, is_word_byte, is_letter, quote_ident, quoted, IsWord, quote_ident-IsSafe,
  validate_table_name,
}

-- A server: the keys that are set, and the entries of its stream.
abbrev Server : Type 0
Server = List Text × List Text

abbrev has_key : Text → List Text → Bool
has_key key [] = false
has_key key (k ∷ keys) = text_eq k key || has_key key keys

abbrev commands : Commands Server
commands = record {
  exists = λ key s. has_key key s.0;
  xadd = λ stream max_len field value s. (s.0, s.1 ++ value ∷ []);
  set = λ key ttl s. (key ∷ s.0, s.1);
}

commands-IsRedis : IsRedis commands (codes "records") (λ s. s.1)
commands-IsRedis = record {
  entries-xadd = λ field line s. refl;
  entries-set = λ key ttl s ne. refl;
  exists-set = λ key ttl s. ground (arith, text_eq_refl key);
  exists-set_ne = λ key other ttl s ne. ground (arith, ne);
  exists-xadd = λ field line key s ne. refl;
}

other_key : (key : Text) → text_eq (codes "evmtools:dedup:" ++ key) (codes "records") ≡ false
unfolding text_eq
other_key key = refl

abbrev config : ClientConfig
config = record {
  stream = codes "records";
  field = codes "data";
  max_len = 0;
  dedup = true;
  dedup_ttl = 0;
  dedup_prefix = codes "evmtools:dedup:";
}

abbrev appends : List (Input Text Redis.Reply)
appends = twice (server_error (codes "LOADING") true) answered

run_redis_once_example :
    IsAppended commands config
      (λ s. s.1)
      commands-IsRedis
      refl
      refl
      other_key
      (IsWhole to_entry appends)
      (messages to_entry appends)
      ([], [])
      0
      (run_redis commands config options appends (world ([], [])))
run_redis_once_example =
    run_redis_once commands config (λ s. s.1) commands-IsRedis refl refl other_key options appends
      (world ([], []))

valid : validate_table_name (codes "public.events") ≡ true
unfolding validate_table_name is_identifier all_word is_word_byte is_letter cut_at
valid = refl

quote_ident-IsSafe_example :
    ((quote_ident (codes "public.events") ≡ quoted (codes "public.events"))
      × All IsWord (codes "public.events"))
    ⊎ ((schema : Text) × (name : Text) × (quote_ident (codes "public.events")
          ≡ quoted schema ++ b'.' ∷ quoted name)
        × All IsWord schema
        × All IsWord name)
quote_ident-IsSafe_example = quote_ident-IsSafe (codes "public.events") valid
