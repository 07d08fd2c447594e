-- ===== src/Sink/Redis.antt =====
-- internal/redissink: the Redis sink. The commands of a Redis server are parameters.
pub mod Entries
pub mod Once
use evm_tools.Base.{
  ℕ, ◌+◌, ◌-◌, ◌*◌, ◌/◌, ◌≡◌, Bool, true, false, Option, none, some, List, [], ◌∷◌, ◌++◌, Text,
  codes, has_prefix, to_upper, ltb, if◌then◌else◌,
}
use evm_tools.Base.Exec.{Outcome}
use evm_tools.Record.Envelope.{Envelope}
use evm_tools.Record.Key.{dedup_key}
use evm_tools.Sink.Loop.{
  Answered, confirmed, transient, permanent, Prepared, deliver, Input, Ended, World, Delivery,
  Destination, deliver_with_retry, run,
}
use evm_tools.Sink.Loop.Gauges.{Attempt}
use evm_tools.Sink.Loop.Options.{SinkOptions, checked, second}
use evm_tools.Sink.Remote.{Protocol, remote}

-- EXISTS, XADD (stream, MAXLEN or none, field, value) and SET (key, EX or none) on a server's state.
pub record Commands (S : Type 0) : Type 0 where
  pub exists : Text → S → Bool
  pub xadd : Text → Option ℕ → Text → Text → S → S
  pub set : Text → Option ℕ → S → S

pub record ClientConfig : Type 0 where
  pub stream : Text
  pub field : Text
  pub max_len : ℕ
  pub dedup : Bool
  pub dedup_ttl : ℕ
  pub dedup_prefix : Text

-- NewAppender's defaults.
unfoldable pub with_names : ClientConfig → ClientConfig
with_names c = record c {
  field = elim c.field [ [] ↦ codes "data" | x ∷ s ↦ x ∷ s ];
  dedup_prefix = elim c.dedup_prefix [ [] ↦ codes "evmtools:dedup:" | x ∷ s ↦ x ∷ s ];
}

-- What is appended: the marker's key, and the record's line.
pub record Entry : Type 0 where
  pub key : Text
  pub line : Text

abbrev pub positive : ℕ → Option ℕ
positive n = if ltb 0 n then some n else none

-- The seconds that a marker lives, rounded up; 0 for ever.
unfoldable pub ttl_seconds : ℕ → ℕ
ttl_seconds ttl = if ltb 0 ttl then (ttl + second - 1) / second else 0

module _ {S : Type 0} (redis : Commands S) where
  -- dedupScript
  unfoldable pub dedup_script : Text → Text → Text → Text → ℕ → ℕ → S → Bool × S
  dedup_script stream marker field line max_len ttl s =
      if redis.exists marker s then (false, s) else (
        true,
        redis.set marker (positive ttl) (redis.xadd stream (positive max_len) field line s),
      )

  -- Append, when the server carries it out: whether the entry is new, and the server's state.
  unfoldable pub append : ClientConfig → Entry → S → Bool × S
  unfolding ttl_seconds
  append c e s =
      if c.dedup
      then dedup_script c.stream (c.dedup_prefix ++ e.key) c.field e.line c.max_len
          (ttl_seconds c.dedup_ttl) s
      else (true, redis.xadd c.stream (positive c.max_len) c.field e.line s)

abbrev pub put_entry : {S : Type 0} → Commands S → ClientConfig → Entry → S → S
put_entry redis c e s = (append redis c e s).1

-- The error of an append: one that the server replied, with its text, or another one.
pub data Reply : Type 0 where
  answered : Reply
  server_error : Text → Bool → Reply
  other_error : Bool → Reply

abbrev pub permanent_redis_errors : List Text
permanent_redis_errors =
    codes "WRONGTYPE" ∷ codes "NOAUTH" ∷ codes "WRONGPASS" ∷ codes "NOPERM" ∷ codes "CROSSSLOT" ∷ []

unfoldable pub classify_message : List Text → Text → Answered
classify_message [] msg = transient
classify_message (p ∷ ps) msg =
    let rest = classify_message ps msg in if has_prefix msg p then permanent else rest

-- Classify
unfoldable pub redis_answer : Reply → Answered
unfolding classify_message
redis_answer answered = confirmed
redis_answer (server_error msg kept) = classify_message permanent_redis_errors (to_upper msg)
redis_answer (other_error kept) = transient

abbrev pub is_carried_out : Reply → Bool
is_carried_out answered = true
is_carried_out (server_error msg kept) = kept
is_carried_out (other_error kept) = kept

abbrev pub redis_protocol : Protocol Reply
redis_protocol = record { answer = redis_answer; taken = is_carried_out }

-- New
unfoldable pub new_sink : SinkOptions → Outcome Text SinkOptions
unfolding checked
new_sink o =
    checked (codes "redissink: reader is required") (codes "redissink: appender is required") o

abbrev pub to_entry : {D : Type 0} → Envelope D → Text → Prepared Entry
to_entry env line = deliver (record { key = dedup_key env; line = line })

module _ {S : Type 0} (redis : Commands S) (c : ClientConfig) (options : SinkOptions) where
  abbrev pub server : Destination S Reply Entry
  server = remote (put_entry redis c) redis_protocol options.backoff_base options.backoff_max

  -- appendWithRetry
  unfoldable pub append_with_retry : List (Attempt Reply) → Entry → World S → Delivery × World S
  append_with_retry attempts e w = deliver_with_retry server attempts e w

  -- Run
  unfoldable pub run_redis : {D : Type 0} → List (Input D Reply) → World S → Ended × World S
  run_redis inputs w = run server to_entry inputs w
