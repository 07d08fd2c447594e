-- ===== src/Sink/Kafka.antt =====
-- internal/kafkasink: where a record goes, and the loop that publishes it. A broker is the list of the
-- messages that it stored, in order.
pub mod Route
use evm_tools.Base.{
  ℕ, ◌≡◌, ◌≢◌, refl, if_either, Bool, true, false, ◌||◌, ◌==◌, Option, none, some, List, [], ◌∷◌,
  ◌++◌, Text, codes, if◌then◌else◌,
}
use evm_tools.Base.Exec.{Outcome, done, ◌>=>◌}
use evm_tools.Record.Envelope.{Envelope}
use evm_tools.Sink.Loop.{
  Answered, confirmed, transient, permanent, Prepared, deliver, refuse, Input, Ended, World,
  Delivery, Destination, deliver_with_retry, run,
}
use evm_tools.Sink.Loop.Gauges.{Attempt}
use evm_tools.Sink.Loop.Options.{SinkOptions, required, with_defaults}
use evm_tools.Sink.Remote.{Protocol, IsHonest, remote}
use evm_tools.Sink.Kafka.Route.{Router, route}

pub record Message : Type 0 where
  pub topic : Text
  pub key : Option Text
  pub content : Text

-- The codes of the Kafka client's errors that `permanent` names.
pub record KafkaErrors : Type 0 where
  pub message_too_large : ℕ
  pub record_list_too_large : ℕ
  pub unknown_topic_or_partition : ℕ
  pub topic_authorization_failed : ℕ
  pub cluster_authorization_failed : ℕ
  pub sasl_authentication_failed : ℕ
  pub invalid_topic_exception : ℕ
  pub invalid_record : ℕ
  pub unsupported_for_message_format : ℕ
  pub unsupported_version : ℕ

-- What a produce call comes to: acknowledged, an error of the broker with its code, or another error,
-- with whether the broker has stored the message all the same.
pub data Reply : Type 0 where
  acknowledged : Reply
  broker_error : ℕ → Bool → Reply
  other_error : Bool → Reply

module _ (errors : KafkaErrors) where
  -- permanent, of a broker's error
  unfoldable pub is_permanent : ℕ → Bool
  is_permanent code =
      code == errors.message_too_large
      || code == errors.record_list_too_large
      || code == errors.unknown_topic_or_partition
      || code == errors.topic_authorization_failed
      || code == errors.cluster_authorization_failed
      || code == errors.sasl_authentication_failed
      || code == errors.invalid_topic_exception
      || code == errors.invalid_record
      || code == errors.unsupported_for_message_format
      || code == errors.unsupported_version

  -- Publish and Classify
  unfoldable pub publish_answer : Reply → Answered
  publish_answer acknowledged = confirmed
  publish_answer (broker_error code kept) = if is_permanent code then permanent else transient
  publish_answer (other_error kept) = transient

  abbrev pub is_stored : Reply → Bool
  is_stored acknowledged = true
  is_stored (broker_error code kept) = kept
  is_stored (other_error kept) = kept

  abbrev pub kafka : Protocol Reply
  kafka = record { answer = publish_answer; taken = is_stored }

  pub kafka-IsHonest : IsHonest kafka
  unfolding publish_answer
  kafka-IsHonest acknowledged h = refl
  kafka-IsHonest (broker_error code kept) h = absurd (failing h)
    where
      failing : publish_answer (broker_error code kept) ≢ confirmed
      failing = if_either (λ a. a ≢ confirmed) (is_permanent code) (λ e. cc e) (λ e. cc e)
  kafka-IsHonest (other_error kept) h = cc h

abbrev pub store : Message → List Message → List Message
store m log = log ++ m ∷ []

abbrev pub message_of : Text → Option (Text × Option Text) → Prepared Message
message_of line none = refuse
message_of line (some (topic, key)) = deliver (record { topic = topic; key = key; content = line })

-- The message of a record; one without a topic is an error.
unfoldable pub to_message : {D : Type 0} → Router → Envelope D → Text → Prepared Message
to_message router env line = message_of line (route router env)

-- New
unfoldable pub new_sink : Bool → SinkOptions → Outcome Text SinkOptions
unfolding with_defaults
new_sink router_given o = required o.reader_given (codes "kafkasink: reader is required") o >=> λ p.
    required p.destination_given (codes "kafkasink: publisher is required") p >=> λ q.
    required router_given (codes "kafkasink: router is required") q >=> λ r. done (with_defaults r)

module _ (errors : KafkaErrors) (options : SinkOptions) where
  abbrev pub broker : Destination (List Message) Reply Message
  broker = remote store (kafka errors) options.backoff_base options.backoff_max

  -- publishWithRetry
  unfoldable pub publish_with_retry :
      List (Attempt Reply) → Message → World (List Message) → Delivery × World (List Message)
  publish_with_retry attempts m w = deliver_with_retry broker attempts m w

  -- Run
  unfoldable pub run_kafka :
      {D : Type 0}
      → Router
      → List (Input D Reply)
      → World (List Message)
      → Ended × World (List Message)
  run_kafka router inputs w = run broker (to_message router) inputs w
