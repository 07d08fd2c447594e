-- ===== src/Sink/Aws.antt =====
-- internal/awssink: the SQS and SNS sinks. What a queue or topic has taken is the list of the sent
-- messages; SHA-256 in hexadecimal is a parameter.
use evm_tools.Base.{
  ℕ, ◌*◌, Bool, true, Option, none, some, List, [], ◌∷◌, ◌++◌, Text, codes, length, ltb,
  if◌then◌else◌,
}
use evm_tools.Base.Exec.{Outcome}
use evm_tools.Record.Envelope.{Envelope}
use evm_tools.Record.Key.{dedup_key, partition_identity}
use evm_tools.Sink.Loop.{
  Answered, confirmed, transient, permanent, Prepared, deliver, refuse, Input, Ended, World,
  Delivery, Destination, deliver_with_retry, run,
}
use evm_tools.Sink.Loop.Gauges.{Attempt}
use evm_tools.Sink.Loop.Options.{SinkOptions, checked}
use evm_tools.Sink.Remote.{Protocol, remote}

abbrev pub max_message_bytes : ℕ
max_message_bytes = 256 * 1024

pub record Message : Type 0 where
  pub body : Text
  pub group_id : Text
  pub dedup_id : Text

-- What SendMessage (SQS) or Publish (SNS) is given: the identifiers only for a FIFO destination.
pub record Request : Type 0 where
  pub target : Text
  pub content : Text
  pub group : Option Text
  pub deduplication : Option Text

-- sqsPublisher.Publish and snsPublisher.Publish
unfoldable pub request_of : Bool → Text → Message → Request
request_of fifo target m = record {
  target = target;
  content = m.body;
  group = if fifo then some m.group_id else none;
  deduplication = if fifo then some m.dedup_id else none;
}

-- An error of the call: whether the SDK's classifier finds it retryable, and if it is an API error,
-- whether its fault is the client's.
pub record AwsError : Type 0 where
  pub sdk_retryable : Bool
  pub client_fault : Option Bool

pub data Reply : Type 0 where
  acknowledged : Reply
  refused_by : AwsError → Bool → Reply

abbrev pub by_fault : Option Bool → Answered
by_fault none = transient
by_fault (some client) = if client then permanent else transient

-- Classify
unfoldable pub classify_aws : AwsError → Answered
classify_aws e = if e.sdk_retryable then transient else by_fault e.client_fault

abbrev pub aws_answer : Reply → Answered
aws_answer acknowledged = confirmed
aws_answer (refused_by e kept) = classify_aws e

abbrev pub is_sent : Reply → Bool
is_sent acknowledged = true
is_sent (refused_by e kept) = kept

abbrev pub aws : Protocol Reply
aws = record { answer = aws_answer; taken = is_sent }

-- New
unfoldable pub new_sink : SinkOptions → Outcome Text SinkOptions
unfolding checked
new_sink o =
    checked (codes "awssink: reader is required") (codes "awssink: publisher is required") o

module _ (sha256_hex : Text → Text) (fifo : Bool) where
  -- fifoID
  unfoldable pub fifo_id : Text → Text
  fifo_id key = sha256_hex key

  -- The message of a record; an oversized line is an error.
  unfoldable pub to_message : {D : Type 0} → Envelope D → Text → Prepared Message
  unfolding fifo_id
  to_message env line =
      if ltb max_message_bytes (length line)
      then refuse
      else if fifo
      then deliver (record {
        body = line;
        group_id = fifo_id (partition_identity env);
        dedup_id = fifo_id (dedup_key env);
      })
      else deliver (record { body = line; group_id = []; dedup_id = [] })

module _ (fifo : Bool) (target : Text) (options : SinkOptions) where
  abbrev pub send : Message → List Request → List Request
  send m sent = sent ++ request_of fifo target m ∷ []

  abbrev pub queue : Destination (List Request) Reply Message
  queue = remote send aws options.backoff_base options.backoff_max

  -- deliverWithRetry
  unfoldable pub deliver_message :
      List (Attempt Reply) → Message → World (List Request) → Delivery × World (List Request)
  deliver_message attempts m w = deliver_with_retry queue attempts m w

  -- Run
  unfoldable pub run_aws :
      {D : Type 0}
      → (Text → Text)
      → List (Input D Reply)
      → World (List Request)
      → Ended × World (List Request)
  run_aws sha256_hex inputs w = run queue (to_message sha256_hex fifo) inputs w
