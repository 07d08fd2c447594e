-- ===== src/Sink/Webhook.antt =====
-- internal/webhooksink: which records are forwarded, the POST, and the loop. An endpoint is the list of
-- the payloads that it accepted.
pub mod Condition
pub mod Post
pub mod Redact
use evm_tools.Base.{Bool, true, false, List, [], ◌∷◌, ◌++◌, Text, codes, if◌then◌else◌}
use evm_tools.Base.Exec.{Outcome}
use evm_tools.Record.Envelope.{Envelope}
use evm_tools.Sink.Loop.{
  Prepared, deliver, skip, Input, Ended, World, Delivery, Destination, deliver_with_retry, run,
}
use evm_tools.Sink.Loop.Gauges.{Attempt}
use evm_tools.Sink.Loop.Options.{SinkOptions, checked}
use evm_tools.Sink.Remote.{remote}
use evm_tools.Sink.Webhook.Condition.{Payload, Numbers, WebhookFilter, allow_webhook}
use evm_tools.Sink.Webhook.Post.{Response, webhook}

-- New
unfoldable pub new_sink : SinkOptions → Outcome Text SinkOptions
unfolding checked
new_sink o =
    checked (codes "webhooksink: reader is required") (codes "webhooksink: poster is required") o

abbrev pub accept : Text → List Text → List Text
accept payload accepted = accepted ++ payload ∷ []

module _ {F64 F : Type 0} (numbers : Numbers F64 F) (f : WebhookFilter)
    (options : SinkOptions) where
  -- A record that the filter passes is forwarded with its line.
  unfoldable pub to_payload : Envelope (Payload F64) → Text → Prepared Text
  to_payload env line = if allow_webhook numbers f env then deliver line else skip

  abbrev pub endpoint : Destination (List Text) Response Text
  endpoint = remote accept webhook options.backoff_base options.backoff_max

  -- postWithRetry
  unfoldable pub post_with_retry :
      List (Attempt Response) → Text → World (List Text) → Delivery × World (List Text)
  post_with_retry attempts payload w = deliver_with_retry endpoint attempts payload w

  -- Run
  unfoldable pub run_webhook :
      List (Input (Payload F64) Response) → World (List Text) → Ended × World (List Text)
  run_webhook inputs w = run endpoint to_payload inputs w
