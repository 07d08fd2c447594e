-- ===== src/Examples/Sinks.antt =====
-- The file filter, the Kafka router and the loop over a Kafka broker, on concrete records and replies.
use evm_tools.Base.{
  ◌+◌, subst, sym, ◌≡◌, length, ◌≢◌, ◌↔◌, inl, inr, refl, arith, true, List, [], ◌∷◌, Text, codes,
}
use evm_tools.Record.Key.Identity.{IsKeyable}
use evm_tools.Sink.Filter.{FilterOptions, allow, IsIncluded, NotNamed, allow_iff}
use evm_tools.Sink.Loop.{refuse, Input, run}
use evm_tools.Sink.Loop.Wanted.{messages, IsWhole}
use evm_tools.Sink.Loop.Accounts.{IsAccounted, run-IsAccounted}
use evm_tools.Sink.Loop.AtLeastOnce.{IsDelivered, run_at_least_once}
use evm_tools.Sink.Loop.Recovery.{Answers, Recovers, IsRecoverable, IsThrough, run_recovers}
use evm_tools.Sink.Remote.{remote, remote_contract, any_inputs}
use evm_tools.Sink.Kafka.Route.{Router, by_identity, route-dedup_key}
use evm_tools.Sink.Kafka.{
  KafkaErrors, Reply, acknowledged, other_error, kafka, kafka-IsHonest, store, broker, to_message,
  publish_answer, message_of,
}
use evm_tools.Examples.SinkData.{event_3, options, no_meters, world, attempt, twice}

abbrev only_events : FilterOptions
only_events = record {
  include_types = codes " event " ∷ [];
  exclude_types = [];
  include_names = [];
  exclude_names = codes "weth" ∷ [];
}

allow_iff_example : (allow only_events event_3 ≡ true) ↔ (
    IsIncluded (codes " event " ∷ []) (codes "event")
    × NotNamed [] (codes "event")
    × IsIncluded [] (codes "usdc")
    × NotNamed (codes "weth" ∷ []) (codes "usdc"))
allow_iff_example = allow_iff only_events event_3

abbrev router : Router
router = record { default_topic = codes "records"; by_type = []; key_mode = by_identity }

event_3-IsKeyable : IsKeyable event_3
event_3-IsKeyable = record {
  type_lacks = ground arith;
  name_lacks = ground arith;
  tx_hash_lacks = ground arith;
  block_hash_lacks = ground arith;
  emitted_at_lacks = ground arith;
  path_natural = tt;
}

abbrev errors : KafkaErrors
errors = record {
  message_too_large = 10;
  record_list_too_large = 18;
  unknown_topic_or_partition = 3;
  topic_authorization_failed = 29;
  cluster_authorization_failed = 31;
  sasl_authentication_failed = 58;
  invalid_topic_exception = 17;
  invalid_record = 87;
  unsupported_for_message_format = 43;
  unsupported_version = 35;
}

abbrev inputs : List (Input Text Reply)
inputs = twice (other_error true) acknowledged

run_at_least_once_example :
    IsDelivered
      (remote_contract store (kafka errors) 5 20 [] (kafka-IsHonest errors))
      (IsWhole (to_message router) inputs)
      (messages (to_message router) inputs)
      []
      0
      (run (broker errors options) (to_message router) inputs (world []))
unfolding remote_contract
run_at_least_once_example =
    run_at_least_once (remote_contract store (kafka errors) 5 20 [] (kafka-IsHonest errors))
      (to_message router) inputs [] (world []) (any_inputs inputs) refl

run-IsAccounted_example :
    IsAccounted
      (broker errors options)
      no_meters
      (run (broker errors options) (to_message router) inputs (world []))
run-IsAccounted_example =
    run-IsAccounted (broker errors options) (to_message router) inputs (world [])
      (record { none_failed = refl; unblocked = refl; no_backoff = refl; no_wait = refl })

by_reply : Answers (broker errors options) (publish_answer errors)
unfolding remote
by_reply m r log = refl

is_published : (line : Text) → to_message router event_3 line ≢ refuse
unfolding to_message
is_published line =
    let (topic, key, named, same, _) =
      route-dedup_key router event_3 event_3 (ground arith) refl event_3-IsKeyable event_3-IsKeyable
        refl refl in
    subst (λ o. message_of line o ≢ refuse) (sym same) (λ e. cc e)

inputs-IsRecoverable :
    IsRecoverable
      (broker errors options)
      (publish_answer errors)
      by_reply
      (to_message router)
      inputs
unfolding publish_answer
inputs-IsRecoverable = (
  is_published (codes "first"),
  (λ _. recovers),
  (is_published (codes "second"), (λ _. recovers), tt),
)
  where
    recovers :
        Recovers (publish_answer errors) (attempt (other_error true) ∷ attempt acknowledged ∷ [])
    recovers = (refl, refl, refl, inr (refl, (refl, refl, refl, inl refl)))

run_recovers_example :
    IsThrough
      (broker errors options)
      (publish_answer errors)
      by_reply
      (0 + length (messages (to_message router) inputs))
      (run (broker errors options) (to_message router) inputs (world []))
run_recovers_example =
    run_recovers (broker errors options) (publish_answer errors) by_reply (to_message router) inputs
      (world []) inputs-IsRecoverable
