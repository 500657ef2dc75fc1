-- ===== src/Kafka.antt =====
-- The Kafka client: backend/internal/platform/kafka/consumer.go and producer.go. The library
-- franz-go is a parameter; logging is left out.
pub mod Polls
pub mod Projection
mod Tests
use skill_bridge_platform.Base.{
  String, Bool, true, false, List, [], ◌∷◌, Option, none, some, ◌==◌, if◌then◌else◌, Result, ok,
  err, GoError, plain, Action, split_comma, trimmed_parts,
}

unfoldable pub split_brokers : String → List String
split_brokers raw = trimmed_parts (split_comma raw)

abbrev pub err_not_configured : GoError
err_not_configured = plain "kafka: KAFKA_BROKERS is not set"

-- `ConsumerConfig`
pub record ConsumerConfig : Type 0 where
  pub brokers : List String
  pub group_id : String
  pub topics : List String

-- `NewConsumerFromEnv`; `new_client` is `kgo.NewClient` with the options of a configuration.
unfoldable pub new_consumer_from_env :
    {C : Type 0}
    → (ConsumerConfig → Result C)
    → (String → String)
    → (group_id : String) → List String
    → Result C
new_consumer_from_env new_client getenv group_id topics =
    let brokers_raw = getenv "KAFKA_BROKERS" in
    if brokers_raw == ""
    then err err_not_configured
    else new_client
        (record { brokers = split_brokers brokers_raw; group_id = group_id; topics = topics })

-- `NewProducerFromEnv`: the client, if there is one.
unfoldable pub new_producer_from_env :
    {C : Type 0} → (List String → Result C) → (String → String) → Option C
new_producer_from_env new_client getenv =
    let brokers_raw = getenv "KAFKA_BROKERS" in
    if brokers_raw == ""
    then none
    else elim (new_client (split_brokers brokers_raw)) [ err e ↦ none | ok cl ↦ some cl ]

-- The message that a handler gets.
pub record KafkaMessage (J : Type 0) : Type 0 where
  pub topic : String
  pub key : String
  pub value : J

-- `Publish`: `produce_sync` of the client; what it answers is only logged.
unfoldable pub publish_record :
    {J B : Type 0}
    → Option (KafkaMessage J → Action B (Unit {0}))
    → (topic key : String) → J
    → B
    → B
publish_record cl topic key value b = elim cl [
  | none ↦ b
  | some produce_sync ↦ (produce_sync (record { topic = topic; key = key; value = value }) b).1
]

-- One turn of the loop: whether the context has ended before the poll or in it, and what was
-- fetched.
pub record Poll (J : Type 0) : Type 0 where
  pub done_before : Bool
  pub done_after : Bool
  pub records : List (KafkaMessage J)

module _ {J S : Type 0} (handler : KafkaMessage J → Action S (Unit {0})) where
  -- `EachRecord` with the handler; an error is logged.
  unfoldable pub each_record : List (KafkaMessage J) → S → S
  each_record [] s = s
  each_record (m ∷ ms) s = each_record ms (handler m s).1

  -- `Run` over the turns: `true` when it has returned, `false` when it waits for one more poll.
  unfoldable pub run_consumer : List (Poll J) → S → Bool × S
  run_consumer [] s = (false, s)
  run_consumer (p ∷ ps) s =
      let rest = run_consumer ps (each_record p.records s) in
      if p.done_before then (true, s) else if p.done_after then (true, s) else rest
