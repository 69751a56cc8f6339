-- ===== src/Kafka.antt =====
-- internal/infrastructure/kafka/consumer.go and cmd/generator/producer.go: the two ends of the topic. The
-- client library is a parameter: what a call of it gives is part of a round or an argument.
pub mod Safe
pub mod Delivery
pub mod Expected
pub mod Feed
use network_actions_aggregat.Prelude.{
  ℕ, suc, String, Bool, true, false, Option, none, some, List, [], ◌∷◌, ◌++◌, ◌==◌, string_eq,
  if◌then◌else◌,
}
use network_actions_aggregat.Clock.{Time}
use network_actions_aggregat.Entity.{Event}
use network_actions_aggregat.Entity.Errors.{
  Error, Result, ok, err, errorf, message, wrap_error, ◌>>=◌,
}
use network_actions_aggregat.Package.{UuidPackage, TimePackage, JsonPackage, Bytes}
use network_actions_aggregat.Message.{
  KafkaEventMessage, unmarshal_kafka_message, to_event, event_to_message,
}

-- `ConsumerConfig`; durations in nanoseconds.
pub record ConsumerConfig : Type 0 where
  pub brokers : List String
  pub topic : String
  pub group_id : String
  pub max_wait : ℕ
  pub min_bytes : ℕ
  pub max_bytes : ℕ
  pub commit_interval : ℕ

-- `NewConsumer`, up to the reader, which the library makes of the configuration.
unfoldable pub new_consumer : ConsumerConfig → Result ConsumerConfig
new_consumer c = if c.topic == "" then err (message "topic must be specified") else ok c

-- A `kafka.Message`, by what the code reads of it, and one that a producer writes.
pub record Fetched : Type 0 where
  pub offset : ℕ
  pub value : Bytes

pub record Written : Type 0 where
  pub key : String
  pub value : Bytes
  pub time : Time

-- What one round of the loop of `ConsumeEvents` meets: the context is done; `FetchMessage` fails, with
-- `context.Canceled` or otherwise; or a message, with the reading of the clock for its event, the
-- context in the `select` around the send (`true` if it is done and chosen) and the result of the commit.
pub data Round : Type 0 where
  done canceled : Round
  failed : Error → Round
  fetched : Fetched → Time → Bool → Option Error → Round

-- The events handed to the channel, the messages whose commit succeeded, and whether the channel is
-- closed and the reader is.
pub record Consumer : Type 0 where
  pub sent : List Event
  pub committed : List Fetched
  pub channel_closed : Bool
  pub reader_closed : Bool

abbrev pub new_run : Consumer
new_run = record { sent = []; committed = []; channel_closed = false; reader_closed = false }

-- The consumer in its loop, or its return value.
pub data Loop : Type 0 where
  consuming : Loop
  returned : Option Error → Loop

-- `c.reader.CommitMessages(ctx, msg)`; an error is logged.
abbrev pub commit : Option Error → Fetched → Consumer → Consumer
commit none m c = record c { committed = c.committed ++ m ∷ [] }
commit (some e) m c = c

abbrev pub hand_over : Event → Consumer → Consumer
hand_over e c = record c { sent = c.sent ++ e ∷ [] }

-- The deferred `close(eventsChan)`.
abbrev pub leave : Consumer → Option Error → Consumer × Loop
leave c e = (record c { channel_closed = true }, returned e)

module _ (uuid : UuidPackage) (times : TimePackage) (json : JsonPackage KafkaEventMessage) where
  -- `parseEvent`.
  unfoldable pub parse_event : Time → Bytes → Result Event
  parse_event now value = do
    m ← wrap_error "failed to unmarshal kafka message" (unmarshal_kafka_message json value)
    wrap_error "failed to convert kafka message to event" (to_event uuid times now m)

  -- The round of a message, with what `parseEvent` gives.
  unfoldable pub handle : Fetched → Result Event → Bool → Option Error → Consumer → Consumer × Loop
  handle m (err e) stop committing c = (commit committing m c, consuming)
  handle m (ok e) true committing c = leave c (some (message "context canceled"))
  handle m (ok e) false committing c = (commit committing m (hand_over e c), consuming)

  -- `Close`, whose result is `closing`.
  abbrev pub close_reader : Option Error → Consumer → Consumer × Loop
  close_reader closing c = leave (record c { reader_closed = true }) closing

  -- One round of `ConsumeEvents`.
  unfoldable pub consume_round : Option Error → Round → Consumer → Consumer × Loop
  consume_round closing done c = close_reader closing c
  consume_round closing canceled c = close_reader closing c
  consume_round closing (failed e) c = (c, consuming)
  consume_round closing (fetched m now stop committing) c =
      handle m (parse_event now m.value) stop committing c

  -- `ConsumeEvents`, and `ConsumeToChannel`, which calls it.
  unfoldable pub consume_from : Option Error → List Round → Consumer × Loop → Consumer × Loop
  consume_from closing [] s = s
  consume_from closing (x ∷ xs) (c, returned r) = (c, returned r)
  consume_from closing (x ∷ xs) (c, consuming) = consume_from closing xs (consume_round closing x c)

  unfoldable pub consume_events : Option Error → List Round → Consumer × Loop
  consume_events closing xs = consume_from closing xs (new_run, consuming)

  -- The message of an event, with the time at which it is made.
  unfoldable pub write_message : Time → Event → Result Written
  write_message now e = do
    value ← json.marshal (event_to_message uuid times e)
    ok (record { key = uuid.string e.user_id; value = value; time = now })

  -- The loop of `SendBatch` over events with the readings of the clock. The text of an error leaves out the
  -- id of the event.
  unfoldable pub write_batch : List (Time × Event) → Result (List Written)
  write_batch [] = ok []
  write_batch ((now, e) ∷ xs) = do
    m ← wrap_error "failed to marshal event" (write_message now e)
    ms ← write_batch xs
    ok (m ∷ ms)

  -- `writer` is `WriteMessages` over the state of the topic.
  module _ {Topic : Type 0} (writer : List Written → Topic → Topic × Option Error) where
    abbrev pub written : Result (List Written) → Topic → Topic × Option Error
    written (ok ms) topic = writer ms topic
    written (err e) topic = (topic, some e)

    abbrev pub singleton : Result Written → Result (List Written)
    singleton r = do m ← r; ok (m ∷ [])

    -- `SendEvent`.
    unfoldable pub send_event : Time → Event → Topic → Topic × Option Error
    send_event now e topic =
        written (singleton (wrap_error "failed to marshal event" (write_message now e))) topic

    -- `SendBatch`.
    unfoldable pub send_batch : List (Time × Event) → Topic → Topic × Option Error
    send_batch xs topic = written (write_batch xs) topic
