-- ===== src/Message.antt =====
-- internal/handler/consumer/kafka_message.go and the message of cmd/generator/producer.go. The two
-- structs of the source have the same fields under the same JSON keys, so one record stands for both.
pub mod Roundtrip
use network_actions_aggregat.Prelude.{ℕ, String, Option, none, some, List, []}
use network_actions_aggregat.Clock.{Time}
use network_actions_aggregat.Clock.Text.{Text}
use network_actions_aggregat.Entity.{Event}
use network_actions_aggregat.Entity.Errors.{Result, ok, err, ◌>>=◌}
use network_actions_aggregat.Entity.Json.{Meta}
use network_actions_aggregat.Package.{UuidPackage, TimePackage, JsonPackage, Bytes}

-- `KafkaEventMessage` and `eventMessage`.
pub record KafkaEventMessage : Type 0 where
  pub event_id : String
  pub source_id : String
  pub user_id : String
  pub phone : String
  pub event_type : String
  pub started_at : Text
  pub ended_at : Option Text
  pub duration : Option ℕ
  pub bytes_up : ℕ
  pub bytes_down : ℕ
  pub meta : Meta

-- `omitempty` leaves out an empty map, which is read back as the nil map. The zero values of the other
-- tagged fields are read back as themselves.
abbrev pub omit_empty : Meta → Meta
omit_empty none = none
omit_empty (some []) = none
omit_empty (some m) = some m

abbrev pub omitted : KafkaEventMessage → KafkaEventMessage
omitted m = record m { meta = omit_empty m.meta }

-- `UnmarshalKafkaMessage`.
unfoldable pub unmarshal_kafka_message :
    JsonPackage KafkaEventMessage → Bytes → Result KafkaEventMessage
unmarshal_kafka_message json value = json.unmarshal value

-- `if m.EndedAt != nil { … }`.
abbrev pub parse_ended_at : TimePackage → Option Text → Result (Option Time)
parse_ended_at times none = ok none
parse_ended_at times (some s) = do t ← times.parse s; ok (some t)

abbrev pub format_ended_at : TimePackage → Option Time → Option Text
format_ended_at times none = none
format_ended_at times (some t) = some (times.format t)

module _ (uuid : UuidPackage) (times : TimePackage) where
  -- `ToEvent`; `now` is the reading of the clock for `CreatedAt`.
  unfoldable pub to_event : Time → KafkaEventMessage → Result Event
  to_event now m = do
    event_id ← uuid.parse m.event_id
    source_id ← uuid.parse m.source_id
    user_id ← uuid.parse m.user_id
    started_at ← times.parse m.started_at
    ended_at ← parse_ended_at times m.ended_at
    ok (record {
      event_id = event_id;
      source_id = source_id;
      user_id = user_id;
      phone = m.phone;
      event_type = m.event_type;
      started_at = started_at;
      ended_at = ended_at;
      duration_sec = m.duration;
      bytes_up = m.bytes_up;
      bytes_down = m.bytes_down;
      meta = m.meta;
      created_at = now;
    })

  -- `eventToMessage`.
  unfoldable pub event_to_message : Event → KafkaEventMessage
  event_to_message e = record {
    event_id = uuid.string e.event_id;
    source_id = uuid.string e.source_id;
    user_id = uuid.string e.user_id;
    phone = e.phone;
    event_type = e.event_type;
    started_at = times.format e.started_at;
    ended_at = format_ended_at times e.ended_at;
    duration = e.duration_sec;
    bytes_up = e.bytes_up;
    bytes_down = e.bytes_down;
    meta = e.meta;
  }
