-- ===== src/Entity.antt =====
-- internal/domain/entity: event types, events with their validation, errors, the aggregates.
pub mod Errors
pub mod Json
pub mod Validation
use network_actions_aggregat.Prelude.{
  ℕ, String, Bool, true, false, ◌&&◌, ◌||◌, not, Option, none, some, List, [], ◌∷◌, nat_beq, ◌==◌,
  string_eq, if◌then◌else◌,
}
use network_actions_aggregat.Clock.{Time, before, is_zero}
use Errors.{
  Error, err_invalid_event_id, err_invalid_source_id, err_invalid_user_id, err_invalid_phone,
  err_invalid_event_type, err_invalid_started_at, err_ended_before_started,
}
use Json.{Meta}

-- `uuid.UUID`: sixteen bytes, read as one number; `uuid.Nil` is 0.
abbrev pub Uuid : Type 0
Uuid = ℕ

abbrev pub uuid_nil : Uuid
uuid_nil = 0

-- `type EventType string`.
abbrev pub EventType : Type 0
EventType = String

abbrev pub event_type_call_out : EventType
event_type_call_out = "CALL_OUT"

abbrev pub event_type_call_in : EventType
event_type_call_in = "CALL_IN"

abbrev pub event_type_sms_sent : EventType
event_type_sms_sent = "SMS_SENT"

abbrev pub event_type_sms_received : EventType
event_type_sms_received = "SMS_RECEIVED"

abbrev pub event_type_data : EventType
event_type_data = "DATA"

-- `EventType.IsValid`.
unfoldable pub is_valid : EventType → Bool
is_valid t =
    t == event_type_call_out
    || t == event_type_call_in
    || t == event_type_sms_sent
    || t == event_type_sms_received
    || t == event_type_data

-- An `int` and an `int64` are the number that their 64 bits show.
pub record Event : Type 0 where
  pub event_id : Uuid
  pub source_id : Uuid
  pub user_id : Uuid
  pub phone : String
  pub event_type : EventType
  pub started_at : Time
  pub ended_at : Option Time
  pub duration_sec : Option ℕ
  pub bytes_up : ℕ
  pub bytes_down : ℕ
  pub meta : Meta
  pub created_at : Time

-- The types whose end is checked against their start.
unfoldable pub has_duration : EventType → Bool
has_duration t = t == event_type_call_out || t == event_type_call_in || t == event_type_data

unfoldable pub ends_early : Option Time → Time → Bool
ends_early none start = false
ends_early (some t) start = before t start

-- `Event.Validate`: the first rule that fails, in the order of the source.
unfoldable pub validate : Event → Option Error
unfolding is_zero
validate e =
    if nat_beq e.event_id uuid_nil
    then some err_invalid_event_id
    else if nat_beq e.source_id uuid_nil
    then some err_invalid_source_id
    else if nat_beq e.user_id uuid_nil
    then some err_invalid_user_id
    else if e.phone == ""
    then some err_invalid_phone
    else if not (is_valid e.event_type)
    then some err_invalid_event_type
    else if is_zero e.started_at
    then some err_invalid_started_at
    else if has_duration e.event_type && ends_early e.ended_at e.started_at
    then some err_ended_before_started
    else none
