-- ===== src/Examples/Messages.antt =====
-- The theorems on messages at a call, and packages for times and messages that keep their documented
-- behaviour.
use network_actions_aggregat.Prelude.{
  ℕ, ◌≡◌, beq_refl, refl, ap, Bool, true, false, ◌&&◌, Bool-cases, inl, inr, Option, none, some,
  List, [], ◌∷◌, ◌++◌, arith, ◌==◌, string_eq, list_eq, nat_eq, nat_beq, list_beq_iff, nat_beq_iff,
  if◌then◌else◌,
}
use text.Mathlib.TextEquality.{eq_iff}
use network_actions_aggregat.Clock.{Time, Zone, east, west, date_of}
use network_actions_aggregat.Clock.Civil.{civil, year_of, month_of, days_before_year}
use network_actions_aggregat.Clock.Text.{Text}
use network_actions_aggregat.Entity.{Event}
use network_actions_aggregat.Entity.Errors.{Result, ok, err, message}
use network_actions_aggregat.Package.{TimePackage, ReadsSeconds, JsonPackage, ReadsOmitted, seconds}
use network_actions_aggregat.Message.{KafkaEventMessage, omitted, to_event, event_to_message}
use network_actions_aggregat.Message.Roundtrip.{
  HasWritableTimes, received, sent_events, to_event-event_to_message,
}
use network_actions_aggregat.Kafka.Expected.{calculate_expected_aggregations-consume_events}
use network_actions_aggregat.Verifier.{calculate_expected_aggregations}
use network_actions_aggregat.Kafka.{
  Written, Round, done, failed, fetched, consume_events, returned, write_batch, write_message,
}
use network_actions_aggregat.Kafka.Delivery.{
  Polled, drained, failing, polled, arrivals, consume_events-write_batch,
}
use network_actions_aggregat.Examples.Values.{uuid, uuid-ReadsBack, call, noon}

-- A time as its instant and its zone.
abbrev format : Time → Text
format t = t.nanos ∷ zone_text t.zone
  where
    zone_text : Zone → Text
    zone_text (east s) = 0 ∷ s ∷ []
    zone_text (west s) = 1 ∷ s ∷ []

abbrev zone_of : List ℕ → Result Zone
zone_of [] = err (message "no zone")
zone_of (a ∷ []) = err (message "no zone")
zone_of (a ∷ s ∷ rest) = ok (if nat_beq a 0 then east s else west s)

abbrev at_zone : ℕ → Result Zone → Result Time
at_zone n (ok z) = ok (seconds (record { nanos = n; zone = z }))
at_zone n (err e) = err e

abbrev parse : Text → Result Time
parse [] = err (message "empty")
parse (n ∷ rest) = at_zone n (zone_of rest)

abbrev pub times : TimePackage
times = record { format = format; parse = parse }

pub times-ReadsSeconds : ReadsSeconds times
times-ReadsSeconds t w = read_back t.nanos t.zone
  where
    read_back :
        (n : ℕ) (z : Zone)
        → parse (format (record { nanos = n; zone = z }))
          ≡ ok (seconds (record { nanos = n; zone = z }))
    read_back n (east s) = refl
    read_back n (west s) = refl

abbrev pub first_call : Event
first_call = call 7 7 60

abbrev its_message : KafkaEventMessage
its_message = event_to_message uuid times first_call

abbrev is_none : {A : Type 0} → Option A → Bool
is_none none = true
is_none (some a) = false

abbrev is_sixty : Option ℕ → Bool
is_sixty none = false
is_sixty (some n) = nat_beq n 60

-- Whether a message is the one of the call.
abbrev is_its_message : KafkaEventMessage → Bool
is_its_message m =
    (m.event_id == "xxxxxxx")
    && (m.source_id == "x")
    && (m.user_id == "xx")
    && (m.phone == "+79000000000")
    && (m.event_type == its_message.event_type)
    && (m.started_at == its_message.started_at)
    && is_none m.ended_at
    && is_sixty m.duration
    && nat_beq m.bytes_up 10
    && nat_beq m.bytes_down 20
    && is_none m.meta

is_none_lem : {A : Type 0} (o : Option A) → is_none o ≡ true → o ≡ none
is_none_lem none h = refl
is_none_lem (some a) h = absurd (cc)

is_sixty_lem : (o : Option ℕ) → is_sixty o ≡ true → o ≡ some 60
is_sixty_lem none h = absurd (cc)
is_sixty_lem (some n) h = ap some ((nat_beq_iff n 60).0 h)

-- It is the only message that this package writes.
abbrev pub json : JsonPackage KafkaEventMessage
json = record {
  marshal = λ m. if is_its_message m then ok (1 ∷ []) else err (message "unsupported");
  unmarshal = λ b. ok its_message;
}

is_its_message_lem : (m : KafkaEventMessage) → is_its_message m ≡ true → its_message ≡ omitted m
unfolding event_to_message
is_its_message_lem m h = ground (
  arith,
  h,
  eq_iff m.event_id "xxxxxxx",
  eq_iff m.source_id "x",
  eq_iff m.user_id "xx",
  eq_iff m.phone "+79000000000",
  eq_iff m.event_type its_message.event_type,
  list_beq_iff m.started_at its_message.started_at,
  is_none_lem m.ended_at,
  is_sixty_lem m.duration,
  is_none_lem m.meta,
)

pub json-ReadsOmitted : ReadsOmitted omitted json
json-ReadsOmitted m b h = elim (Bool-cases (is_its_message m)) [
  | inl its ↦ ap ok (is_its_message_lem m its)
  | inr other ↦ absurd (ground (arith, h, other))
]

pub first_call-HasWritableTimes : HasWritableTimes first_call
unfolding date_of civil year_of month_of days_before_year
first_call-HasWritableTimes = record {
  start = record {
    offset = (refl, omega arith);
    printable = record {
      year_pos = omega arith;
      year_lt = omega arith;
      month_lt = omega arith;
      day_lt = omega arith;
    };
  };
  ending = tt;
}

to_event-event_to_message_example :
    to_event uuid times (noon 8) (omitted (event_to_message uuid times first_call))
    ≡ ok (received (noon 8) first_call)
to_event-event_to_message_example =
    to_event-event_to_message uuid times uuid-ReadsBack times-ReadsSeconds (noon 8) first_call
      first_call-HasWritableTimes

abbrev pub batch : List (Time × Event)
batch = (noon 7, first_call) ∷ (noon 8, first_call) ∷ []

abbrev pub wrote : Time → Written
wrote now = record { key = "xx"; value = 1 ∷ []; time = now }

abbrev pub rounds : List Round
rounds =
    fetched (record { offset = 0; value = 1 ∷ [] }) (noon 9) false
      (some (message "lost leadership"))
    ∷ failed (message "timeout")
    ∷ fetched (record { offset = 1; value = 1 ∷ [] }) (noon 10) false none
    ∷ []

pub rounds-Polled : Polled (wrote (noon 7) ∷ wrote (noon 8) ∷ []) (noon 9 ∷ noon 10 ∷ []) rounds
rounds-Polled =
    polled (wrote (noon 7)) 0 (noon 9) (some (message "lost leadership"))
      (failing (message "timeout") (polled (wrote (noon 8)) 1 (noon 10) none drained))

pub batch_written : write_batch uuid times json batch ≡ ok (wrote (noon 7) ∷ wrote (noon 8) ∷ [])
unfolding write_batch write_message event_to_message
batch_written = rw (beq_refl its_message.started_at) refl

consume_events-write_batch_example :
    let s = consume_events uuid times json none (rounds ++ done ∷ []) in
    (s.0.sent ≡ arrivals (noon 9 ∷ noon 10 ∷ []) batch)
    × ((s.1 ≡ returned none) × (s.0.channel_closed ≡ true))
consume_events-write_batch_example =
    consume_events-write_batch uuid times json uuid-ReadsBack times-ReadsSeconds json-ReadsOmitted
      none batch rounds-Polled batch_written
      (first_call-HasWritableTimes, (first_call-HasWritableTimes, tt))

calculate_expected_aggregations-consume_events_example :
    calculate_expected_aggregations
      (consume_events uuid times json none (rounds ++ done ∷ [])).0.sent
    ≡ calculate_expected_aggregations (sent_events batch)
calculate_expected_aggregations-consume_events_example =
    calculate_expected_aggregations-consume_events uuid times json uuid-ReadsBack times-ReadsSeconds
      json-ReadsOmitted none batch rounds-Polled batch_written
      (first_call-HasWritableTimes, (first_call-HasWritableTimes, tt))
