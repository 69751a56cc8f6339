-- ===== src/Entity/Validation.antt =====
-- What `Event.Validate` accepts, as a predicate on events.
use network_actions_aggregat.Prelude.{
  ◌≤◌, ◌≡◌, ◌≢◌, ◌↔◌, ◌⊎◌, refl, true, false, none, some, Option, arith, string_eq,
}
use network_actions_aggregat.Clock.{Time, is_zero, zero_nanos}
use network_actions_aggregat.Entity.{Event, EventType, is_valid, has_duration, ends_early, validate}
use text.Mathlib.TextEquality.{eq_iff}

-- The end of a session, where there is one, is not before its start.
abbrev pub EndsInOrder : Option Time → Time → Type 0
EndsInOrder none start = Unit
EndsInOrder (some t) start = start.nanos ≤ t.nanos

-- The five types of an event, and those of them that have an end.
abbrev pub IsKnown : EventType → Type 0
IsKnown t =
    (t ≡ "CALL_OUT") ⊎ (t ≡ "CALL_IN") ⊎ (t ≡ "SMS_SENT") ⊎ (t ≡ "SMS_RECEIVED") ⊎ (t ≡ "DATA")

abbrev pub IsSession : EventType → Type 0
IsSession t = (t ≡ "CALL_OUT") ⊎ (t ≡ "CALL_IN") ⊎ (t ≡ "DATA")

-- The documented rules for an event.
pub record IsWellFormed (e : Event) : Type 0 where
  pub has_event_id : e.event_id ≢ 0
  pub has_source_id : e.source_id ≢ 0
  pub has_user_id : e.user_id ≢ 0
  pub has_phone : e.phone ≢ ""
  pub has_type : IsKnown e.event_type
  pub has_start : e.started_at.nanos ≢ zero_nanos
  pub in_order : IsSession e.event_type → EndsInOrder e.ended_at e.started_at

-- The tests of the code against the texts of the types.
pub is_valid_iff : (t : EventType) → (is_valid t ≡ true) ↔ IsKnown t
unfolding is_valid
is_valid_iff t = ground (
  arith,
  eq_iff t "CALL_OUT",
  eq_iff t "CALL_IN",
  eq_iff t "SMS_SENT",
  eq_iff t "SMS_RECEIVED",
  eq_iff t "DATA",
)

has_duration_iff : (t : EventType) → (has_duration t ≡ true) ↔ IsSession t
unfolding has_duration
has_duration_iff t = ground (arith, eq_iff t "CALL_OUT", eq_iff t "CALL_IN", eq_iff t "DATA")

ends_early_iff : (o : Option Time) (s : Time) → (ends_early o s ≡ false) ↔ EndsInOrder o s
unfolding ends_early
ends_early_iff none s = (λ _. tt, λ _. refl)
ends_early_iff (some t) s = ground arith

validate_sound : (e : Event) → validate e ≡ none → IsWellFormed e
unfolding validate is_zero
validate_sound e h = record {
  has_event_id = ground arith;
  has_source_id = ground arith;
  has_user_id = ground arith;
  has_phone = ground (arith, eq_iff e.phone "");
  has_type = (is_valid_iff e.event_type).0 (ground arith);
  has_start = ground arith;
  in_order = λ d.
      let timed = (has_duration_iff e.event_type).1 d in
      (ends_early_iff e.ended_at e.started_at).0 (ground arith);
}

validate_complete : (e : Event) → IsWellFormed e → validate e ≡ none
unfolding validate is_zero
validate_complete e w =
    let valid = (is_valid_iff e.event_type).1 w.has_type in
    let ordered : has_duration e.event_type ≡ true → ends_early e.ended_at e.started_at ≡ false =
      λ d.
        (ends_early_iff e.ended_at e.started_at).1
          (w.in_order ((has_duration_iff e.event_type).0 d)) in
    ground (arith, eq_iff e.phone "", ordered)

-- `Validate` returns nil exactly on the well-formed events.
pub validate_iff : (e : Event) → (validate e ≡ none) ↔ IsWellFormed e
validate_iff e = (validate_sound e, validate_complete e)
