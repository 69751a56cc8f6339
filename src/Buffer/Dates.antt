-- ===== src/Buffer/Dates.antt =====
-- The dates under which the tables of migrations/ keep the periods of the buffers: a day under its own text,
-- a month, in a DATE column, under the text of its first day.
use mathlib.Core.List.{append_cancel_right}
use network_actions_aggregat.Prelude.{
  ◌≡◌, refl, ap, sym, ◌∙◌, Bool-cases, inl, inr, [], ◌∷◌, ◌++◌, ◌&&◌, ◌==◌, string_eq, list_eq,
  nat_eq, list_beq_iff,
}
use network_actions_aggregat.Clock.Months.{IsRegular}
use network_actions_aggregat.Clock.Text.{Text}
use network_actions_aggregat.Entity.{Event, EventType}
use network_actions_aggregat.Buffer.{month_of}
use network_actions_aggregat.Buffer.Streams.{is_at, event_month}

abbrev pub first_day : Text
first_day = b'-' ∷ b'0' ∷ b'1' ∷ []

-- The date of a key of the day buffer, and of a key of the month buffer.
abbrev pub day_date : Text → Text
day_date k = k

abbrev pub month_date : Text → Text
month_date k = k ++ first_day

abbrev pub month_date_of : Event → Text
month_date_of e = month_date (event_month e)

-- The start of the event is a time that RFC 3339 can carry, so its month is one of the calendar.
abbrev pub IsDated : Event → Type 0
IsDated e = IsRegular e.started_at × IsRegular (month_of e)

-- Different keys have different dates.
abbrev pub Separates : (Text → Text) → Type 0
Separates f = (a b : Text) → (f a == f b) ≡ (a == b)

pub day_date-Separates : Separates day_date
day_date-Separates a b = refl

pub month_date-Separates : Separates month_date
month_date-Separates a b = elim (Bool-cases (a == b)) [
  | inl same ↦
      (list_beq_iff (month_date a) (month_date b)).1 (ap month_date ((list_beq_iff a b).0 same))
      ∙ sym same
  | inr other ↦ elim (Bool-cases (month_date a == month_date b)) [
    | inl dates ↦
        (absurd (
          cc (
            (list_beq_iff a b).1 (
                append_cancel_right a b first_day
                  ((list_beq_iff (month_date a) (month_date b)).0 dates)),
            other,
          )))
    | inr apart ↦ apart ∙ sym other
  ]
]

-- An event is in a month by its key as it is by its date.
pub is_at-month_date :
    (k : Text) (ty : EventType) → is_at month_date_of (month_date k) ty ≡ is_at event_month k ty
is_at-month_date k ty i e = month_date-Separates (event_month e) k i && (e.event_type == ty)
