-- ===== src/Postgres/Periods.antt =====
-- Where the tables agg_day and agg_month of internal/infrastructure/repository/postgres keep the periods of
-- the use case: the laws of the repository with a DATE that shows the calendar day of its time.
use network_actions_aggregat.Prelude.{◌≡◌, ℕ, ◌-◌, ◌%◌, sym, ap, ◌∙◌, arith}
use network_actions_aggregat.Clock.{Time, truncate_day, month_start, date_of, day_nanos}
use network_actions_aggregat.Clock.Civil.{Date}
use network_actions_aggregat.Clock.Months.{date_of-month_start}
use network_actions_aggregat.Clock.Text.{day_text, day_text-first}
use network_actions_aggregat.Entity.{Event}
use network_actions_aggregat.Buffer.{day_of, month_of, day_key}
use network_actions_aggregat.Buffer.Streams.{event_day}
use network_actions_aggregat.Buffer.Dates.{IsDated, month_date_of}
use network_actions_aggregat.Postgres.Sql.{Gorm, SqlLaws}
use network_actions_aggregat.Postgres.Upserts.{aggregation_laws}

truncate_day-truncate_day : (t : Time) → truncate_day (truncate_day t) ≡ truncate_day t
unfolding truncate_day
truncate_day-truncate_day t = ap (λ n. record t { nanos = n }) (truncated t.nanos)
  where
    truncated : (n : ℕ) → n - n % day_nanos - (n - n % day_nanos) % day_nanos ≡ n - n % day_nanos
    truncated n = omega arith

date-month_start : (e : Event) → IsDated e → day_key (month_start (month_of e)) ≡ month_date_of e
date-month_start e r =
    let once = date_of-month_start e.started_at r.0 in
    let twice = date_of-month_start (month_of e) r.1 in
    ap day_text (twice ∙ (ap (λ (d : Date). record d { day = 1 }) once ∙ sym once))
    ∙ day_text-first (date_of (month_of e)) (ap (λ (d : Date). d.day) once)

module _ {Db : Type 0} (sql : Gorm Db) (laws : SqlLaws sql) (clock : Time)
    (dates : (t : Time) → laws.date t ≡ day_key t) where
  -- A day is kept under its own date.
  pub day_column-day_of :
      (e : Event) → (aggregation_laws sql laws clock).day_column (day_of e) ≡ event_day e
  day_column-day_of e =
      dates (truncate_day (day_of e)) ∙ ap day_key (truncate_day-truncate_day e.started_at)

  -- A month is kept under the date of its first day.
  pub month_column-month_of :
      (e : Event)
      → IsDated e
      → (aggregation_laws sql laws clock).month_column (month_of e) ≡ month_date_of e
  month_column-month_of e r = dates (month_start (month_of e)) ∙ date-month_start e r
