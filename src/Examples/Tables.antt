-- ===== src/Examples/Tables.antt =====
-- The aggregation repository over the database of examples, with what the theorems on the aggregator ask of
-- it.
use network_actions_aggregat.Prelude.{ℕ, ◌≡◌, refl, Bool, false, String, none, List, [], ◌∷◌, arith}
use network_actions_aggregat.Clock.{date_of, midnight, month_start, zero_nanos}
use network_actions_aggregat.Clock.Civil
use network_actions_aggregat.Clock.Civil.{civil, year_of, days_before, days_before_year}
use network_actions_aggregat.Entity.{Event}
use network_actions_aggregat.Entity.Errors.{Error}
use network_actions_aggregat.Buffer.{Aggregate, day_of, month_of}
use network_actions_aggregat.Buffer.Streams.{event_day}
use network_actions_aggregat.Buffer.Dates.{IsDated, month_date_of}
use network_actions_aggregat.Repository.{EventRepository, AggregationRepository, AggregationLaws}
use network_actions_aggregat.Aggregator.{upsert_all}
use network_actions_aggregat.Postgres.{
  upsert_day_aggregation, upsert_month_aggregation, aggregation_repository, event_repository,
}
use network_actions_aggregat.Postgres.Upserts.{aggregation_laws}
use network_actions_aggregat.Postgres.Periods.{day_column-day_of, month_column-month_of}
use network_actions_aggregat.Examples.Storage.{Tables, sql, laws}
use network_actions_aggregat.Examples.Values.{noon, call}

abbrev pub repository : AggregationRepository Tables
repository = aggregation_repository sql (noon 9)

abbrev pub repository_laws : AggregationLaws repository
repository_laws = aggregation_laws sql laws (noon 9)

abbrev never : Error → Bool
never e = false

abbrev pub events : EventRepository Tables
events = event_repository sql never

pub days_dated : (e : Event) → repository_laws.day_column (day_of e) ≡ event_day e
unfolding laws
days_dated e = day_column-day_of sql laws (noon 9) (λ t. refl) e

pub months_dated :
    (e : Event) → IsDated e → repository_laws.month_column (month_of e) ≡ month_date_of e
unfolding laws
months_dated e r = month_column-month_of sql laws (noon 9) (λ t. refl) e r

pub noon_month : (month_start (noon 7)).nanos ≡ zero_nanos
unfolding month_start midnight date_of civil year_of Civil.month_of days_before days_before_year
    Civil.days_before_month
noon_month = refl

pub call-IsDated : (id seconds : ℕ) → IsDated (call id 7 seconds)
unfolding month_start
call-IsDated id seconds = (
  record { offset = omega arith; late = omega arith },
  record { offset = omega arith; late = omega (arith, noon_month) },
)

-- A context that is not done makes no upsert fail.
pub days_done :
    (text : String) (items : List Aggregate) (db : Tables)
    → (db' : Tables) × (upsert_all text repository.upsert_day_aggregation none items db
        ≡ (db', none))
unfolding upsert_all upsert_day_aggregation
days_done text [] db = (db, refl)
days_done text (a ∷ items) db = days_done text items _

pub months_done :
    (text : String) (items : List Aggregate) (db : Tables)
    → (db' : Tables) × (upsert_all text repository.upsert_month_aggregation none items db
        ≡ (db', none))
unfolding upsert_all upsert_month_aggregation
months_done text [] db = (db, refl)
months_done text (a ∷ items) db = months_done text items _
