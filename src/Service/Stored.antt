-- ===== src/Service/Stored.antt =====
-- What the program of cmd/aggregator/main.go has stored once its goroutines are at rest.
use mathlib.Core.List.{Perm}
use mathlib.Core.List.{append-nil}
use network_actions_aggregat.Prelude.{◌≡◌, sym, ap, subst, ◌∙◌, List, [], ◌++◌, select, All}
use network_actions_aggregat.Clock.Text.{Text}
use network_actions_aggregat.Entity.{Event, EventType}
use network_actions_aggregat.Package.{UuidPackage, TimePackage, JsonPackage}
use network_actions_aggregat.Message.{KafkaEventMessage}
use network_actions_aggregat.Aggregation.Sums.{plus, wrap, sum_of}
use network_actions_aggregat.Buffer.{Aggregate, day_of, month_of}
use network_actions_aggregat.Buffer.Streams.{is_at, event_day, event_month}
use network_actions_aggregat.Buffer.Dates.{IsDated, month_date, month_date_of}
use network_actions_aggregat.Repository.{EventRepository, AggregationRepository, AggregationLaws}
use network_actions_aggregat.Aggregator.{Config}
use network_actions_aggregat.Aggregator.System.Conservation.{quiet_lem}
use network_actions_aggregat.Service.{Service, Reached}
use network_actions_aggregat.Service.Served.{Picks, run-IsServed}

-- No event waits in the channel or in the buffers, every loop of upserts has ended, and so far no upsert
-- failed and no period was recounted.
pub record IsQuiet {Db : Type 0} (p : Service Db) : Type 0 where
  pub queue : p.feed.queue ≡ []
  pub loops : p.system.loops ≡ []
  pub buffered : p.system.buffered ≡ []
  pub lost_days : p.system.lost_days ≡ []
  pub lost_months : p.system.lost_months ≡ []
  pub recounted_days : p.system.recounted_days ≡ []
  pub recounted_months : p.system.recounted_months ≡ []

module _ (uuid : UuidPackage) (times : TimePackage) (json : JsonPackage KafkaEventMessage)
    {Db : Type 0} (order : List Aggregate → List Aggregate) (events : EventRepository Db)
    (repo : AggregationRepository Db) (laws : AggregationLaws repo) (config : Config) (db0 : Db)
    (k : Text) (ty : EventType) where
  open laws use {day_column, month_column, day_cells, month_cells}

  -- From the topic to the tables of aggregates: over a storage that keeps the laws of the repository, once no
  -- event waits in the channel or in the buffers and every loop of upserts has ended, with no upsert failed
  -- and no period recounted, the cell of each day, and the cell of the date of the first day of each month,
  -- has grown, modulo 2^64, by the exact sums over the events of that day or month that were counted, which
  -- are some of those that the consumer sent, in order and none twice. The maps are ranged over in some
  -- order, the events that were counted start at times that RFC 3339 can carry, and the storage keeps a day
  -- under its own date and the month of such an event under the date of the month's first day.
  pub run-quiet :
      ((l : List Aggregate) → Perm (order l) l)
      → ((e : Event) → day_column (day_of e) ≡ event_day e)
      → ((e : Event) → IsDated e → month_column (month_of e) ≡ month_date_of e)
      → (p : Service Db) → Reached uuid times json order events repo config db0 p
      → All IsDated p.system.taken
      → IsQuiet p
      → Picks p.system.taken p.feed.consumer.sent
        × ((day_cells p.system.db k ty
              ≡ wrap (
                  plus
                    (day_cells db0 k ty)
                    (sum_of (select (is_at event_day k ty) p.system.taken))))
            × (month_cells p.system.db (month_date k) ty
                ≡ wrap (
                    plus
                      (month_cells db0 (month_date k) ty)
                      (sum_of (select (is_at event_month k ty) p.system.taken)))))
  run-quiet perm cd cm p r dated q =
      let v = run-IsServed uuid times json order events repo config db0 p r in
      (
        subst (Picks p.system.taken)
            (sym (v.handed ∙ (ap (λ es. p.received ++ es) q.queue ∙ append-nil p.received)))
            v.picked,
        quiet_lem uuid order events repo laws config db0 k ty perm cd cm p.system v.runs dated
            q.loops q.buffered q.lost_days q.lost_months q.recounted_days q.recounted_months,
      )
