-- ===== src/Aggregator/System.antt =====
-- internal/usecase/aggregate_events.go: the goroutines of `AggregateEvents` in any order, one upsert at a
-- time. A step under a lock, a read of the storage and an upsert are steps of the relation.
pub mod Account
pub mod Balance
pub mod Balanced
pub mod Conservation
use network_actions_aggregat.Prelude.{
  ℕ, ◌*◌, ◌≡◌, Bool, true, false, Option, none, some, List, [], ◌∷◌, ◌++◌, map, if◌then◌else◌,
}
use network_actions_aggregat.Clock
use network_actions_aggregat.Clock.{Time, add, hour}
use network_actions_aggregat.Entity.{Event}
use network_actions_aggregat.Entity.Errors.{Error, Result, ok, err}
use network_actions_aggregat.Buffer.{Aggregate, aggregates}
use network_actions_aggregat.Repository.{Context, Upsert, EventRepository, AggregationRepository}
use network_actions_aggregat.Package.{UuidPackage}
use network_actions_aggregat.Aggregator.{
  Config, DirtyPeriod, Aggregator, new, is_duplicate, process_event, cleanup_processed_events,
  receive_period, recount,
}

-- The goroutine of `runReconciliation`: it waits for a period, has one whose day or whose month is to be
-- recounted next, or is in a loop of upserts.
pub data Worker : Type 0 where
  idle busy : Worker
  day_due : DirtyPeriod → Worker
  month_due : Option Time → Worker

-- The loops of upserts that are under way, of a flush or of the reconciliation, by the aggregates that are
-- left to them; `next` is where the reconciliation goes on after its loop.
pub record Loop : Type 0 where
  pub days : List Aggregate
  pub months : List Aggregate
  pub next : Option Worker

-- Besides the state, what has happened: the events that were added to the buffers, those of them since
-- the last swap, the aggregates that were recounted and those that a failed loop gave up.
pub record System (Db : Type 0) : Type 0 where
  pub uc : Aggregator
  pub db : Db
  pub loops : List Loop
  pub worker : Worker
  pub taken : List Event
  pub buffered : List Event
  pub recounted_days : List Aggregate
  pub recounted_months : List Aggregate
  pub lost_days : List Aggregate
  pub lost_months : List Aggregate

unfoldable pub initial : {Db : Type 0} → Config → Db → System Db
initial config db = record {
  uc = new config;
  db = db;
  loops = [];
  worker = idle;
  taken = [];
  buffered = [];
  recounted_days = [];
  recounted_months = [];
  lost_days = [];
  lost_months = [];
}

-- An upsert of an aggregate.
abbrev pub upsert_one : {Db : Type 0} → Upsert Db → Context → Aggregate → Db → Db × Option Error
upsert_one upsert ctx a db =
    upsert ctx a.period a.event_type a.totals.count_events a.totals.sum_duration
      a.totals.sum_bytes_up a.totals.sum_bytes_down db

abbrev pub resume : Option Worker → Worker → Worker
resume none w = w
resume (some v) w = v

abbrev pub counted : Bool → Event → List Event → List Event
counted duplicate e es = if duplicate then es else es ++ e ∷ []

-- The system after an event case of `processEvents`.
abbrev pub after_event : {Db : Type 0} → UuidPackage → Time → Time → Event → System Db → System Db
after_event uuid marked seen e s = record s {
  uc = process_event uuid marked seen s.uc e;
  taken = counted (is_duplicate uuid s.uc e) e s.taken;
  buffered = counted (is_duplicate uuid s.uc e) e s.buffered;
}

-- The system after the swap in `flushBuffers`, with the loops that follow it.
abbrev pub after_swap : {Db : Type 0} → (List Aggregate → List Aggregate) → System Db → System Db
after_swap order s = record s {
  uc = record s.uc { day_buffer = []; month_buffer = [] };
  loops =
      record {
        days = order (aggregates s.uc.day_buffer);
        months = order (aggregates s.uc.month_buffer);
        next = none;
      }
      ∷ s.loops;
  buffered = [];
}

module _ {Db : Type 0} (uuid : UuidPackage) (order : List Aggregate → List Aggregate)
    (events : EventRepository Db) (repo : AggregationRepository Db) where
  pub data Step : System Db → System Db → Type 0 where
    -- An event case of `processEvents`, and the swap in `flushBuffers`.
    handle :
        {s : System Db} (marked seen : Time) (e : Event) → Step s (after_event uuid marked seen e s)
    swap : {s : System Db} → Step s (after_swap order s)
    -- An upsert of a day in a loop, and of a month if no day is left.
    put_day :
        {s : System Db} (ctx : Context) (a : Aggregate) (db : Db) (before : List Loop) (l : Loop)
        (after : List Loop)
        → s.loops ≡ before ++ record l { days = a ∷ l.days } ∷ after
        → upsert_one repo.upsert_day_aggregation ctx a s.db ≡ (db, none)
        → Step s (record s { db = db; loops = before ++ l ∷ after })
    put_month :
        {s : System Db} (ctx : Context) (a : Aggregate) (db : Db) (before : List Loop) (l : Loop)
        (after : List Loop)
        → s.loops ≡ before ++ record l { days = []; months = a ∷ l.months } ∷ after
        → upsert_one repo.upsert_month_aggregation ctx a s.db ≡ (db, none)
        → Step s (record s { db = db; loops = before ++ record l { days = [] } ∷ after })
    -- One that fails ends the loop.
    fail_day :
        {s : System Db} (ctx : Context) (a : Aggregate) (db : Db) (e : Error) (before : List Loop)
        (l : Loop) (after : List Loop)
        → s.loops ≡ before ++ record l { days = a ∷ l.days } ∷ after
        → upsert_one repo.upsert_day_aggregation ctx a s.db ≡ (db, some e)
        → Step s (record s {
          db = db;
          loops = before ++ after;
          worker = resume l.next s.worker;
          lost_days = a ∷ (l.days ++ s.lost_days);
          lost_months = l.months ++ s.lost_months;
        })
    fail_month :
        {s : System Db} (ctx : Context) (a : Aggregate) (db : Db) (e : Error) (before : List Loop)
        (l : Loop) (after : List Loop)
        → s.loops ≡ before ++ record l { days = []; months = a ∷ l.months } ∷ after
        → upsert_one repo.upsert_month_aggregation ctx a s.db ≡ (db, some e)
        → Step s (record s {
          db = db;
          loops = before ++ after;
          worker = resume l.next s.worker;
          lost_months = a ∷ (l.months ++ s.lost_months);
        })
    -- A loop without aggregates left ends.
    end :
        {s : System Db} (w : Option Worker) (before after : List Loop)
        → s.loops ≡ before ++ record { days = []; months = []; next = w } ∷ after
        → Step s (record s { loops = before ++ after; worker = resume w s.worker })
    -- `cleanupProcessedEvents`.
    cleanup :
        {s : System Db} (now : Time) → Step s (record s { uc = cleanup_processed_events now s.uc })
    -- `runReconciliation` receives a period.
    receive :
        {s : System Db} (p : DirtyPeriod) (uc : Aggregator)
        → s.worker ≡ idle
        → receive_period s.uc ≡ some (p, uc)
        → Step s (record s { uc = uc; worker = day_due p })
    -- `reconcileDay` reads the events of the day, or there is no day, or the read fails.
    read_day :
        {s : System Db} (ctx : Context) (p : DirtyPeriod) (t : Time) (es : List Event)
        → s.worker ≡ day_due p
        → p.day ≡ some t
        → events.get_by_time_range ctx t (add t (24 * hour)) s.db ≡ ok es
        → Step s (record s {
          loops =
              record {
                days = order (map (λ q. q.1) (recount t es));
                months = [];
                next = some (month_due p.month);
              }
              ∷ s.loops;
          worker = busy;
          recounted_days = order (map (λ q. q.1) (recount t es)) ++ s.recounted_days;
        })
    no_day :
        {s : System Db} (p : DirtyPeriod)
        → s.worker ≡ day_due p
        → p.day ≡ none
        → Step s (record s { worker = month_due p.month })
    unread_day :
        {s : System Db} (ctx : Context) (p : DirtyPeriod) (t : Time) (e : Error)
        → s.worker ≡ day_due p
        → p.day ≡ some t
        → events.get_by_time_range ctx t (add t (24 * hour)) s.db ≡ err e
        → Step s (record s { worker = month_due p.month })
    -- `reconcileMonth`.
    read_month :
        {s : System Db} (ctx : Context) (t : Time) (es : List Event)
        → s.worker ≡ month_due (some t)
        → events.get_by_time_range ctx t (Clock.add_month t) s.db ≡ ok es
        → Step s (record s {
          loops =
              record { days = []; months = order (map (λ q. q.1) (recount t es)); next = some idle }
              ∷ s.loops;
          worker = busy;
          recounted_months = order (map (λ q. q.1) (recount t es)) ++ s.recounted_months;
        })
    no_month : {s : System Db} → s.worker ≡ month_due none → Step s (record s { worker = idle })
    unread_month :
        {s : System Db} (ctx : Context) (t : Time) (e : Error)
        → s.worker ≡ month_due (some t)
        → events.get_by_time_range ctx t (Clock.add_month t) s.db ≡ err e
        → Step s (record s { worker = idle })

  pub data Run (config : Config) (db : Db) : System Db → Type 0 where
    here : Run config db (initial config db)
    next : {s s' : System Db} → Run config db s → Step s s' → Run config db s'

  -- A step that is not an event case of `processEvents`.
  abbrev pub IsInternal : {s s' : System Db} → Step s s' → Type 0
  IsInternal (handle marked seen e) = ⊥
  IsInternal x = Unit
