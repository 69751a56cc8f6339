-- ===== src/Aggregator.antt =====
-- internal/usecase/aggregate_events.go: the use case's state and its operations. Each reading of the
-- clock is an argument; the log lines are left out.
pub mod Dedup
pub mod Invariant
pub mod Cleanup
pub mod Lateness
pub mod Upserts
pub mod Keyed
pub mod Flush
pub mod Losses
pub mod Shutdown
pub mod Delivered
pub mod Reconcile
pub mod System
use network_actions_aggregat.Prelude.{
  ℕ, ◌-◌, ◌*◌, String, Bool, true, false, not, ◌&&◌, Option, none, some, List, [], ◌∷◌, ◌++◌, ltb,
  leb, length, foldl, map, string_eq, if◌then◌else◌,
}
use network_actions_aggregat.Dict.{Dict, lookup, insert, retain}
use network_actions_aggregat.Clock
use network_actions_aggregat.Clock.{Time, before, add, hour, truncate_day, month_start}
use network_actions_aggregat.Entity.{Event}
use network_actions_aggregat.Entity.Errors.{Error, ok, err, errorf, context_canceled}
use network_actions_aggregat.Buffer.{
  Aggregate, Types, Buffer, accumulate, add_day, add_month, aggregates,
}
use network_actions_aggregat.Repository.{Context, Upsert, EventRepository, AggregationRepository}
use network_actions_aggregat.Package.{UuidPackage}

-- Durations in nanoseconds, not negative; a size that is not positive is 0 here.
pub record Config : Type 0 where
  pub streaming_flush_interval : ℕ
  pub late_event_threshold : ℕ
  pub dirty_period_channel_size : ℕ

pub record DirtyPeriod : Type 0 where
  pub day : Option Time
  pub month : Option Time

-- `dirty_periods` is the buffered channel, oldest first; `channel_size` is its capacity.
pub record Aggregator : Type 0 where
  pub config : Config
  pub day_buffer : Buffer
  pub month_buffer : Buffer
  pub dirty_periods : List DirtyPeriod
  pub channel_size : ℕ
  pub processed_events : Dict String Time

-- `NewAggregateEventsUseCase`.
unfoldable pub new : Config → Aggregator
new config =
    let size =
      if leb config.dirty_period_channel_size 0 then 1000 else config.dirty_period_channel_size in
    record {
      config = record config { dirty_period_channel_size = size };
      day_buffer = [];
      month_buffer = [];
      dirty_periods = [];
      channel_size = size;
      processed_events = [];
    }

-- `isLateEvent`: `time.Since` is negative for an event of the future, which is not late.
unfoldable pub is_late_event : Time → Aggregator → Event → Bool
is_late_event now uc e = ltb uc.config.late_event_threshold (now.nanos - e.started_at.nanos)

-- `select { case ch <- p: default: }`: a send that does not block, and drops the period if the channel
-- is full.
unfoldable pub try_send : ℕ → DirtyPeriod → List DirtyPeriod → List DirtyPeriod
try_send size p channel = if ltb (length channel) size then channel ++ p ∷ [] else channel

-- The day and the month of an event.
unfoldable pub period_of : Event → DirtyPeriod
period_of e = record {
  day = some (truncate_day e.started_at);
  month = some (month_start e.started_at);
}

-- `markDirty`.
unfoldable pub mark_dirty : Aggregator → Event → Aggregator
mark_dirty uc e = record uc {
  dirty_periods = try_send uc.channel_size (period_of e) uc.dirty_periods;
}

-- `addToBuffer`.
unfoldable pub add_to_buffer : Aggregator → Event → Aggregator
add_to_buffer uc e = record uc {
  day_buffer = add_day uc.day_buffer e;
  month_buffer = add_month uc.month_buffer e;
}

abbrev is_some {ℓ} : {A : Type ℓ} → Option A → Bool
is_some none = false
is_some (some a) = true

-- `cleanupProcessedEvents`: entries of more than an hour ago go.
unfoldable pub cleanup_processed_events : Time → Aggregator → Aggregator
cleanup_processed_events now uc = record uc {
  processed_events =
      retain (λ t. not (before t (record now { nanos = now.nanos - hour }))) uc.processed_events;
}

module _ (uuid : UuidPackage) where
  -- `isDuplicate`.
  unfoldable pub is_duplicate : Aggregator → Event → Bool
  is_duplicate uc e = is_some (lookup (uuid.string e.event_id) uc.processed_events)

  -- `markProcessed`.
  unfoldable pub mark_processed : Time → Aggregator → Event → Aggregator
  mark_processed now uc e = record uc {
    processed_events = insert (uuid.string e.event_id) now uc.processed_events;
  }

  -- The event case of the loop in `processEvents`; the clock is read twice.
  unfoldable pub process_event : Time → Time → Aggregator → Event → Aggregator
  process_event marked seen uc e =
      if is_duplicate uc e
      then uc
      else (let uc' = mark_processed marked uc e in
          add_to_buffer (if is_late_event seen uc' e then mark_dirty uc' e else uc') e)

abbrev pub is_empty {ℓ} : {A : Type ℓ} → List A → Bool
is_empty [] = true
is_empty (x ∷ xs) = false

-- The recount of `reconcileDay` and `reconcileMonth`: the sums of each type, from nothing.
unfoldable pub recount : Time → List Event → Types
recount start = foldl (λ types e. accumulate start e types) []

-- The receive of `runReconciliation`: `none` while the channel is empty.
unfoldable pub receive_from : Aggregator → List DirtyPeriod → Option (DirtyPeriod × Aggregator)
receive_from uc [] = none
receive_from uc (p ∷ rest) = some (p, record uc { dirty_periods = rest })

unfoldable pub receive_period : Aggregator → Option (DirtyPeriod × Aggregator)
unfolding receive_from
receive_period uc = receive_from uc uc.dirty_periods

module _ {Db : Type 0} where
  -- `if err := …; err != nil { return fmt.Errorf("…: %w", err) }`, and what follows otherwise.
  abbrev pub and_then : String → Db × Option Error → (Db → Db × Option Error) → Db × Option Error
  and_then text (db, none) next = next db
  and_then text (db, some e) next = (db, some (errorf text e))

  -- A loop of upserts over aggregates.
  unfoldable pub upsert_all : String → Upsert Db → Context → List Aggregate → Db → Db × Option Error
  upsert_all text upsert ctx [] db = (db, none)
  upsert_all text upsert ctx (a ∷ rest) db =
      and_then text
        (upsert ctx a.period a.event_type a.totals.count_events a.totals.sum_duration
          a.totals.sum_bytes_up a.totals.sum_bytes_down db)
        (λ db'. upsert_all text upsert ctx rest db')

  -- `then` without a text of its own: the error is returned as it is.
  abbrev pub then_also : Db × Option Error → (Db → Db × Option Error) → Db × Option Error
  then_also (db, none) next = next db
  then_also (db, some e) next = (db, some e)

  -- `flushBuffers`. `order` is the order in which the two nested `range` loops meet the aggregates.
  unfoldable pub flush_buffers :
      (List Aggregate → List Aggregate)
      → AggregationRepository Db
      → Context
      → Aggregator
      → Db
      → Aggregator × Db × Option Error
  flush_buffers order repo ctx uc db =
      let empty = record uc { day_buffer = []; month_buffer = [] } in
      if is_empty uc.day_buffer && is_empty uc.month_buffer
      then (empty, db, none)
      else (let (db', e) =
            then_also
              (upsert_all "failed to upsert day aggregation" repo.upsert_day_aggregation ctx
                (order (aggregates uc.day_buffer)) db)
              (upsert_all "failed to upsert month aggregation" repo.upsert_month_aggregation ctx
                (order (aggregates uc.month_buffer))) in
          (empty, db', e))

  -- `reconcileDay`.
  unfoldable pub reconcile_day :
      (List Aggregate → List Aggregate)
      → EventRepository Db
      → AggregationRepository Db
      → Context
      → Time
      → Time
      → Db
      → Db × Option Error
  reconcile_day order events repo ctx start end db =
      elim (events.get_by_time_range ctx start end db) [
        | err e ↦ (db, some (errorf "failed to get events for reconciliation" e))
        | ok es ↦
            upsert_all "failed to upsert day aggregation during reconciliation"
              repo.upsert_day_aggregation ctx (order (map (λ p. p.1) (recount start es))) db
      ]

  -- `reconcileMonth`.
  unfoldable pub reconcile_month :
      (List Aggregate → List Aggregate)
      → EventRepository Db
      → AggregationRepository Db
      → Context
      → Time
      → Time
      → Db
      → Db × Option Error
  reconcile_month order events repo ctx start end db =
      elim (events.get_by_time_range ctx start end db) [
        | err e ↦ (db, some (errorf "failed to get events for reconciliation" e))
        | ok es ↦
            upsert_all "failed to upsert month aggregation during reconciliation"
              repo.upsert_month_aggregation ctx (order (map (λ p. p.1) (recount start es))) db
      ]

  -- One round of `runReconciliation` for a period taken from the channel: an error is logged only.
  unfoldable pub reconcile_period :
      (List Aggregate → List Aggregate)
      → EventRepository Db
      → AggregationRepository Db
      → Context
      → DirtyPeriod
      → Db
      → Db
  reconcile_period order events repo ctx p db =
      let after_day : Db = elim p.day [
        | none ↦ db
        | some t ↦ (reconcile_day order events repo ctx t (add t (24 * hour)) db).0
      ] in
      elim p.month [
        | none ↦ after_day
        | some t ↦ (reconcile_month order events repo ctx t (Clock.add_month t) after_day).0
      ]

-- What the `select` of `processEvents` sees: the context is done, the channel is closed, with the
-- context of the flush that follows, or an event
-- with the two clock readings that follow it.
pub data Arrival : Type 0 where
  done : Arrival
  closed : Context → Arrival
  arrived : Time → Time → Event → Arrival

pub data Progress : Type 0 where
  running : Progress
  returned : Option Error → Progress

-- `processEvents`: both exits flush the buffers first, and only log an error of the flush.
unfoldable pub process_events :
    {Db : Type 0}
    → UuidPackage
    → (List Aggregate → List Aggregate)
    → AggregationRepository Db
    → List Arrival
    → Aggregator
    → Db
    → Aggregator × Db × Progress
process_events uuid order repo [] uc db = (uc, db, running)
process_events uuid order repo (done ∷ rest) uc db =
    let (uc', db', e) = flush_buffers order repo (some context_canceled) uc db in
    (uc', db', returned (some context_canceled))
process_events uuid order repo (closed ctx ∷ rest) uc db =
    let (uc', db', e) = flush_buffers order repo ctx uc db in (uc', db', returned none)
process_events uuid order repo (arrived marked seen e ∷ rest) uc db =
    process_events uuid order repo rest (process_event uuid marked seen uc e) db
