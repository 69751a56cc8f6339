-- ===== src/Aggregator/Shutdown.antt =====
-- `processEvents` when its context is done, over a storage that refuses an upsert with such a context.
use network_actions_aggregat.Prelude.{
  ℕ, ◌≡◌, refl, ◌∙◌, inl, inr, ◌&&◌, Option, none, some, List, [], ◌∷◌, String, Bool-cases, arith,
}
use network_actions_aggregat.Clock.{Time}
use network_actions_aggregat.Clock.Text.{Text}
use network_actions_aggregat.Entity.{EventType}
use network_actions_aggregat.Entity.Errors.{Error, context_canceled}
use network_actions_aggregat.Buffer.{Aggregate, aggregates}
use network_actions_aggregat.Package.{UuidPackage}
use network_actions_aggregat.Repository.{
  Context, Cells, Upsert, IsUpsert, AggregationRepository, AggregationLaws,
}
use network_actions_aggregat.Aggregator.{
  Aggregator, and_then, then_also, is_empty, upsert_all, flush_buffers, Arrival, arrived, done,
  Progress, returned, process_events,
}
use network_actions_aggregat.Aggregator.Dedup.{Timed, process_all}
use network_actions_aggregat.Aggregator.Flush.{emptied}
use network_actions_aggregat.Aggregator.Delivered.{until_closed, process_events-until_closed}

-- An upsert gives an error when its context is done.
abbrev pub UpsertRefuses : {Db : Type 0} → Upsert Db → Type 0
UpsertRefuses {Db} upsert =
    (x : Error) (t : Time) (ty : EventType) (c d u w : ℕ) (db : Db)
    → (upsert (some x) t ty c d u w db).1 ≡ none
    → ⊥

-- The channel of events as the loop sees it, until its context is done.
abbrev pub until_done : List Timed → List Arrival
until_done [] = done ∷ []
until_done ((marked, seen, e) ∷ rest) = arrived marked seen e ∷ until_done rest

module _ {Db : Type 0} (upsert : Upsert Db) (column : Time → Text) (cells other : Db → Cells)
    (u : IsUpsert upsert column cells other) (refuses : UpsertRefuses upsert) (text : String)
    (x : Error) where
  abbrev Same : Db → Db → Type 0
  Same db db' =
      (k : Text) (ty : EventType)
      → (cells db' k ty ≡ cells db k ty) × (other db' k ty ≡ other db k ty)

  first-Same :
      (a : Aggregate) (r : Db × Option Error) (next : Db → Db × Option Error) (db : Db)
      → ((db' : Db) (e : Error) → r ≡ (db', some e) → Same db db')
      → (r.1 ≡ none → ⊥)
      → Same db (and_then text r next).0
  first-Same a (db', none) next db f n = absurd (n refl)
  first-Same a (db', some e) next db f n = f db' e refl

  upsert_all-Same :
      (items : List Aggregate) (db : Db) → Same db (upsert_all text upsert (some x) items db).0
  unfolding upsert_all
  upsert_all-Same [] db = λ k ty. (refl, refl)
  upsert_all-Same (a ∷ items) db =
      first-Same a _ _ db (λ db' e h. u.failed (some x) a.period a.event_type a.totals db db' e h)
        (refuses x a.period a.event_type a.totals.count_events a.totals.sum_duration
          a.totals.sum_bytes_up a.totals.sum_bytes_down db)

module _ {Db : Type 0} (uuid : UuidPackage) (order : List Aggregate → List Aggregate)
    (repo : AggregationRepository Db) (laws : AggregationLaws repo)
    (day_refuses : UpsertRefuses repo.upsert_day_aggregation)
    (month_refuses : UpsertRefuses repo.upsert_month_aggregation) where
  open laws use {day_column, month_column, day_cells, month_cells, day_upsert, month_upsert}

  abbrev pub AllSame : Db → Db → Type 0
  AllSame db db' =
      (k : Text) (ty : EventType)
      → (day_cells db' k ty ≡ day_cells db k ty) × (month_cells db' k ty ≡ month_cells db k ty)

  days_then_months :
      (db : Db) (r : Db × Option Error) (next : Db → Db × Option Error)
      → AllSame db r.0
      → ((db' : Db) → AllSame db' (next db').0)
      → AllSame db (then_also r next).0
  days_then_months db (db', none) next s n =
      λ k ty. ((n db' k ty).0 ∙ (s k ty).0, (n db' k ty).1 ∙ (s k ty).1)
  days_then_months db (db', some e) next s n = s

  -- The two loops of a flush.
  abbrev loops : Context → List Aggregate → List Aggregate → Db → Db × Option Error
  loops ctx days months db =
      then_also
        (upsert_all "failed to upsert day aggregation" repo.upsert_day_aggregation ctx days db)
        (upsert_all "failed to upsert month aggregation" repo.upsert_month_aggregation ctx months)

  months-AllSame :
      (x : Error) (months : List Aggregate) (db : Db)
      → AllSame db
          (upsert_all "failed to upsert month aggregation" repo.upsert_month_aggregation
            (some x)
            months
            db).0
  months-AllSame x months db k ty =
      let s =
        upsert_all-Same repo.upsert_month_aggregation month_column month_cells day_cells
          month_upsert month_refuses "failed to upsert month aggregation" x months db k ty in
      (s.1, s.0)

  loops-AllSame :
      (x : Error) (days months : List Aggregate) (db : Db)
      → AllSame db (loops (some x) days months db).0
  loops-AllSame x days months db =
      days_then_months db
        (upsert_all "failed to upsert day aggregation" repo.upsert_day_aggregation (some x) days db)
        (upsert_all "failed to upsert month aggregation" repo.upsert_month_aggregation (some x)
          months)
        (upsert_all-Same repo.upsert_day_aggregation day_column day_cells month_cells day_upsert
          day_refuses "failed to upsert day aggregation" x days db)
        (months-AllSame x months)

  flush_buffers-AllSame :
      (x : Error) (uc : Aggregator) (db : Db)
      → AllSame db (flush_buffers order repo (some x) uc db).1
  unfolding flush_buffers
  flush_buffers-AllSame x uc db k ty =
      elim (Bool-cases (is_empty uc.day_buffer && is_empty uc.month_buffer)) [
        | inl nothing ↦ rw nothing (refl, refl)
        | inr some_left ↦ rw some_left (
            loops-AllSame x (order (aggregates uc.day_buffer)) (order (aggregates uc.month_buffer))
              db k ty)
      ]

  process_events-until_done :
      (xs : List Timed) (uc : Aggregator) (db : Db)
      → let r = flush_buffers order repo (some context_canceled) (process_all uuid xs uc) db in
        process_events uuid order repo (until_done xs) uc db
        ≡ (r.0, r.1, returned (some context_canceled))
  unfolding process_events process_all
  process_events-until_done [] uc db = refl
  process_events-until_done ((marked, seen, e) ∷ rest) uc db = process_events-until_done rest _ db

  flush_buffers-emptied :
      (ctx : Context) (uc : Aggregator) (db : Db)
      → (flush_buffers order repo ctx uc db).0 ≡ emptied uc
  unfolding flush_buffers
  flush_buffers-emptied ctx uc db = ground arith

  -- What `processEvents` leaves when it returns `o`: empty buffers, and a storage without their sums.
  abbrev pub Loses :
      List Timed → Aggregator → Db → Option Error → Aggregator × Db × Progress → Type 0
  Loses xs uc db o r =
      (r.0 ≡ emptied (process_all uuid xs uc)) × ((r.2 ≡ returned o) × AllSame db r.1)

  -- Over a storage that keeps the laws of the repository and whose upserts refuse a context that is done:
  -- at both exits of `processEvents`, when it sees that its context is done and when it finds the channel
  -- closed while the context is done, it returns with empty buffers and has stored none of the sums that were
  -- in them, whatever events came before; every cell of the storage is as it was.
  pub process_events-Loses :
      (xs : List Timed) (x : Error) (uc : Aggregator) (db : Db)
      → Loses xs uc db
          (some context_canceled)
          (process_events uuid order repo (until_done xs) uc db)
        × Loses xs uc db none (process_events uuid order repo (until_closed (some x) xs) uc db)
  process_events-Loses xs x uc db = (
    rw (process_events-until_done xs uc db) (
      flush_buffers-emptied (some context_canceled) (process_all uuid xs uc) db,
      (refl, flush_buffers-AllSame context_canceled (process_all uuid xs uc) db),
    ),
    rw (process_events-until_closed uuid order repo (some x) xs uc db) (
      flush_buffers-emptied (some x) (process_all uuid xs uc) db,
      (refl, flush_buffers-AllSame x (process_all uuid xs uc) db),
    ),
  )
