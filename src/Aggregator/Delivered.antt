-- ===== src/Aggregator/Delivered.antt =====
-- `processEvents` from a new use case to the end of its channel: deliveries, buffers, flush and storage.
use mathlib.Core.List.{Perm}
use network_actions_aggregat.Prelude.{
  ◌≡◌, refl, sym, subst, ap, ◌∙◌, none, List, [], ◌∷◌, foldl, select, All,
}
use network_actions_aggregat.Clock.{Time}
use network_actions_aggregat.Clock.Text.{Text}
use network_actions_aggregat.Entity.{Event, EventType}
use network_actions_aggregat.Aggregation.Sums.{plus, wrap, sum_of, plus-wrap}
use network_actions_aggregat.Buffer.{Aggregate, Buffer, add_day, add_month, day_of, month_of}
use network_actions_aggregat.Buffer.Streams.{is_at, event_day, event_month}
use network_actions_aggregat.Buffer.Dates.{IsDated, day_date, month_date, month_date_of}
use network_actions_aggregat.Repository.{Context, AggregationRepository, AggregationLaws}
use network_actions_aggregat.Package.{UuidPackage, ReadsBack}
use network_actions_aggregat.Aggregator.{
  Config, Aggregator, new, flush_buffers, Arrival, arrived, closed, returned, process_events,
}
use network_actions_aggregat.Aggregator.Dedup.{
  Timed, first_seen, events_of, process_all, totals-process_all, buffers-process_all, new-Remembers,
}
use network_actions_aggregat.Aggregator.Keyed.{IsKeyed, add_event-IsKeyed}
use network_actions_aggregat.Aggregator.Flush.{flush_buffers-stores}

-- The channel of events as the loop sees it, up to its end.
abbrev pub until_closed : Context → List Timed → List Arrival
until_closed ctx [] = closed ctx ∷ []
until_closed ctx ((marked, seen, e) ∷ rest) = arrived marked seen e ∷ until_closed ctx rest

pub foldl-IsKeyed_days :
    (column : Time → Text)
    → ((e : Event) → column (day_of e) ≡ event_day e)
    → (es : List Event) (b : Buffer) → IsKeyed column day_date b
    → IsKeyed column day_date (foldl add_day b es)
unfolding add_day
foldl-IsKeyed_days column c [] b v = v
foldl-IsKeyed_days column c (e ∷ es) b v =
    foldl-IsKeyed_days column c es _
      (add_event-IsKeyed column day_date (event_day e) (day_of e) e b (c e) v)

pub foldl-IsKeyed_months :
    (column : Time → Text)
    → ((e : Event) → IsDated e → column (month_of e) ≡ month_date_of e)
    → (es : List Event) (b : Buffer) → All IsDated es
    → IsKeyed column month_date b
    → IsKeyed column month_date (foldl add_month b es)
unfolding add_month
foldl-IsKeyed_months column c [] b d v = v
foldl-IsKeyed_months column c (e ∷ es) b d v =
    foldl-IsKeyed_months column c es _ d.1
      (add_event-IsKeyed column month_date (event_month e) (month_of e) e b (c e d.0) v)

pub empty-IsKeyed : (column : Time → Text) (f : Text → Text) → IsKeyed column f []
empty-IsKeyed column f = record { entries = tt; keys = tt }

module _ {Db : Type 0} (uuid : UuidPackage) (order : List Aggregate → List Aggregate)
    (repo : AggregationRepository Db) where
  pub process_events-until_closed :
      (ctx : Context) (xs : List Timed) (uc : Aggregator) (db : Db)
      → let r = flush_buffers order repo ctx (process_all uuid xs uc) db in
        process_events uuid order repo (until_closed ctx xs) uc db ≡ (r.0, r.1, returned none)
  unfolding process_events process_all
  process_events-until_closed ctx [] uc db = refl
  process_events-until_closed ctx ((marked, seen, e) ∷ rest) uc db =
      process_events-until_closed ctx rest _ db

  module _ (laws : AggregationLaws repo) (config : Config) where
    open laws use {day_column, month_column, day_cells, month_cells}

    -- Over a storage that keeps the laws of the repository, from a new use case to the end of the channel,
    -- with a last flush that returns no error: the cell of every day, and the cell of the date of the first
    -- day of every month, grows, modulo 2^64, by the exact sums over the first delivery of each event id
    -- whose event has that day or that month and that type. The ids' texts are readable back, the maps are
    -- ranged over in some order, the events start at times that RFC 3339 can carry, and the storage keeps a
    -- day under its own date and the month of such an event under the date of the month's first day.
    pub process_events-delivers :
        ReadsBack uuid
        → ((l : List Aggregate) → Perm (order l) l)
        → ((e : Event) → day_column (day_of e) ≡ event_day e)
        → ((e : Event) → IsDated e → month_column (month_of e) ≡ month_date_of e)
        → (ctx : Context) (xs : List Timed) (db : Db) → All IsDated (first_seen [] (events_of xs))
        → (flush_buffers order repo ctx (process_all uuid xs (new config)) db).2 ≡ none
        → (k : Text) (ty : EventType)
        → let db' = (process_events uuid order repo (until_closed ctx xs) (new config) db).1 in
          let es = first_seen [] (events_of xs) in
          (day_cells db' k ty
            ≡ wrap (plus (day_cells db k ty) (sum_of (select (is_at event_day k ty) es))))
          × (month_cells db' (month_date k) ty
              ≡ wrap (
                  plus
                    (month_cells db (month_date k) ty)
                    (sum_of (select (is_at event_month k ty) es))))
    unfolding new
    process_events-delivers r perm cd cm ctx xs db dated h k ty =
        let es = first_seen [] (events_of xs) in
        let j = month_date k in
        let uc = process_all uuid xs (new config) in
        let b = buffers-process_all uuid r xs [] (new config) (new-Remembers uuid config) in
        let t = totals-process_all uuid r config xs k ty in
        let vd =
          subst (IsKeyed day_column day_date) (sym b.0)
            (foldl-IsKeyed_days day_column cd es [] (empty-IsKeyed day_column day_date)) in
        let vm = subst (IsKeyed month_column month_date) (sym b.1) (
          foldl-IsKeyed_months month_column cm es [] dated
            (empty-IsKeyed month_column month_date)) in
        let s = flush_buffers-stores order repo laws ctx k ty uc db perm vd vm h in
        let e = process_events-until_closed ctx xs (new config) db in
        (
          ap (λ q. day_cells q.1 k ty) e
              ∙ (s.1 ∙ (ap (λ x. wrap (plus (day_cells db k ty) x)) t.0 ∙ plus-wrap _ _)),
          ap (λ q. month_cells q.1 j ty) e
              ∙ (s.2 ∙ (ap (λ x. wrap (plus (month_cells db j ty) x)) t.1 ∙ plus-wrap _ _)),
        )
