-- ===== src/Aggregator/System/Balanced.antt =====
-- The accounts of the aggregator's state, and what an event and a swap of the buffers do to them.
use mathlib.Core.List.{Perm}
use network_actions_aggregat.Prelude.{
  ◌≡◌, refl, sym, ap, subst, ◌∙◌, none, some, List, [], ◌∷◌, foldl, arith, if◌then◌else◌, All, Bool,
  true, false, select,
}
use network_actions_aggregat.Clock.{Time}
use network_actions_aggregat.Clock.Text.{Text}
use network_actions_aggregat.Entity.{Event, EventType}
use network_actions_aggregat.Aggregation.{Totals, no_totals}
use network_actions_aggregat.Aggregation.Sums.{plus, wrap, sum_of, zero_plus, plus_zero, wrap-plus}
use network_actions_aggregat.Buffer.{
  Aggregate, Buffer, add_day, add_month, day_of, month_of, aggregates, totals_at,
}
use network_actions_aggregat.Buffer.Streams.{event_day, totals_at-add_days, totals_at-add_months}
use network_actions_aggregat.Buffer.Dates.{
  Separates, IsDated, day_date, day_date-Separates, month_date, month_date-Separates, month_date_of,
  is_at-month_date,
}
use network_actions_aggregat.Repository.{
  Context, EventRepository, AggregationRepository, AggregationLaws, Cells, Upsert, IsUpsert,
}
use network_actions_aggregat.Package.{UuidPackage}
use network_actions_aggregat.Aggregator.{
  Config, Aggregator, DirtyPeriod, new, is_duplicate, process_event, receive_from, receive_period,
}
use network_actions_aggregat.Aggregator.Upserts.{share, sum_at, added-share}
use network_actions_aggregat.Aggregator.Keyed.{IsKeyed, sum_at-Perm, sum_at-aggregates}
use network_actions_aggregat.Aggregator.Dedup.{process_event-day, process_event-month, new-totals}
use network_actions_aggregat.Aggregator.Delivered.{
  foldl-IsKeyed_days, foldl-IsKeyed_months, empty-IsKeyed,
}
use network_actions_aggregat.Aggregator.System.{Loop, System, initial, upsert_one, counted}
use network_actions_aggregat.Aggregator.System.Balance.{foldl-counted}
use network_actions_aggregat.Aggregator.System.Account.{Account, Account-swap, Account-take}

-- A receive leaves the buffers alone.
receive_from-buffers :
    (uc : Aggregator) (ps : List DirtyPeriod) (p : DirtyPeriod) (uc' : Aggregator)
    → receive_from uc ps ≡ some (p, uc')
    → (uc'.day_buffer ≡ uc.day_buffer) × (uc'.month_buffer ≡ uc.month_buffer)
unfolding receive_from
receive_from-buffers uc [] p uc' h = absurd (cc)
receive_from-buffers uc (q ∷ ps) p uc' h = (ground (arith, h), ground (arith, h))

pub receive_period-buffers :
    (uc : Aggregator) (p : DirtyPeriod) (uc' : Aggregator)
    → receive_period uc ≡ some (p, uc')
    → (uc'.day_buffer ≡ uc.day_buffer) × (uc'.month_buffer ≡ uc.month_buffer)
unfolding receive_period
receive_period-buffers uc p uc' h = receive_from-buffers uc uc.dirty_periods p uc' h

module _ {Db : Type 0} (upsert : Upsert Db) (column : Time → Text) (cells other : Db → Cells)
    (u : IsUpsert upsert column cells other) (ctx : Context) (a : Aggregate) (db db' : Db)
    (k : Text) (ty : EventType) where
  pub upsert_one-done :
      upsert_one upsert ctx a db ≡ (db', none)
      → (cells db' k ty ≡ wrap (plus (cells db k ty) (share column k ty a)))
        × (other db' k ty ≡ other db k ty)
  upsert_one-done h =
      let d = u.done ctx a.period a.event_type a.totals db db' h k ty in
      (d.0 ∙ added-share column (cells db) k ty a (u.in_range db k ty), d.1)

module _ (order : List Aggregate → List Aggregate) (perm : (l : List Aggregate) → Perm (order l) l)
    (k : Text) (ty : EventType) where
  -- What a swap takes out of a buffer is what went into it.
  swapped_lem :
      (column : Time → Text) (f : Text → Text)
      → Separates f
      → (b : Buffer) (made : Totals) → IsKeyed column f b
      → totals_at k ty b ≡ wrap (plus no_totals made)
      → wrap made ≡ wrap (sum_at column (f k) ty (order (aggregates b)))
  swapped_lem column f apart b made v h = sym (
      ap wrap (
        sum_at-Perm column (f k) ty (perm (aggregates b))
        ∙ (sum_at-aggregates column f apart k ty b v.entries v.keys
            ∙ (h ∙ ap wrap (zero_plus made))))
      ∙ wrap_wrap made)
    where
      wrap_wrap : (t : Totals) → wrap (wrap t) ≡ wrap t
      wrap_wrap t =
          ap wrap (sym (plus_zero (wrap t))) ∙ (wrap-plus t no_totals ∙ ap wrap (plus_zero t))

-- The events of the buffers are among those that were counted.
pub All-counted_before :
    (P : Event → Type 0) (d : Bool) (e : Event) (es : List Event)
    → All P (counted d e es)
    → All P es
All-counted_before P true e es h = h
All-counted_before P false e [] h = tt
All-counted_before P false e (x ∷ es) h = (h.0, All-counted_before P false e es h.1)

All-counted :
    (P : Event → Type 0) (d : Bool) (e : Event) (ts bs : List Event)
    → All P (counted d e ts)
    → All P bs
    → All P (counted d e bs)
All-counted P true e ts bs h b = b
All-counted P false e [] [] h b = (h.0, tt)
All-counted P false e (t ∷ ts) [] h b = All-counted P false e ts [] h.1 b
All-counted P false e ts (x ∷ bs) h b = (b.0, All-counted P false e ts bs h b.1)

module _ {Db : Type 0} (uuid : UuidPackage) (order : List Aggregate → List Aggregate)
    (events : EventRepository Db) (repo : AggregationRepository Db) (laws : AggregationLaws repo)
    (config : Config) (db0 : Db) (k : Text) (ty : EventType) where
  open laws use {day_column, month_column, day_cells, month_cells, day_upsert, month_upsert}

  -- The accounts of a day and of a month, and what the buffers are made of.
  pub record IsBalanced (s : System Db) : Type 0 where
    pub day :
        Account day_column event_day
          (λ l. l.days)
          k
          ty
          (day_cells db0 k ty)
          (day_cells s.db k ty)
          s.loops
          s.lost_days
          s.buffered
          s.taken
          s.recounted_days
    pub month :
        Account month_column month_date_of
          (λ l. l.months)
          (month_date k)
          ty
          (month_cells db0 (month_date k) ty)
          (month_cells s.db (month_date k) ty)
          s.loops
          s.lost_months
          s.buffered
          s.taken
          s.recounted_months
    pub day_kept : s.uc.day_buffer ≡ foldl add_day [] s.buffered
    pub month_kept : s.uc.month_buffer ≡ foldl add_month [] s.buffered
    pub dated : All IsDated s.buffered

  pub initial-IsBalanced : IsBalanced (initial config db0)
  unfolding initial new sum_of sum_at
  initial-IsBalanced = record {
    day = refl;
    month = refl;
    day_kept = refl;
    month_kept = refl;
    dated = tt;
  }

  module _ (perm : (l : List Aggregate) → Perm (order l) l)
      (cd : (e : Event) → day_column (day_of e) ≡ event_day e)
      (cm : (e : Event) → IsDated e → month_column (month_of e) ≡ month_date_of e) where
    pub handle-IsBalanced :
        (s : System Db) (marked seen : Time) (e : Event)
        → All IsDated (counted (is_duplicate uuid s.uc e) e s.taken)
        → IsBalanced s
        → IsBalanced (record s {
          uc = process_event uuid marked seen s.uc e;
          taken = counted (is_duplicate uuid s.uc e) e s.taken;
          buffered = counted (is_duplicate uuid s.uc e) e s.buffered;
        })
    handle-IsBalanced s marked seen e h i =
        let d = is_duplicate uuid s.uc e in
        record {
          day =
              Account-take day_column event_day (λ l. l.days) k ty _ _ s.loops s.lost_days
                s.buffered s.taken s.recounted_days i.day d e;
          month =
              Account-take month_column month_date_of (λ l. l.months) (month_date k) ty _ _ s.loops
                s.lost_months s.buffered s.taken s.recounted_months i.month d e;
          day_kept =
              process_event-day uuid marked seen s.uc e
              ∙ (ap (λ b. if d then b else add_day b e) i.day_kept
                  ∙ sym (foldl-counted add_day d e s.buffered []));
          month_kept =
              process_event-month uuid marked seen s.uc e
              ∙ (ap (λ b. if d then b else add_month b e) i.month_kept
                  ∙ sym (foldl-counted add_month d e s.buffered []));
          dated = All-counted IsDated d e s.taken s.buffered h i.dated;
        }

    pub swap-IsBalanced :
        (s : System Db)
        → IsBalanced s
        → IsBalanced (record s {
          uc = record s.uc { day_buffer = []; month_buffer = [] };
          loops =
              record {
                days = order (aggregates s.uc.day_buffer);
                months = order (aggregates s.uc.month_buffer);
                next = none;
              }
              ∷ s.loops;
          buffered = [];
        })
    swap-IsBalanced s i =
        let es = s.buffered in
        let l : Loop = record {
          days = order (aggregates s.uc.day_buffer);
          months = order (aggregates s.uc.month_buffer);
          next = none;
        } in
        record {
          day =
              Account-swap day_column event_day (λ l. l.days) k ty _ _ s.loops s.lost_days es
                s.taken s.recounted_days i.day l
                (swapped_lem order perm k ty day_column day_date day_date-Separates s.uc.day_buffer
                  _
                  (subst (IsKeyed day_column day_date) (sym i.day_kept)
                    (foldl-IsKeyed_days day_column cd es [] (empty-IsKeyed day_column day_date)))
                  (ap (totals_at k ty) i.day_kept
                    ∙ totals_at-add_days k ty es [] no_totals (new-totals k ty)));
          month =
              Account-swap month_column month_date_of (λ l. l.months) (month_date k) ty _ _ s.loops
                s.lost_months es s.taken s.recounted_months i.month l
                (ap (λ f. wrap (sum_of (select f es))) (is_at-month_date k ty)
                  ∙ swapped_lem order perm k ty month_column month_date month_date-Separates
                      s.uc.month_buffer _
                      (subst (IsKeyed month_column month_date) (sym i.month_kept) (
                        foldl-IsKeyed_months month_column cm es [] i.dated
                          (empty-IsKeyed month_column month_date)))
                      (ap (totals_at k ty) i.month_kept
                        ∙ totals_at-add_months k ty es [] no_totals (new-totals k ty)));
          day_kept = refl;
          month_kept = refl;
          dated = tt;
        }
