-- ===== src/Aggregator/System/Conservation.antt =====
-- Nothing is lost between the goroutines of the aggregator.
use mathlib.Core.List.{Perm}
use network_actions_aggregat.Prelude.{
  ◌≡◌, refl, sym, ◌∙◌, some, List, [], ◌∷◌, ◌++◌, map, select, All, ap,
}
use network_actions_aggregat.Clock.{Time}
use network_actions_aggregat.Clock.Text.{Text}
use network_actions_aggregat.Entity.{Event, EventType}
use network_actions_aggregat.Aggregation.Sums.{plus, wrap, sum_of, zero_plus}
use network_actions_aggregat.Buffer.{Aggregate, day_of, month_of}
use network_actions_aggregat.Buffer.Streams.{is_at, event_day, event_month}
use network_actions_aggregat.Buffer.Dates.{IsDated, month_date, month_date_of, is_at-month_date}
use network_actions_aggregat.Repository.{
  Context, EventRepository, AggregationRepository, AggregationLaws, Cells, Upsert, IsUpsert,
}
use network_actions_aggregat.Package.{UuidPackage}
use network_actions_aggregat.Entity.Errors.{Error}
use network_actions_aggregat.Aggregator.{Config, is_duplicate, cleanup_processed_events, recount}
use network_actions_aggregat.Aggregator.Upserts.{share, sum_at}
use network_actions_aggregat.Aggregator.Keyed.{sum_at-append}
use network_actions_aggregat.Aggregator.System.{
  Loop, System, idle, month_due, upsert_one, Step, handle, swap, put_day, put_month, fail_day,
  fail_month, end, cleanup, receive, read_day, no_day, unread_day, read_month, no_month,
  unread_month, Run, here, next,
}
use network_actions_aggregat.Aggregator.System.Account.{
  Account-put, Account-other, Account-fail, Account-read, quiet-Account,
}
use network_actions_aggregat.Aggregator.System.Balanced.{
  All-counted_before, IsBalanced, initial-IsBalanced, handle-IsBalanced, swap-IsBalanced,
  receive_period-buffers, upsert_one-done,
}

module _ {Db : Type 0} (uuid : UuidPackage) (order : List Aggregate → List Aggregate)
    (events : EventRepository Db) (repo : AggregationRepository Db) (laws : AggregationLaws repo)
    (config : Config) (db0 : Db) (k : Text) (ty : EventType) where
  open laws use {day_column, month_column, day_cells, month_cells, day_upsert, month_upsert}

  abbrev IsKept : System Db → Type 0
  IsKept = IsBalanced uuid order events repo laws config db0 k ty

  module _ (perm : (l : List Aggregate) → Perm (order l) l)
      (cd : (e : Event) → day_column (day_of e) ≡ event_day e)
      (cm : (e : Event) → IsDated e → month_column (month_of e) ≡ month_date_of e) where
    failed_lem :
        {upsert : Upsert Db} {column : Time → Text} {cells other : Db → Cells}
        (u : IsUpsert upsert column cells other) (ctx : Context) (a : Aggregate) (db db' : Db)
        (e : Error)
        → upsert_one upsert ctx a db ≡ (db', some e)
        → (j : Text) → (cells db' j ty ≡ cells db j ty) × (other db' j ty ≡ other db j ty)
    failed_lem u ctx a db db' e h j = u.failed ctx a.period a.event_type a.totals db db' e h j ty

    step-taken :
        {s s' : System Db}
        → Step uuid order events repo s s'
        → All IsDated s'.taken
        → All IsDated s.taken
    unfolding cleanup_processed_events
    step-taken {s} (handle marked seen e) v =
        All-counted_before IsDated (is_duplicate uuid s.uc e) e s.taken v
    step-taken swap v = v
    step-taken (put_day ctx a db before l after hl hu) v = v
    step-taken (put_month ctx a db before l after hl hu) v = v
    step-taken (fail_day ctx a db e before l after hl hu) v = v
    step-taken (fail_month ctx a db e before l after hl hu) v = v
    step-taken (end w before after hl) v = v
    step-taken (cleanup now) v = v
    step-taken (receive p uc hw hr) v = v
    step-taken (read_day ctx p t es hw hp hr) v = v
    step-taken (no_day p hw hp) v = v
    step-taken (unread_day ctx p t e hw hp hr) v = v
    step-taken (read_month ctx t es hw hr) v = v
    step-taken (no_month hw) v = v
    step-taken (unread_month ctx t e hw hr) v = v

    step-IsBalanced :
        {s s' : System Db}
        → Step uuid order events repo s s'
        → All IsDated s'.taken
        → IsKept s
        → IsKept s'
    unfolding sum_at cleanup_processed_events
    step-IsBalanced {s} (handle marked seen e) v i =
        handle-IsBalanced uuid order events repo laws config db0 k ty perm cd cm s marked seen e v i
    step-IsBalanced {s} swap v i =
        swap-IsBalanced uuid order events repo laws config db0 k ty perm cd cm s i
    step-IsBalanced {s} (put_day ctx a db before l after hl hu) v i =
        let d = λ (j : Text).
          upsert_one-done repo.upsert_day_aggregation day_column day_cells month_cells day_upsert
            ctx a s.db db j ty hu in
        let full : Loop = record l { days = a ∷ l.days } in
        record {
          day =
              Account-put day_column event_day (λ l. l.days) k ty _ _ s.loops s.lost_days s.buffered
                s.taken s.recounted_days i.day _ (share day_column k ty a) before full l after
                (d k).0 hl refl;
          month =
              Account-other month_column month_date_of (λ l. l.months) (month_date k) ty _ _ s.loops
                s.lost_months s.buffered s.taken s.recounted_months i.month _ before full l after
                (d (month_date k)).1 hl refl;
          day_kept = i.day_kept;
          month_kept = i.month_kept;
          dated = i.dated;
        }
    step-IsBalanced {s} (put_month ctx a db before l after hl hu) v i =
        let d = λ (j : Text).
          upsert_one-done repo.upsert_month_aggregation month_column month_cells day_cells
            month_upsert ctx a s.db db j ty hu in
        let full : Loop = record l { days = []; months = a ∷ l.months } in
        let left : Loop = record l { days = [] } in
        record {
          day =
              Account-other day_column event_day (λ l. l.days) k ty _ _ s.loops s.lost_days
                s.buffered s.taken s.recounted_days i.day _ before full left after (d k).1 hl refl;
          month =
              Account-put month_column month_date_of (λ l. l.months) (month_date k) ty _ _ s.loops
                s.lost_months s.buffered s.taken s.recounted_months i.month _
                (share month_column (month_date k) ty a) before full left after (d (month_date k)).0
                hl refl;
          day_kept = i.day_kept;
          month_kept = i.month_kept;
          dated = i.dated;
        }
    step-IsBalanced {s} (fail_day ctx a db e before l after hl hu) v i =
        let d = failed_lem day_upsert ctx a s.db db e hu in
        let full : Loop = record l { days = a ∷ l.days } in
        record {
          day =
              Account-fail day_column event_day (λ l. l.days) k ty _ _ s.loops s.lost_days
                s.buffered s.taken s.recounted_days i.day _ (a ∷ (l.days ++ s.lost_days)) before
                full after (d k).0 hl (sum_at-append day_column k ty (a ∷ l.days) s.lost_days);
          month =
              Account-fail month_column month_date_of (λ l. l.months) (month_date k) ty _ _ s.loops
                s.lost_months s.buffered s.taken s.recounted_months i.month _
                (l.months ++ s.lost_months) before full after (d (month_date k)).1 hl
                (sum_at-append month_column (month_date k) ty l.months s.lost_months);
          day_kept = i.day_kept;
          month_kept = i.month_kept;
          dated = i.dated;
        }
    step-IsBalanced {s} (fail_month ctx a db e before l after hl hu) v i =
        let d = failed_lem month_upsert ctx a s.db db e hu in
        let full : Loop = record l { days = []; months = a ∷ l.months } in
        record {
          day =
              Account-fail day_column event_day (λ l. l.days) k ty _ _ s.loops s.lost_days
                s.buffered s.taken s.recounted_days i.day _ s.lost_days before full after (d k).1 hl
                (sym (zero_plus _));
          month =
              Account-fail month_column month_date_of (λ l. l.months) (month_date k) ty _ _ s.loops
                s.lost_months s.buffered s.taken s.recounted_months i.month _
                (a ∷ (l.months ++ s.lost_months)) before full after (d (month_date k)).0 hl
                (sum_at-append month_column (month_date k) ty (a ∷ l.months) s.lost_months);
          day_kept = i.day_kept;
          month_kept = i.month_kept;
          dated = i.dated;
        }
    step-IsBalanced {s} (end w before after hl) v i =
        let none_left : Loop = record { days = []; months = []; next = w } in
        record {
          day =
              Account-fail day_column event_day (λ l. l.days) k ty _ _ s.loops s.lost_days
                s.buffered s.taken s.recounted_days i.day _ s.lost_days before none_left after refl
                hl (sym (zero_plus _));
          month =
              Account-fail month_column month_date_of (λ l. l.months) (month_date k) ty _ _ s.loops
                s.lost_months s.buffered s.taken s.recounted_months i.month _ s.lost_months before
                none_left after refl hl (sym (zero_plus _));
          day_kept = i.day_kept;
          month_kept = i.month_kept;
          dated = i.dated;
        }
    step-IsBalanced {s} (cleanup now) v i = record {
      day = i.day;
      month = i.month;
      day_kept = i.day_kept;
      month_kept = i.month_kept;
      dated = i.dated;
    }
    step-IsBalanced {s} (receive p uc hw hr) v i =
        let b = receive_period-buffers s.uc p uc hr in
        record {
          day = i.day;
          month = i.month;
          day_kept = b.0 ∙ i.day_kept;
          month_kept = b.1 ∙ i.month_kept;
          dated = i.dated;
        }
    step-IsBalanced {s} (read_day ctx p t es hw hp hr) v i =
        let l : Loop = record {
          days = order (map (λ q. q.1) (recount t es));
          months = [];
          next = some (month_due p.month);
        } in
        record {
          day =
              Account-read day_column event_day (λ l. l.days) k ty _ _ s.loops s.lost_days
                s.buffered s.taken s.recounted_days i.day l;
          month =
              Account-read month_column month_date_of (λ l. l.months) (month_date k) ty _ _ s.loops
                s.lost_months s.buffered s.taken s.recounted_months i.month l;
          day_kept = i.day_kept;
          month_kept = i.month_kept;
          dated = i.dated;
        }
    step-IsBalanced {s} (read_month ctx t es hw hr) v i =
        let l : Loop = record {
          days = [];
          months = order (map (λ q. q.1) (recount t es));
          next = some idle;
        } in
        record {
          day =
              Account-read day_column event_day (λ l. l.days) k ty _ _ s.loops s.lost_days
                s.buffered s.taken s.recounted_days i.day l;
          month =
              Account-read month_column month_date_of (λ l. l.months) (month_date k) ty _ _ s.loops
                s.lost_months s.buffered s.taken s.recounted_months i.month l;
          day_kept = i.day_kept;
          month_kept = i.month_kept;
          dated = i.dated;
        }
    step-IsBalanced {s} (no_day p hw hp) v i = record {
      day = i.day;
      month = i.month;
      day_kept = i.day_kept;
      month_kept = i.month_kept;
      dated = i.dated;
    }
    step-IsBalanced {s} (unread_day ctx p t e hw hp hr) v i = record {
      day = i.day;
      month = i.month;
      day_kept = i.day_kept;
      month_kept = i.month_kept;
      dated = i.dated;
    }
    step-IsBalanced {s} (no_month hw) v i = record {
      day = i.day;
      month = i.month;
      day_kept = i.day_kept;
      month_kept = i.month_kept;
      dated = i.dated;
    }
    step-IsBalanced {s} (unread_month ctx t e hw hr) v i = record {
      day = i.day;
      month = i.month;
      day_kept = i.day_kept;
      month_kept = i.month_kept;
      dated = i.dated;
    }

    -- Over a storage that keeps the laws of the repository, with the goroutines of the aggregator in any
    -- order, one upsert at a time, failed upserts and cleanups included: for each day, each month and each
    -- type, what the storage shows, what the loops of upserts still hold, what the failed ones gave up and
    -- what is in the buffers add up, modulo 2^64, to what the storage showed at the start, the exact sums
    -- over the events that were counted and what the reconciliation recounted. A month is read at the date
    -- of its first day. The maps are ranged over in some order, the events that were counted start at times
    -- that RFC 3339 can carry, and the storage keeps a day under its own date and the month of such an event
    -- under the date of the month's first day.
    pub run-IsBalanced :
        (s : System Db)
        → Run uuid order events repo config db0 s
        → All IsDated s.taken
        → IsBalanced uuid order events repo laws config db0 k ty s
    run-IsBalanced s here v = initial-IsBalanced uuid order events repo laws config db0 k ty
    run-IsBalanced s (next r x) v = step-IsBalanced x v (run-IsBalanced _ r (step-taken x v))

    -- Once every loop has ended and the buffers were swapped, with no upsert failed and no period
    -- recounted, each day cell and each month cell has grown by the exact sums over the events that were
    -- counted, modulo 2^64, whatever the order of the steps was.
    pub quiet_lem :
        (s : System Db)
        → Run uuid order events repo config db0 s
        → All IsDated s.taken
        → s.loops ≡ []
        → s.buffered ≡ []
        → s.lost_days ≡ []
        → s.lost_months ≡ []
        → s.recounted_days ≡ []
        → s.recounted_months ≡ []
        → (day_cells s.db k ty
            ≡ wrap (plus (day_cells db0 k ty) (sum_of (select (is_at event_day k ty) s.taken))))
          × (month_cells s.db (month_date k) ty
              ≡ wrap (
                  plus
                    (month_cells db0 (month_date k) ty)
                    (sum_of (select (is_at event_month k ty) s.taken))))
    quiet_lem s r v hl hb ld lm rd rm =
        let i = run-IsBalanced s r v in
        let j = month_date k in
        (
          quiet-Account day_column event_day (λ l. l.days) k ty _ _ (day_upsert.in_range s.db k ty)
              s.taken hl ld hb rd i.day,
          quiet-Account month_column month_date_of (λ l. l.months) j ty _ _
                (month_upsert.in_range s.db j ty) s.taken hl lm hb rm i.month
              ∙ ap (λ f. wrap (plus (month_cells db0 j ty) (sum_of (select f s.taken))))
                  (is_at-month_date k ty),
        )
