-- ===== src/Examples/Ledger.antt =====
-- A storage of sums by the dates of the days and of the first days of the months, which keeps the laws of the repository; a
-- context that is done makes every call fail.
use network_actions_aggregat.Prelude.{
  ℕ, ◌≡◌, sym, ap, ◌∙◌, ◌&&◌, Bool-cases, inl, inr, Option, none, some, List, [], arith, ◌==◌,
  string_eq, list_eq, nat_eq,
}
use network_actions_aggregat.Clock.{month_start}
use network_actions_aggregat.Clock.Text.{Text}
use network_actions_aggregat.Entity.{Event, EventType}
use network_actions_aggregat.Entity.Errors.{Error, ok, err, message}
use network_actions_aggregat.Aggregation.{Totals, no_totals}
use network_actions_aggregat.Aggregation.Sums.{wrap, plus}
use network_actions_aggregat.Buffer.{day_key}
use network_actions_aggregat.Repository.{
  Context, Cells, added, Upsert, IsUpsert, AggregationRepository, AggregationLaws, EventRepository,
}

pub record Ledger : Type 0 where
  pub raw_days : Cells
  pub raw_months : Cells

abbrev pub no_cells : Cells
no_cells k ty = no_totals

abbrev pub empty : Ledger
empty = record { raw_days = no_cells; raw_months = no_cells }

abbrev pub days : Ledger → Cells
days l k ty = wrap (l.raw_days k ty)

abbrev pub months : Ledger → Cells
months l k ty = wrap (l.raw_months k ty)

abbrev pub guarded : Context → Ledger → Ledger → Ledger × Option Error
guarded none old new = (new, none)
guarded (some e) old new = (old, some e)

abbrev pub sums : ℕ → ℕ → ℕ → ℕ → Totals
sums c d u w = record { count_events = c; sum_duration = d; sum_bytes_up = u; sum_bytes_down = w }

abbrev pub upsert_day : Upsert Ledger
upsert_day ctx t ty c d u w l =
    guarded ctx l (record l { raw_days = added (days l) (day_key t) ty (sums c d u w) })

abbrev pub upsert_month : Upsert Ledger
upsert_month ctx t ty c d u w l =
    guarded ctx l
      (record l { raw_months = added (months l) (day_key (month_start t)) ty (sums c d u w) })

abbrev pub repository : AggregationRepository Ledger
repository = record {
  upsert_day_aggregation = upsert_day;
  get_day_aggregations = λ ctx from to l. ok [];
  get_day_aggregations_by_type = λ ctx ty from to l. ok [];
  upsert_month_aggregation = upsert_month;
  get_month_aggregations = λ ctx from to l. ok [];
  get_month_aggregations_by_type = λ ctx ty from to l. ok [];
}

pub guarded-done : (ctx : Context) (old new l : Ledger) → guarded ctx old new ≡ (l, none) → l ≡ new
guarded-done none old new l h = ap (λ r. r.0) (sym h)
guarded-done (some e) old new l h = absurd (cc (ap (λ r. r.1) h))

pub guarded-failed :
    (ctx : Context) (old new l : Ledger) (x : Error) → guarded ctx old new ≡ (l, some x) → l ≡ old
guarded-failed none old new l x h = absurd (cc (ap (λ r. r.1) h))
guarded-failed (some e) old new l x h = ap (λ r. r.0) (sym h)

wrap-wrap : (t : Totals) → wrap (wrap t) ≡ wrap t
wrap-wrap t = ground arith

wrap-added :
    (raw : Cells) (d : Text) (t : EventType) (x : Totals) (k : Text) (ty : EventType)
    → wrap (added (λ k' y. wrap (raw k' y)) d t x k ty) ≡ added (λ k' y. wrap (raw k' y)) d t x k ty
wrap-added raw d t x k ty = elim (Bool-cases ((d == k) && (t == ty))) [
  | inl here ↦ rw here (wrap-wrap (plus (wrap (raw k ty)) x))
  | inr there ↦ rw there (wrap-wrap (raw k ty))
]

pub upsert_day-IsUpsert : IsUpsert upsert_day day_key days months
upsert_day-IsUpsert = record {
  in_range = λ l k y. wrap-wrap (l.raw_days k y);
  done = λ ctx t ty x db db' h k y.
      let e = guarded-done ctx db _ db' h in
      (
        ap (λ l. days l k y) e ∙ wrap-added db.raw_days (day_key t) ty x k y,
        ap (λ l. months l k y) e,
      );
  failed = λ ctx t ty x db db' e h k y.
      let same = guarded-failed ctx db _ db' e h in
      (ap (λ l. days l k y) same, ap (λ l. months l k y) same);
}

pub upsert_month-IsUpsert : IsUpsert upsert_month (λ t. day_key (month_start t)) months days
upsert_month-IsUpsert = record {
  in_range = λ l k y. wrap-wrap (l.raw_months k y);
  done = λ ctx t ty x db db' h k y.
      let e = guarded-done ctx db _ db' h in
      (
        ap (λ l. months l k y) e ∙ wrap-added db.raw_months (day_key (month_start t)) ty x k y,
        ap (λ l. days l k y) e,
      );
  failed = λ ctx t ty x db db' e h k y.
      let same = guarded-failed ctx db _ db' e h in
      (ap (λ l. months l k y) same, ap (λ l. days l k y) same);
}

abbrev pub laws : AggregationLaws repository
laws = record {
  day_column = day_key;
  month_column = λ t. day_key (month_start t);
  day_cells = days;
  month_cells = months;
  day_upsert = upsert_day-IsUpsert;
  month_upsert = upsert_month-IsUpsert;
}

-- Events that are always the same, whatever range is asked for.
abbrev pub events : List Event → EventRepository Ledger
events es = record {
  batch_insert = λ ctx batch l. (l, none);
  get_user_events = λ ctx user from to limit cursor l. err (message "not implemented yet");
  get_events_by_type = λ ctx ty from to limit l. ok es;
  get_event_by_id = λ ctx id start l. err (message "event not found");
  count_user_events = λ ctx user from to l. ok 0;
  get_by_event_ids = λ ctx ids l. ok es;
  get_by_time_range = λ ctx from to l. ok es;
}
