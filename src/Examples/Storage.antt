-- ===== src/Examples/Storage.antt =====
-- A database of three tables that keeps the documented behaviour of `SqlLaws`; a context that is done
-- makes every call fail.
use network_actions_aggregat.Prelude.{
  ℕ, ◌%◌, ◌≡◌, refl, sym, ap, subst, ◌∙◌, String, ◌&&◌, Bool-cases, inl, inr, Option, none, some,
  List, [], ◌∷◌, arith, length, select, take, ◌==◌, string_eq, list_eq, nat_eq, if◌then◌else◌,
}
use mathlib.Core.List.{Perm}
use mathlib.Core.List.Perm.{refl as perm_refl}
use network_actions_aggregat.Dict.{Dict, lookup}
use network_actions_aggregat.Clock.{Time, date_of}
use network_actions_aggregat.Clock.Text.{Text, day_text}
use network_actions_aggregat.Entity.{EventType}
use network_actions_aggregat.Entity.Errors.{Error, Result, ok, err, message}
use network_actions_aggregat.Aggregation.{Totals, int64_mod}
use network_actions_aggregat.Aggregation.Sums.{wrap}
use network_actions_aggregat.Models.{EventModel, AggregationModel}
use network_actions_aggregat.Repository.{Context}
use network_actions_aggregat.Postgres.Sql.{
  Gorm, Action, do_nothing, do_updates, Expr, column_plus, now, Rows, SqlLaws, upserted, set_row,
  assigned, column, insert_missing, hold,
}

pub record Tables : Type 0 where
  pub events : List EventModel
  pub days : Rows
  pub months : Rows

abbrev pub no_rows : Rows
no_rows k y = none

abbrev pub no_tables : Tables
no_tables = record { events = []; days = no_rows; months = no_rows }

-- The value of a row as it is read.
abbrev pub in_64_bits : Option Totals → Option Totals
in_64_bits none = none
in_64_bits (some t) = some (wrap t)

abbrev pub read : Rows → Rows
read rows k y = in_64_bits (rows k y)

abbrev pub date_text : Time → Text
date_text t = day_text (date_of t)

abbrev pub write : String → Action → AggregationModel → Rows → Rows
write table a m rows k y =
    if (date_text m.period == k) && (m.event_type == y)
    then some (upserted table a m.totals (read rows k y))
    else rows k y

abbrev pub guarded : Context → Tables → Tables → Tables × Option Error
guarded none old new = (new, none)
guarded (some e) old new = (old, some e)

abbrev pub answer : {A : Type 0} → Context → A → Result A
answer none a = ok a
answer (some e) a = err e

abbrev pub limited : Option ℕ → List EventModel → List EventModel
limited none ms = ms
limited (some n) ms = take n ms

abbrev pub first : List EventModel → Result EventModel
first [] = err (message "record not found")
first (m ∷ ms) = ok m

abbrev pub sql : Gorm Tables
sql = record {
  create_events =
      λ ctx c ms db. guarded ctx db (record db { events = insert_missing db.events ms });
  find_events = λ ctx cs order limit db. answer ctx (limited limit (select (hold cs) db.events));
  first_event = λ ctx cs db. first (select (hold cs) db.events);
  count_events = λ ctx cs db. answer ctx (length (select (hold cs) db.events));
  create_day =
      λ ctx c m db. guarded ctx db (record db { days = write "agg_day" c.action m db.days });
  create_month =
      λ ctx c m db. guarded ctx db (record db { months = write "agg_month" c.action m db.months });
  find_days = λ ctx r order db. answer ctx [];
  find_months = λ ctx r order db. answer ctx [];
}

pub guarded-done :
    (ctx : Context) (old new db' : Tables) → guarded ctx old new ≡ (db', none) → db' ≡ new
guarded-done none old new db' h = ap (λ r. r.0) (sym h)
guarded-done (some e) old new db' h = absurd (cc (ap (λ r. r.1) h))

pub guarded-failed :
    (ctx : Context) (old new db' : Tables) (x : Error)
    → guarded ctx old new ≡ (db', some x)
    → db' ≡ old
guarded-failed none old new db' x h = absurd (cc (ap (λ r. r.1) h))
guarded-failed (some e) old new db' x h = ap (λ r. r.0) (sym h)

-- A column after a `SET` is within 64 bits if the row was.
assigned-in_range :
    (table c : String) (t : Totals) (o : Option Expr)
    → column c t % int64_mod ≡ column c t
    → assigned table t c o % int64_mod ≡ assigned table t c o
assigned-in_range table c t none h = h
assigned-in_range table c t (some now) h = h
assigned-in_range table c t (some (column_plus table' c' v)) h =
    elim (Bool-cases (table' == table)) [
      | inl same ↦ rw same (omega arith)
      | inr other ↦ rw other h
    ]

wrap-wrap : (t : Totals) → wrap (wrap t) ≡ wrap t
wrap-wrap t = ground arith

set_row-in_range :
    (table : String) (sets : Dict String Expr) (t : Totals)
    → wrap t ≡ t
    → wrap (set_row table sets t) ≡ set_row table sets t
set_row-in_range table sets t h = ground (
  arith,
  assigned-in_range table "count_events" t (lookup "count_events" sets)
      (ap (λ u. u.count_events) h),
  assigned-in_range table "sum_duration" t (lookup "sum_duration" sets)
      (ap (λ u. u.sum_duration) h),
  assigned-in_range table "sum_bytes_up" t (lookup "sum_bytes_up" sets)
      (ap (λ u. u.sum_bytes_up) h),
  assigned-in_range table "sum_bytes_down" t (lookup "sum_bytes_down" sets)
      (ap (λ u. u.sum_bytes_down) h),
)

upserted-in_range :
    (table : String) (a : Action) (x : Totals) (o : Option Totals)
    → wrap (upserted table a x (in_64_bits o)) ≡ upserted table a x (in_64_bits o)
upserted-in_range table do_nothing x none = wrap-wrap x
upserted-in_range table do_nothing x (some t) = wrap-wrap t
upserted-in_range table (do_updates sets) x none = wrap-wrap x
upserted-in_range table (do_updates sets) x (some t) =
    set_row-in_range table sets (wrap t) (wrap-wrap t)

pub read-write :
    (table : String) (a : Action) (m : AggregationModel) (rows : Rows) (k : Text) (y : EventType)
    → read (write table a m rows) k y ≡ (
        if (date_text m.period == k) && (m.event_type == y)
        then some (upserted table a m.totals (read rows k y))
        else read rows k y)
read-write table a m rows k y =
    elim (Bool-cases ((date_text m.period == k) && (m.event_type == y))) [
      | inl here ↦ rw here (ap some (upserted-in_range table a m.totals (rows k y)))
      | inr there ↦ rw there refl
    ]

pub read-in_range : (o : Option Totals) (t : Totals) → in_64_bits o ≡ some t → wrap t ≡ t
read-in_range none t h = absurd (cc)
read-in_range (some u) t h = let e : wrap u ≡ t = cc in ap wrap (sym e) ∙ (wrap-wrap u ∙ e)

pub answer-ok : (ctx : Context) (a b : List EventModel) → answer ctx a ≡ ok b → b ≡ a
answer-ok none a b h = cc
answer-ok (some e) a b h = absurd (cc)

unfoldable pub laws : SqlLaws sql
laws = record {
  date = date_text;
  event_rows = λ db. db.events;
  day_rows = λ db. read db.days;
  month_rows = λ db. read db.months;
  creates_day = record {
    in_range = λ db k y t h. read-in_range (db.days k y) t h;
    done = λ ctx action m db db' h k y.
        let e = guarded-done ctx db _ db' h in
        (
          ap (λ d. read d.days k y) e ∙ read-write "agg_day" action m db.days k y,
          ap (λ d. read d.months k y) e,
        );
    failed = λ ctx c m db db' e h. guarded-failed ctx db _ db' e h;
  };
  creates_month = record {
    in_range = λ db k y t h. read-in_range (db.months k y) t h;
    done = λ ctx action m db db' h k y.
        let e = guarded-done ctx db _ db' h in
        (
          ap (λ d. read d.months k y) e ∙ read-write "agg_month" action m db.months k y,
          ap (λ d. read d.days k y) e,
        );
    failed = λ ctx c m db db' e h. guarded-failed ctx db _ db' e h;
  };
  creates_events = λ ctx ms db db' h. ap (λ d. d.events) (guarded-done ctx db _ db' h);
  creates_events_failed = λ ctx c ms db db' e h. guarded-failed ctx db _ db' e h;
  finds_events = λ ctx cs order db ms h.
      let l = select (hold cs) db.events in
      subst (λ x. Perm x l) (sym (answer-ok ctx l ms h)) (perm_refl l);
}
