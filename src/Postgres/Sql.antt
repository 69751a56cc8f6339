-- ===== src/Postgres/Sql.antt =====
-- What the repositories ask of GORM and PostgreSQL: the statements that they build, the calls that run
-- them, and the documented behaviour of the calls. The library and the database are parameters.
use network_actions_aggregat.Prelude.{
  contains, ℕ, String, Bool, true, false, ◌&&◌, ◌≡◌, Option, none, some, List, [], ◌∷◌, ◌++◌, leb,
  ◌==◌, string_eq, nat_eq, list_eq, nat_beq, select, if◌then◌else◌,
}
use mathlib.Core.List.{Perm}
use network_actions_aggregat.Dict.{Dict, lookup}
use network_actions_aggregat.Clock.{Time}
use network_actions_aggregat.Clock.Text.{Text}
use network_actions_aggregat.Entity.{Uuid, EventType}
use network_actions_aggregat.Entity.Errors.{Error, Result, ok}
use network_actions_aggregat.Aggregation.{Totals, add64}
use network_actions_aggregat.Aggregation.Sums.{wrap}
use network_actions_aggregat.Models.{EventModel, AggregationModel}
use network_actions_aggregat.Repository.{Context}

-- `gorm.Expr("table.column + ?", value)` and `gorm.Expr("NOW()")`.
pub data Expr : Type 0 where
  column_plus : String → String → ℕ → Expr
  now : Expr

-- `clause.OnConflict`.
pub data Action : Type 0 where
  do_nothing : Action
  do_updates : Dict String Expr → Action

pub record OnConflict : Type 0 where
  pub columns : List String
  pub action : Action

-- The conditions of the `Where` clauses on `events_raw`.
pub data Condition : Type 0 where
  type_is : EventType → Condition
  started_from started_to started_is : Time → Condition
  user_is id_is : Uuid → Condition
  id_in : List Uuid → Condition

-- The conditions on a table of aggregates, by the dates of its period column.
pub data Range : Type 0 where
  period_from period_to : Time → Range
  period_type : EventType → Range

pub record Gorm (Db : Type 0) : Type 0 where
  pub create_events : Context → OnConflict → List EventModel → Db → Db × Option Error
  pub find_events :
      Context → List Condition → Option String → Option ℕ → Db → Result (List EventModel)
  pub first_event : Context → List Condition → Db → Result EventModel
  pub count_events : Context → List Condition → Db → Result ℕ
  pub create_day : Context → OnConflict → AggregationModel → Db → Db × Option Error
  pub create_month : Context → OnConflict → AggregationModel → Db → Db × Option Error
  pub find_days : Context → List Range → String → Db → Result (List AggregationModel)
  pub find_months : Context → List Range → String → Db → Result (List AggregationModel)

-- A condition on a row.
abbrev pub holds : Condition → EventModel → Bool
holds (type_is t) m = m.event_type == t
holds (started_from t) m = leb t.nanos m.started_at.nanos
holds (started_to t) m = leb m.started_at.nanos t.nanos
holds (started_is t) m = nat_beq m.started_at.nanos t.nanos
holds (user_is u) m = nat_beq m.user_id u
holds (id_is u) m = nat_beq m.event_id u
holds (id_in us) m = contains us m.event_id

abbrev pub hold : List Condition → EventModel → Bool
hold [] m = true
hold (c ∷ cs) m = holds c m && hold cs m

-- Two rows with one primary key `(event_id, started_at)`.
abbrev pub same_key : EventModel → EventModel → Bool
same_key a b = nat_beq a.event_id b.event_id && nat_beq a.started_at.nanos b.started_at.nanos

abbrev pub has_key : List EventModel → EventModel → Bool
has_key [] m = false
has_key (r ∷ rows) m = if same_key r m then true else has_key rows m

-- `INSERT … ON CONFLICT (event_id, started_at) DO NOTHING`, row by row.
unfoldable pub insert_missing : List EventModel → List EventModel → List EventModel
insert_missing rows [] = rows
insert_missing rows (m ∷ ms) = insert_missing (if has_key rows m then rows else rows ++ m ∷ []) ms

abbrev pub column : String → Totals → ℕ
column c t =
    if c == "count_events"
    then t.count_events
    else if c == "sum_duration"
    then t.sum_duration
    else if c == "sum_bytes_up"
    then t.sum_bytes_up
    else if c == "sum_bytes_down"
    then t.sum_bytes_down
    else 0

-- The value that a `SET` gives to a column of a row: an expression over the row as it was, or the old
-- value. (An expression over another table is an error, and `BIGINT` overflow is one, so that a statement
-- that succeeds computes the 64-bit sum.)
abbrev pub assigned : String → Totals → String → Option Expr → ℕ
assigned table t c none = column c t
assigned table t c (some now) = column c t
assigned table t c (some (column_plus table' c' v)) =
    if table' == table then add64 (column c' t) v else column c t

abbrev pub set_row : String → Dict String Expr → Totals → Totals
set_row table sets t = record {
  count_events = assigned table t "count_events" (lookup "count_events" sets);
  sum_duration = assigned table t "sum_duration" (lookup "sum_duration" sets);
  sum_bytes_up = assigned table t "sum_bytes_up" (lookup "sum_bytes_up" sets);
  sum_bytes_down = assigned table t "sum_bytes_down" (lookup "sum_bytes_down" sets);
}

-- `INSERT … ON CONFLICT` on a row that is there or not.
abbrev pub upserted : String → Action → Totals → Option Totals → Totals
upserted table do_nothing new none = wrap new
upserted table do_nothing new (some old) = old
upserted table (do_updates sets) new none = wrap new
upserted table (do_updates sets) new (some old) = set_row table sets old

-- The rows of a table of aggregates, by date and type.
abbrev pub Rows : Type 0
Rows = Text → EventType → Option Totals

-- The documented behaviour of an upsert into a table whose primary key is a period and a type, with
-- these as the conflict's columns. `date` is the `DATE` that a time is stored as.
pub record CreatesAggregate {Db : Type 0}
    (create : Context → OnConflict → AggregationModel → Db → Db × Option Error)
    (table period : String) (date : Time → Text) (rows other : Db → Rows) : Type 0 where
  pub in_range :
      (db : Db) (k : Text) (y : EventType) (t : Totals) → rows db k y ≡ some t → wrap t ≡ t
  pub done :
      (ctx : Context) (action : Action) (m : AggregationModel) (db db' : Db)
      → create ctx (record { columns = period ∷ "type" ∷ []; action = action }) m db ≡ (db', none)
      → (k : Text) (y : EventType)
      → (rows db' k y ≡ (
          if (date m.period == k) && (m.event_type == y)
          then some (upserted table action m.totals (rows db k y))
          else rows db k y))
        × (other db' k y ≡ other db k y)
  pub failed :
      (ctx : Context) (c : OnConflict) (m : AggregationModel) (db db' : Db) (e : Error)
      → create ctx c m db ≡ (db', some e)
      → db' ≡ db

-- The documented behaviour of the database that the repositories rely on.
pub record SqlLaws {Db : Type 0} (sql : Gorm Db) : Type 0 where
  pub date : Time → Text
  pub event_rows : Db → List EventModel
  pub day_rows : Db → Rows
  pub month_rows : Db → Rows
  pub creates_day : CreatesAggregate sql.create_day "agg_day" "day" date day_rows month_rows
  pub creates_month : CreatesAggregate sql.create_month "agg_month" "month" date month_rows day_rows
  pub creates_events :
      (ctx : Context) (ms : List EventModel) (db db' : Db)
      → sql.create_events ctx
          (record { columns = "event_id" ∷ "started_at" ∷ []; action = do_nothing })
          ms
          db
        ≡ (db', none)
      → event_rows db' ≡ insert_missing (event_rows db) ms
  pub creates_events_failed :
      (ctx : Context) (c : OnConflict) (ms : List EventModel) (db db' : Db) (e : Error)
      → sql.create_events ctx c ms db ≡ (db', some e)
      → db' ≡ db
  pub finds_events :
      (ctx : Context) (cs : List Condition) (order : Option String) (db : Db) (ms : List EventModel)
      → sql.find_events ctx cs order none db ≡ ok ms
      → Perm ms (select (hold cs) (event_rows db))
