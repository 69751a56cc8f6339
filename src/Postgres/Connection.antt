-- ===== src/Postgres/Connection.antt =====
-- internal/infrastructure/postgres/db.go: the connection to the database. GORM and its driver are a
-- parameter.
use network_actions_aggregat.Prelude.{ℕ, String, Option, none, some}
use Prim.Native.String.{◌++◌}
use network_actions_aggregat.Entity.Errors.{Error, Result, ok, err, wrap_error, ◌>>=◌}

-- Durations in nanoseconds.
pub record Config : Type 0 where
  pub host : String
  pub port : String
  pub user : String
  pub password : String
  pub db_name : String
  pub ssl_mode : String
  pub max_open_conns : ℕ
  pub max_idle_conns : ℕ
  pub conn_max_lifetime : ℕ
  pub conn_max_idle_time : ℕ

-- What `sqlDB.SetMaxOpenConns` and its kin are given, in their order.
pub record Limits : Type 0 where
  pub max_open_conns : ℕ
  pub max_idle_conns : ℕ
  pub conn_max_lifetime : ℕ
  pub conn_max_idle_time : ℕ

-- `gorm.Open`, `DB()` of a handle, the limits of a pool, and its `Ping`.
pub record Driver (Handle Pool : Type 0) : Type 0 where
  pub open_db : String → Result Handle
  pub pool_of : Handle → Result Pool
  pub set_limits : Limits → Pool → Pool
  pub ping : Pool → Option Error

-- The text of `fmt.Sprintf` for the data source.
unfoldable pub data_source : Config → String
data_source c =
    "host=" ++ c.host ++ " port=" ++ c.port ++ " user=" ++ c.user ++ " password=" ++ c.password
    ++ " dbname=" ++ c.db_name ++ " sslmode=" ++ c.ssl_mode

abbrev pub limits_of : Config → Limits
limits_of c = record {
  max_open_conns = c.max_open_conns;
  max_idle_conns = c.max_idle_conns;
  conn_max_lifetime = c.conn_max_lifetime;
  conn_max_idle_time = c.conn_max_idle_time;
}

-- `if err := …; err != nil { return nil, err }; return a, nil`.
abbrev pub unless_error : {A : Type 0} → Option Error → A → Result A
unless_error none a = ok a
unless_error (some e) a = err e

-- `NewConnection`: the handle, with the pool whose limits were set.
unfoldable pub new_connection :
    {Handle Pool : Type 0} → Driver Handle Pool → Config → Result (Handle × Pool)
new_connection driver c = do
  db ← wrap_error "failed to connect to database" (driver.open_db (data_source c))
  pool ← wrap_error "failed to get database instance" (driver.pool_of db)
  let limited = driver.set_limits (limits_of c) pool
  wrap_error "failed to ping database" (unless_error (driver.ping limited) (db, limited))
