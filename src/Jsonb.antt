-- ===== src/Jsonb.antt =====
-- internal/infrastructure/repository/postgres/gorm_models/common.go: the column type `JSONB`, by what it
-- gives to the driver and reads from it.
use network_actions_aggregat.Prelude.{String, Option, none, some, [], ◌∷◌}
use network_actions_aggregat.Dict.{Dict}
use network_actions_aggregat.Entity.Json.{Json, Meta}
use network_actions_aggregat.Entity.Errors.{Error, Result, ok, err, message, ◌>>=◌}
use network_actions_aggregat.Package.{JsonPackage, Bytes}

-- A `driver.Value`: NULL, bytes or one of another type.
pub data DriverValue : Type 0 where
  null other : DriverValue
  bytes : Bytes → DriverValue

module _ (json : JsonPackage (Dict String Json)) where
  -- `Value`.
  unfoldable pub value : Meta → Result DriverValue
  value none = ok null
  value (some m) = do b ← json.marshal m; ok (bytes b)

  -- `*j = result`, unless the error of `json.Unmarshal` is returned.
  abbrev pub assign : Result (Dict String Json) → Meta → Meta × Option Error
  assign (ok m) j = (some m, none)
  assign (err e) j = (j, some e)

  -- `Scan`, with the receiver before and after it.
  unfoldable pub scan : DriverValue → Meta → Meta × Option Error
  scan null j = (some [], none)
  scan other j = (j, some (message "type assertion to []byte failed"))
  scan (bytes []) j = (some [], none)
  scan (bytes (b ∷ bs)) j = assign (json.unmarshal (b ∷ bs)) j
