-- ===== src/Entity/Json.antt =====
-- Decoded JSON values, as `map[string]interface{}` holds them.
use network_actions_aggregat.Prelude.{String, Bool, Option}
use network_actions_aggregat.Dict.{Dict}

-- A number is kept as its text.
mutual
  pub data Json : Type 0 where
    null : Json
    bool : Bool → Json
    num : String → Json
    str : String → Json
    arr : Items → Json
    obj : Fields → Json

  pub data Items : Type 0 where
    nil : Items
    cons : Json → Items → Items

  pub data Fields : Type 0 where
    end : Fields
    field : String → Json → Fields → Fields

-- `none` is the nil map.
abbrev pub Meta : Type 0
Meta = Option (Dict String Json)
