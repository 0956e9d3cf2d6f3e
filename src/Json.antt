-- ===== src/Json.antt =====
-- The JSON values that the apps send and receive without looking inside.
use ironman.Prelude.{ℕ, String, Bool}

-- `unknown` values: what `JSON.stringify` can write.
mutual
  pub data Json : Type 0 where
    null : Json
    bool : Bool → Json
    num : ℕ → Json
    str : String → Json
    arr : JsonItems → Json
    obj : JsonFields → Json

  pub data JsonItems : Type 0 where
    nil : JsonItems
    cons : Json → JsonItems → JsonItems

  pub data JsonFields : Type 0 where
    end : JsonFields
    field : String → Json → JsonFields → JsonFields
