-- ===== src/Json.antt =====
-- The values of `dict[str, Any]`, task payloads and JSON columns. A float is kept by its text.
use agents_should_survive_fa.Base.{String, Bool, Option, none, some, str_eq, if◌then◌else◌}
use agents_should_survive_fa.Base.Int.{ℤ}

mutual
  pub data Json : Type 0 where
    null : Json
    boolean : Bool → Json
    integer : ℤ → Json
    float : String → Json
    text : String → Json
    array : Items → Json
    object : Fields → Json

  pub data Items : Type 0 where
    nil : Items
    cons : Json → Items → Items

  pub data Fields : Type 0 where
    end : Fields
    field : String → Json → Fields → Fields

-- `fields.get(name)`; a dict has one value under a name.
abbrev pub lookup : String → Fields → Option Json
lookup name end = none
lookup name (field n value rest) = if str_eq n name then some value else lookup name rest
