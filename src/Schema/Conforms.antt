-- ===== src/Schema/Conforms.antt =====
-- What a schema says of a value, independent of the order in which `validate_json_schema`
-- (json_schema.py) looks.
use agents_should_survive_fa.Base.{String, ◌≡◌, ◌≢◌, ◌⊎◌, Bool, false, none, some, List, [], ◌∷◌}
use agents_should_survive_fa.Schema.{
  TypeName, object_type, array_type, string_type, boolean_type, integer_type, number_type,
  null_type, type_name,
}
use agents_should_survive_fa.Json.{
  Json, null, boolean, integer, float, text, array, object, Items, nil, cons, Fields, end, field,
  lookup,
}
use agents_should_survive_fa.Base.Int.{ℤ}

pub data HasType : Json → TypeName → Type 0 where
  is_object : {fields : Fields} → HasType (object fields) object_type
  is_array : {items : Items} → HasType (array items) array_type
  is_string : {t : String} → HasType (text t) string_type
  is_boolean : {b : Bool} → HasType (boolean b) boolean_type
  is_integer : {n : ℤ} → HasType (integer n) integer_type
  is_number : {n : ℤ} → HasType (integer n) number_type
  is_float : {t : String} → HasType (float t) number_type
  is_null : HasType null null_type

-- The value has the type of the schema, if the schema has one.
pub data Typed (value : Json) (schema : Fields) : Type 0 where
  untyped : lookup "type" schema ≡ none → Typed value schema
  null_typed : lookup "type" schema ≡ some null → Typed value schema
  typed :
      {name : String} {t : TypeName}
      → lookup "type" schema ≡ some (text name)
      → type_name name ≡ some t
      → HasType value t
      → Typed value schema

pub data Listed : Items → List String → Type 0 where
  listed_nil : Listed nil []
  listed_cons :
      {name : String} {items : Items} {names : List String}
      → Listed items names
      → Listed (cons (text name) items) (name ∷ names)

-- The names that the schema requires.
pub data Requires (schema : Fields) : List String → Type 0 where
  unrequired : lookup "required" schema ≡ none → Requires schema []
  required :
      {items : Items} {names : List String}
      → lookup "required" schema ≡ some (array items)
      → Listed items names
      → Requires schema names

pub data Has (name : String) (value : Json) : Fields → Type 0 where
  here : {rest : Fields} → Has name value (field name value rest)
  there :
      {n : String} {v : Json} {rest : Fields}
      → Has name value rest
      → Has name value (field n v rest)

-- Every name of the list is a field.
abbrev pub AllPresent : List String → Fields → Type 0
AllPresent [] fields = Unit
AllPresent (name ∷ names) fields =
    ((value : Json) × Has name value fields) × AllPresent names fields

pub data Properties (schema : Fields) : Fields → Type 0 where
  unlisted : lookup "properties" schema ≡ none → Properties schema end
  mapping :
      {properties : Fields}
      → lookup "properties" schema ≡ some (object properties)
      → Properties schema properties

abbrev pub NotObject : Json → Type 0
NotObject (object _) = ⊥
NotObject _ = Unit

-- A value conforms to a schema, and a field to the properties of an object's schema: a field that
-- they do not declare is allowed unless the schema is closed, a declared one conforms to its schema.
mutual
  pub data Conforms : Json → Fields → Type 0 where
    plain :
        {value : Json} {schema : Fields}
        → NotObject value
        → Typed value schema
        → Conforms value schema
    structured :
        {fields schema properties : Fields} {names : List String}
        → Typed (object fields) schema
        → Requires schema names
        → AllPresent names fields
        → Properties schema properties
        → ((name : String) (item : Json)
            → Has name item fields
            → FieldConforms schema properties name item)
        → Conforms (object fields) schema

  pub data FieldConforms : Fields → Fields → String → Json → Type 0 where
    open_field :
        {schema properties : Fields} {name : String} {item : Json}
        → (lookup name properties ≡ none) ⊎ (lookup name properties ≡ some null)
        → lookup "additionalProperties" schema ≢ some (boolean false)
        → FieldConforms schema properties name item
    declared_field :
        {schema properties own : Fields} {name : String} {item : Json}
        → lookup name properties ≡ some (object own)
        → Conforms item own
        → FieldConforms schema properties name item
