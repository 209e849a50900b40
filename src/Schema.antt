-- ===== src/Schema.antt =====
-- `validate_json_schema` and `_matches_type` (json_schema.py), the subset of JSON Schema that the
-- inputs and results of managed agents are held to.
pub mod Conforms
pub mod Checks
pub mod Decides
use Prim.Native.String.{◌++◌ as str_append}
use agents_should_survive_fa.Base.{
  String, Bool, true, false, Option, none, some, str_eq, if◌then◌else◌, is_some, List, [], ◌∷◌,
}
use agents_should_survive_fa.Json.{
  Json, null, boolean, integer, float, text, array, object, Items, nil, cons, Fields, end, field,
  lookup,
}

-- What the validator raises: `JsonSchemaValidationError` by the message it has, and the `TypeError`
-- of hashing a list or a dict that stands as the type.
pub data SchemaError : Type 0 where
  must_be : String → String → SchemaError
  unsupported_type : Json → SchemaError
  unhashable_type : SchemaError
  invalid_required invalid_properties : String → SchemaError
  missing_field undeclared_field invalid_field : String → String → SchemaError

-- The first exception of two checks, in their order; `none` is a check that returns.
abbrev pub then_check : Option SchemaError → Option SchemaError → Option SchemaError
then_check (some e) _ = some e
then_check none next = next

-- The names of types that `_matches_type` knows; `{"null", None}` is the last test.
pub data TypeName : Type 0 where
  object_type array_type string_type boolean_type integer_type number_type null_type : TypeName

abbrev pub type_name : String → Option TypeName
type_name name =
    if str_eq name "object"
    then some object_type
    else if str_eq name "array"
    then some array_type
    else if str_eq name "string"
    then some string_type
    else if str_eq name "boolean"
    then some boolean_type
    else if str_eq name "integer"
    then some integer_type
    else if str_eq name "number"
    then some number_type
    else if str_eq name "null"
    then some null_type
    else none

-- The `isinstance` tests. `bool` is no integer and no number here.
unfoldable pub is_instance : Json → TypeName → Bool
is_instance (object _) object_type = true
is_instance (array _) array_type = true
is_instance (text _) string_type = true
is_instance (boolean _) boolean_type = true
is_instance (integer _) integer_type = true
is_instance (integer _) number_type = true
is_instance (float _) number_type = true
is_instance null null_type = true
is_instance _ _ = false

-- `_matches_type` on a type that is not None, and the exception if it does not match.
unfoldable pub matches_type : Json → Json → String → Option SchemaError
unfolding is_instance
matches_type value (text name) label = elim (type_name name) [
  | none ↦ some (unsupported_type (text name))
  | some t ↦ if is_instance value t then none else some (must_be label name)
]
matches_type value (array _) label = some unhashable_type
matches_type value (object _) label = some unhashable_type
matches_type value expected label = some (unsupported_type expected)

-- `expected_type is not None and not _matches_type(value, expected_type)`
unfoldable pub check_type : Json → Fields → String → Option SchemaError
unfolding matches_type
check_type value schema label = elim (lookup "type" schema) [
  | none ↦ none
  | some expected ↦ elim expected [ null ↦ none | t ↦ matches_type value t label ]
]

-- `all(isinstance(item, str) for item in required_items)` with the names.
abbrev pub names_of : Items → Option (List String)
names_of nil = some []
names_of (cons item rest) = elim item [
  | text name ↦ elim (names_of rest) [ none ↦ none | some names ↦ some (name ∷ names) ]
  | _ ↦ none
]

-- `schema.get("required", [])` as the names it lists, or none if it is not a list of texts.
unfoldable pub required_names : Fields → Option (List String)
required_names schema = elim (lookup "required" schema) [
  | none ↦ some []
  | some required ↦ elim required [ array items ↦ names_of items | _ ↦ none ]
]

-- The loop on `name not in value`.
unfoldable pub check_present : List String → Fields → String → Option SchemaError
check_present [] fields label = none
check_present (name ∷ names) fields label =
    if is_some (lookup name fields)
    then check_present names fields label
    else some (missing_field label name)

unfoldable pub check_required : Fields → Fields → String → Option SchemaError
unfolding required_names check_present
check_required fields schema label = elim (required_names schema) [
  | none ↦ some (invalid_required label)
  | some names ↦ check_present names fields label
]

-- `schema.get("properties", {})`, or none if it is not a mapping.
unfoldable pub properties_of : Fields → Option Fields
properties_of schema = elim (lookup "properties" schema) [
  | none ↦ some end
  | some properties ↦ elim properties [ object declared ↦ some declared | _ ↦ none ]
]

-- `schema.get("additionalProperties", True) is False`
unfoldable pub is_closed : Fields → Bool
is_closed schema = elim (lookup "additionalProperties" schema) [
  | none ↦ false
  | some additional ↦ elim additional [
    | boolean b ↦ elim b [ true ↦ false | false ↦ true ]
    | _ ↦ false
  ]
]

-- What the properties say of a field: nothing (None counts as nothing), no mapping, or a schema.
pub data Declared : Type 0 where
  undeclared malformed : Declared
  declared : Fields → Declared

unfoldable pub declared_schema : String → Fields → Declared
declared_schema name properties = elim (lookup name properties) [
  | none ↦ undeclared
  | some property ↦ elim property [
    | null ↦ undeclared
    | object schema ↦ declared schema
    | _ ↦ malformed
  ]
]

-- `f"{label}.{name}"`
abbrev pub sublabel : String → String → String
sublabel label name = str_append label (str_append "." name)

-- The body of the loop over `value.items()`; the last argument validates the item.
abbrev pub check_field :
    Declared → Bool → String → String → (Fields → Option SchemaError) → Option SchemaError
check_field undeclared closed label name nested =
    if closed then some (undeclared_field label name) else none
check_field malformed closed label name nested = some (invalid_field label name)
check_field (declared schema) closed label name nested = nested schema

-- `validate_json_schema` and its loop over `value.items()`; `none` is a value that passes.
unfoldable mutual
  unfolding check_type check_required properties_of is_closed declared_schema

  pub validate_json_schema : Json → Fields → String → Option SchemaError
  validate_json_schema (object fields) schema label =
      then_check (check_type (object fields) schema label) (
        then_check (check_required fields schema label) (elim (properties_of schema) [
          | none ↦ some (invalid_properties label)
          | some properties ↦ check_fields fields properties (is_closed schema) label
        ]))
  validate_json_schema value schema label = check_type value schema label

  pub check_fields : Fields → Fields → Bool → String → Option SchemaError
  check_fields end properties closed label = none
  check_fields (field name item rest) properties closed label =
      then_check
        (check_field (declared_schema name properties) closed label name
          λ schema. validate_json_schema item schema (sublabel label name))
        (check_fields rest properties closed label)
