-- ===== src/Examples/Validating.antt =====
-- Examples for json_schema.py: a task with a nested, closed schema.
use agents_should_survive_fa.Base.{◌≡◌, ◌↔◌, refl, none, some, true, false}
use agents_should_survive_fa.Base.Int.{pos}
use agents_should_survive_fa.Json.{
  Json, Fields, integer, boolean, text, array, object, nil, cons, end, field,
}
use agents_should_survive_fa.Schema.{
  validate_json_schema, missing_field, undeclared_field, must_be, unhashable_type, check_type,
  check_required, properties_of, is_closed, declared_schema, matches_type, is_instance,
  required_names, check_present,
}
use agents_should_survive_fa.Schema.Conforms.{Conforms}
use agents_should_survive_fa.Schema.Decides.{validate_json_schema-Conforms}

abbrev typed : Json → Fields
typed name = field "type" name end

abbrev schema : Fields
schema = field "type" (text "object") (
    field "required" (array (cons (text "topic") nil)) (
      field "additionalProperties" (boolean false) (
        field "properties"
          (object (
            field "topic" (object (typed (text "string")))
              (field "depth" (object (typed (text "integer"))) end)))
          end)))

abbrev task : Json
task = object (field "topic" (text "suppliers") (field "depth" (integer (pos 2)) end))

accepted : validate_json_schema task schema "task input" ≡ none
unfolding validate_json_schema check_type check_required properties_of is_closed declared_schema
    matches_type is_instance required_names check_present
accepted = refl

missing :
    validate_json_schema (object end) schema "task input"
    ≡ some (missing_field "task input" "topic")
unfolding validate_json_schema check_type check_required properties_of is_closed declared_schema
    matches_type is_instance required_names check_present
missing = refl

mistyped :
    validate_json_schema (object (field "topic" (boolean true) end)) schema "task input"
    ≡ some (must_be "task input.topic" "string")
unfolding validate_json_schema check_type check_required properties_of is_closed declared_schema
    matches_type is_instance required_names check_present
mistyped = refl

undeclared :
    validate_json_schema
      (object (field "topic" (text "a") (field "extra" (text "b") end)))
      schema
      "task input"
    ≡ some (undeclared_field "task input" "extra")
unfolding validate_json_schema check_type check_required properties_of is_closed declared_schema
    matches_type is_instance required_names check_present
undeclared = refl

-- A list of types, which JSON Schema allows, is a `TypeError`.
type_list :
    validate_json_schema task (typed (array (cons (text "object") nil))) "task input"
    ≡ some unhashable_type
unfolding validate_json_schema check_type check_required properties_of is_closed declared_schema
    matches_type is_instance required_names check_present
type_list = refl

validate_json_schema-Conforms_example :
    (validate_json_schema task schema "task input" ≡ none) ↔ Conforms task schema
validate_json_schema-Conforms_example = validate_json_schema-Conforms task schema "task input"
