-- ===== src/Schema/Decides.antt =====
-- `validate_json_schema` (json_schema.py) accepts exactly the values that conform.
use agents_should_survive_fa.Base.{
  String, ◌≡◌, ◌↔◌, refl, inl, inr, Bool, Option, none, some, arith, Bool-cases, Option-cases,
}
use agents_should_survive_fa.Json.{Json, object, Fields, end, field}
use agents_should_survive_fa.Schema.{
  check_type, check_required, required_names, properties_of, is_closed, declared_schema,
  validate_json_schema, check_fields, then_check, SchemaError, sublabel, check_field,
}
use agents_should_survive_fa.Schema.Conforms.{
  Has, here, there, Conforms, plain, structured, FieldConforms, open_field, declared_field,
}
use agents_should_survive_fa.Schema.Checks.{
  check_type_sound, check_type_complete, required_names_sound, required_names_complete,
  check_present_sound, check_present_complete, properties_of_sound, properties_of_complete,
  declared_schema-cases, declared_schema-undeclared, declared_schema-declared, is_closed_open,
  is_closed_closed,
}

then_check-none : (a b : Option SchemaError) → then_check a b ≡ none → (a ≡ none) × (b ≡ none)
then_check-none none b h = (refl, h)
then_check-none (some e) b h = absurd (ground arith)

-- The step of the loop for a field, and the rest of it.
loop_step :
    (name : String) (item : Json) (rest properties : Fields) (closed : Bool) (label : String)
    → check_fields (field name item rest) properties closed label ≡ none
    → (check_field
          (declared_schema name properties)
          closed
          label
          name
          (λ own. validate_json_schema item own (sublabel label name))
        ≡ none)
      × (check_fields rest properties closed label ≡ none)
unfolding validate_json_schema
loop_step name item rest properties closed label h =
    then_check-none
      (check_field (declared_schema name properties) closed label name
        (λ own. validate_json_schema item own (sublabel label name)))
      (check_fields rest properties closed label) h

-- What the checks of one object give, once its fields conform.
object-Conforms :
    (fields schema : Fields) (label : String)
    → ((properties : Fields)
        → check_fields fields properties (is_closed schema) label ≡ none
        → (name : String) (item : Json) → Has name item fields
        → FieldConforms schema properties name item)
    → validate_json_schema (object fields) schema label ≡ none
    → Conforms (object fields) schema
unfolding validate_json_schema check_required
object-Conforms fields schema label by_field h =
    let t : check_type (object fields) schema label ≡ none = ground arith in
    let r : check_required fields schema label ≡ none = ground arith in
    elim (Option-cases (required_names schema)) [
      | inl e ↦ absurd (ground arith)
      | inr (names, e) ↦ elim (Option-cases (properties_of schema)) [
        | inl missing ↦ absurd (ground arith)
        | inr (properties, f) ↦
            structured (check_type_sound (object fields) schema label t)
              (required_names_sound schema e)
              (check_present_sound names fields label (rw (check_required, e) at r))
              (properties_of_sound schema f) (by_field properties (ground arith))
      ]
    ]

field-Conforms :
    (name : String) (item : Json) (rest properties schema : Fields) (label : String)
    → ((own : Fields)
        → validate_json_schema item own (sublabel label name) ≡ none
        → Conforms item own)
    → check_fields (field name item rest) properties (is_closed schema) label ≡ none
    → FieldConforms schema properties name item
unfolding validate_json_schema
field-Conforms name item rest properties schema label nested h =
    let checked = (loop_step name item rest properties (is_closed schema) label h).0 in
    elim (declared_schema-cases name properties) [
      | inl (absent, e) ↦ elim (Bool-cases (is_closed schema)) [
        | inl closed ↦ absurd (ground (arith, rw (e, closed) at checked))
        | inr opened ↦ open_field absent (is_closed_open schema opened)
      ]
      | inr (inl (own, found, e)) ↦ declared_field found (nested own (rw e at checked))
      | inr (inr e) ↦ absurd (ground (arith, rw e at checked))
    ]

mutual
  unfolding validate_json_schema

  sound :
      (value : Json) (schema : Fields) (label : String)
      → validate_json_schema value schema label ≡ none
      → Conforms value schema
  sound (object fields) schema label h =
      object-Conforms fields schema label (sound_fields fields schema label) h
  sound value schema label h = plain tt (check_type_sound value schema label h)

  sound_fields :
      (fields schema : Fields) (label : String) (properties : Fields)
      → check_fields fields properties (is_closed schema) label ≡ none
      → (name : String) (item : Json) → Has name item fields
      → FieldConforms schema properties name item
  sound_fields (field name item rest) schema label properties h n v here =
      field-Conforms name item rest properties schema label (λ own. sound item own _) h
  sound_fields (field name item rest) schema label properties h n v (there m) =
      sound_fields rest schema label properties
        (loop_step name item rest properties (is_closed schema) label h).1 n v m
  sound_fields end schema label properties h n v m = elim m [ ]

-- A declared field that passes and an undeclared one that is allowed let the loop go on.
field_passes :
    (name : String) (item : Json) (rest properties schema : Fields) (label : String)
    → ((own : Fields)
        → Conforms item own
        → validate_json_schema item own (sublabel label name) ≡ none)
    → check_fields rest properties (is_closed schema) label ≡ none
    → FieldConforms schema properties name item
    → check_fields (field name item rest) properties (is_closed schema) label ≡ none
unfolding validate_json_schema
field_passes name item rest properties schema label nested tail (open_field absent opened) =
    elim (Bool-cases (is_closed schema)) [
      | inl closed ↦ absurd (opened (is_closed_closed schema closed))
      | inr e ↦ ground (arith, declared_schema-undeclared name properties absent)
    ]
field_passes name item rest properties schema label nested tail (declared_field {own} found c) =
    ground (arith, declared_schema-declared name properties own found, nested own c)

mutual
  unfolding validate_json_schema check_required

  complete :
      (value : Json) (schema : Fields) (label : String)
      → Conforms value schema
      → validate_json_schema value schema label ≡ none
  complete (object fields) schema label (structured {properties} {names} t r a p each) = ground (
    arith,
    check_type_complete (object fields) schema label t,
    required_names_complete r,
    check_present_complete names fields label a,
    properties_of_complete p,
    complete_fields fields schema label properties each,
  )
  complete (object fields) schema label (plain no_object t) = absurd no_object
  complete value schema label (plain _ t) = check_type_complete value schema label t

  complete_fields :
      (fields schema : Fields) (label : String) (properties : Fields)
      → ((name : String) (item : Json)
          → Has name item fields
          → FieldConforms schema properties name item)
      → check_fields fields properties (is_closed schema) label ≡ none
  complete_fields end schema label properties each = refl
  complete_fields (field name item rest) schema label properties each =
      field_passes name item rest properties schema label (λ own. complete item own _)
        (complete_fields rest schema label properties (λ n v m. each n v (there m)))
        (each name item here)

-- The validator returns without an exception exactly when the value conforms to the schema, whatever
-- the label of its messages.
pub validate_json_schema-Conforms :
    (value : Json) (schema : Fields) (label : String)
    → (validate_json_schema value schema label ≡ none) ↔ Conforms value schema
validate_json_schema-Conforms value schema label =
    (sound value schema label, complete value schema label)
