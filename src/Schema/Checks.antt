-- ===== src/Schema/Checks.antt =====
-- The single checks of `validate_json_schema` (json_schema.py) against what they stand for.
use mathlib.Core.Option.{some-injective}
use agents_should_survive_fa.Base.{
  subst, sym, String, ◌≡◌, ◌≢◌, refl, ◌⊎◌, inl, inr, true, false, none, some, List, [], ◌∷◌, str_eq,
  arith, eq_iff, eq_refl, Bool-cases, Option-cases, is_some,
}
use agents_should_survive_fa.Json.{
  Json, null, boolean, integer, float, text, array, object, Items, nil, cons, Fields, end, field,
  lookup,
}
use agents_should_survive_fa.Schema.{
  TypeName, object_type, array_type, string_type, boolean_type, integer_type, number_type,
  null_type, type_name, is_instance, matches_type, check_type, names_of, required_names,
  check_present, properties_of, is_closed, undeclared, malformed, declared, declared_schema,
}
use agents_should_survive_fa.Schema.Conforms.{
  HasType, is_object, is_array, is_string, is_boolean, is_integer, is_number, is_float, is_null,
  Typed, untyped, null_typed, typed, Listed, listed_nil, listed_cons, Requires, unrequired,
  required, Has, here, there, AllPresent, Properties, unlisted, mapping,
}

has_type : (value : Json) (t : TypeName) → is_instance value t ≡ true → HasType value t
unfolding is_instance
has_type (object _) object_type h = is_object
has_type (array _) array_type h = is_array
has_type (text _) string_type h = is_string
has_type (boolean _) boolean_type h = is_boolean
has_type (integer _) integer_type h = is_integer
has_type (integer _) number_type h = is_number
has_type (float _) number_type h = is_float
has_type null null_type h = is_null
has_type value t h = absurd (ground (arith, h))

instance_of : {value : Json} {t : TypeName} → HasType value t → is_instance value t ≡ true
unfolding is_instance
instance_of is_object = refl
instance_of is_array = refl
instance_of is_string = refl
instance_of is_boolean = refl
instance_of is_integer = refl
instance_of is_number = refl
instance_of is_float = refl
instance_of is_null = refl

matched :
    (value : Json) (name label : String) (t : TypeName)
    → type_name name ≡ some t
    → matches_type value (text name) label ≡ none
    → is_instance value t ≡ true
unfolding matches_type
matched value name label t e h = elim (Bool-cases (is_instance value t)) [
  | inl fits ↦ fits
  | inr misfits ↦ absurd (ground arith)
]

check_type_given :
    (value : Json) (schema : Fields) (label : String) (expected : Json)
    → lookup "type" schema ≡ some expected
    → check_type value schema label ≡ none
    → Typed value schema
unfolding check_type matches_type
check_type_given value schema label null e h = null_typed e
check_type_given value schema label (text name) e h = elim (Option-cases (type_name name)) [
  | inl unknown ↦ absurd (ground arith)
  | inr (t, known) ↦
      typed e known (has_type value t (matched value name label t known (rw (check_type, e) at h)))
]
check_type_given value schema label expected e h = absurd (ground arith)

pub check_type_sound :
    (value : Json) (schema : Fields) (label : String)
    → check_type value schema label ≡ none
    → Typed value schema
check_type_sound value schema label h = elim (Option-cases (lookup "type" schema)) [
  | inl e ↦ untyped e
  | inr (expected, e) ↦ check_type_given value schema label expected e h
]

pub check_type_complete :
    (value : Json) (schema : Fields) (label : String)
    → Typed value schema
    → check_type value schema label ≡ none
unfolding check_type matches_type
check_type_complete value schema label (untyped e) = ground arith
check_type_complete value schema label (null_typed e) = ground arith
check_type_complete value schema label (typed e known h) = ground (arith, instance_of h)

names_of_sound :
    (items : Items) {names : List String} → names_of items ≡ some names → Listed items names
names_of_sound nil {names} h = subst (Listed nil) (some-injective [] names h) listed_nil
names_of_sound (cons (text name) rest) {names} h = elim (Option-cases (names_of rest)) [
  | inl e ↦ absurd (ground arith)
  | inr (tail, e) ↦
      subst (Listed (cons (text name) rest)) (some-injective (name ∷ tail) names (rw e at h))
        (listed_cons (names_of_sound rest e))
]
names_of_sound (cons item rest) h = absurd (ground arith)

names_of_complete :
    {items : Items} {names : List String} → Listed items names → names_of items ≡ some names
names_of_complete listed_nil = refl
names_of_complete (listed_cons l) = rw (names_of_complete l) refl

required_given :
    (schema : Fields) (j : Json) {names : List String}
    → lookup "required" schema ≡ some j
    → required_names schema ≡ some names
    → Requires schema names
unfolding required_names
required_given schema (array items) e h =
    required e (names_of_sound items (rw (required_names, e) at h))
required_given schema j e h = absurd (ground arith)

pub required_names_sound :
    (schema : Fields) {names : List String}
    → required_names schema ≡ some names
    → Requires schema names
unfolding required_names
required_names_sound schema {names} h = elim (Option-cases (lookup "required" schema)) [
  | inl e ↦
      subst (Requires schema) (some-injective [] names (rw (required_names, e) at h)) (unrequired e)
  | inr (j, e) ↦ required_given schema j e h
]

pub required_names_complete :
    {schema : Fields} {names : List String}
    → Requires schema names
    → required_names schema ≡ some names
unfolding required_names
required_names_complete (unrequired e) = ground arith
required_names_complete (required e l) = ground (arith, names_of_complete l)

lookup-Has :
    (name : String) (fields : Fields) {value : Json}
    → lookup name fields ≡ some value
    → Has name value fields
lookup-Has name end h = absurd (ground arith)
lookup-Has name (field n v rest) {value} h = elim (Bool-cases (str_eq n name)) [
  | inl e ↦
      let same : n ≡ name = (eq_iff n name).0 e in
      let taken : v ≡ value = some-injective v value (rw e at h) in
      subst (λ x. Has name value (field x v rest)) (sym same)
        (subst (λ x. Has name value (field name x rest)) (sym taken) here)
  | inr e ↦ there (lookup-Has name rest (rw e at h))
]

Has-found :
    {name : String} {value : Json} {fields : Fields}
    → Has name value fields
    → is_some (lookup name fields) ≡ true
Has-found {name} here = ground (arith, eq_refl name)
Has-found {name} (there {n} h) = ground (arith, Has-found h)

pub check_present_sound :
    (names : List String) (fields : Fields) (label : String)
    → check_present names fields label ≡ none
    → AllPresent names fields
unfolding check_present
check_present_sound [] fields label h = tt
check_present_sound (name ∷ names) fields label h = elim (Option-cases (lookup name fields)) [
  | inl e ↦ absurd (ground arith)
  | inr (value, e) ↦ (
    (value, lookup-Has name fields e),
    check_present_sound names fields label (rw (check_present, e) at h),
  )
]

pub check_present_complete :
    (names : List String) (fields : Fields) (label : String)
    → AllPresent names fields
    → check_present names fields label ≡ none
unfolding check_present
check_present_complete [] fields label a = refl
check_present_complete (name ∷ names) fields label ((value, h), a) =
    ground (arith, Has-found h, check_present_complete names fields label a)

given-Properties :
    (schema : Fields) (j : Json) {properties : Fields}
    → lookup "properties" schema ≡ some j
    → properties_of schema ≡ some properties
    → Properties schema properties
unfolding properties_of
given-Properties schema (object given) {properties} e h =
    subst (Properties schema) (some-injective given properties (rw (properties_of, e) at h))
      (mapping e)
given-Properties schema j e h = absurd (ground arith)

pub properties_of_sound :
    (schema : Fields) {properties : Fields}
    → properties_of schema ≡ some properties
    → Properties schema properties
unfolding properties_of
properties_of_sound schema {properties} h = elim (Option-cases (lookup "properties" schema)) [
  | inl e ↦
      subst (Properties schema) (some-injective end properties (rw (properties_of, e) at h))
        (unlisted e)
  | inr (j, e) ↦ given-Properties schema j e h
]

pub properties_of_complete :
    {schema properties : Fields}
    → Properties schema properties
    → properties_of schema ≡ some properties
unfolding properties_of
properties_of_complete (unlisted e) = ground arith
properties_of_complete (mapping e) = ground arith

abbrev pub Undeclared : String → Fields → Type 0
Undeclared name properties = (lookup name properties ≡ none) ⊎ (lookup name properties ≡ some null)

declared_given :
    (name : String) (properties : Fields) (j : Json)
    → lookup name properties ≡ some j
    → (Undeclared name properties × (declared_schema name properties ≡ undeclared))
      ⊎ ((own : Fields) × (lookup name properties ≡ some (object own))
          × (declared_schema name properties ≡ declared own))
      ⊎ (declared_schema name properties ≡ malformed)
unfolding declared_schema
declared_given name properties null e = inl (inr e, ground arith)
declared_given name properties (object own) e = inr (inl (own, e, ground arith))
declared_given name properties j e = inr (inr (ground arith))

-- The three answers of `declared_schema`, and what each says of the properties.
pub declared_schema-cases :
    (name : String) (properties : Fields)
    → (Undeclared name properties × (declared_schema name properties ≡ undeclared))
      ⊎ ((own : Fields) × (lookup name properties ≡ some (object own))
          × (declared_schema name properties ≡ declared own))
      ⊎ (declared_schema name properties ≡ malformed)
unfolding declared_schema
declared_schema-cases name properties = elim (Option-cases (lookup name properties)) [
  | inl e ↦ inl (inl e, ground arith)
  | inr (j, e) ↦ declared_given name properties j e
]

pub declared_schema-undeclared :
    (name : String) (properties : Fields)
    → Undeclared name properties
    → declared_schema name properties ≡ undeclared
unfolding declared_schema
declared_schema-undeclared name properties (inl e) = ground arith
declared_schema-undeclared name properties (inr e) = ground arith

pub declared_schema-declared :
    (name : String) (properties own : Fields)
    → lookup name properties ≡ some (object own)
    → declared_schema name properties ≡ declared own
unfolding declared_schema
declared_schema-declared name properties own e = ground arith

pub is_closed_open :
    (schema : Fields)
    → is_closed schema ≡ false
    → lookup "additionalProperties" schema ≢ some (boolean false)
unfolding is_closed
is_closed_open schema h e = ground arith

closed_given :
    (schema : Fields) (j : Json)
    → lookup "additionalProperties" schema ≡ some j
    → is_closed schema ≡ true
    → lookup "additionalProperties" schema ≡ some (boolean false)
unfolding is_closed
closed_given schema (boolean false) e h = e
closed_given schema j e h = absurd (ground arith)

pub is_closed_closed :
    (schema : Fields)
    → is_closed schema ≡ true
    → lookup "additionalProperties" schema ≡ some (boolean false)
unfolding is_closed
is_closed_closed schema h = elim (Option-cases (lookup "additionalProperties" schema)) [
  | inl e ↦ absurd (ground arith)
  | inr (j, e) ↦ closed_given schema j e h
]
