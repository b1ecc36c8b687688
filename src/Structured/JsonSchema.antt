-- ===== src/Structured/JsonSchema.antt =====
-- structured.py: the subset of JSON Schema that is checked in process. A schema whose `enum` Python cannot
-- search for the value raises `TypeError`, out of every caller.
pub mod Rules
pub mod Sound
use llm_endpoint.Prelude.{
  String, Bool, true, false, Option, none, some, List, [], ◌∷◌, ◌&&◌, ◌||◌, ◌==◌, not, is_some, any,
  if◌then◌else◌,
}
use llm_endpoint.Prelude.Dict.{lookup, has_key}
use llm_endpoint.Prelude.Outcome.{Result, ok, raise, Error, ◌>>=◌}
use llm_endpoint.Values.{
  Value, null, bool, int, float, str, list, tuple, mapping, Items, nil, cons, Fields, items, fields,
  value_eq,
}
use text.Mathlib.Text.{find?}

abbrev named_type : String → Value → Bool
named_type name (str s) = name == "string"
named_type name (int n) = name == "integer" || name == "number"
named_type name (float m s) = name == "number"
named_type name (bool b) = name == "boolean"
named_type name (mapping fs) = name == "object"
named_type name (list vs) = name == "array"
named_type name null = name == "null"
named_type name (tuple vs) = false

unfoldable mutual
  pub matches_json_type : Value → Value → Bool
  matches_json_type (list names) value = matches_any_type names value
  matches_json_type (tuple names) value = matches_any_type names value
  matches_json_type (str name) value = named_type name value
  matches_json_type _ value = false

  pub matches_any_type : Items → Value → Bool
  matches_any_type nil value = false
  matches_any_type (cons name names) value =
      matches_json_type name value || matches_any_type names value

mutual
  hashable : Value → Bool
  hashable (list vs) = false
  hashable (mapping fs) = false
  hashable (tuple vs) = hashable_items vs
  hashable _ = true

  hashable_items : Items → Bool
  hashable_items nil = true
  hashable_items (cons v vs) = hashable v && hashable_items vs

abbrev text_key : Value → Option String
text_key (str s) = some s
text_key _ = none

in_text : String → Option String → Result Bool
in_text s none = raise (Error.type_error "'in <string>' requires string as left operand")
in_text s (some t) = ok (is_some (find? s t))

in_keys : List (String × Value) → Option String → Bool
unfolding lookup
in_keys fs none = false
in_keys fs (some k) = has_key k fs

-- `value in allowed`
unfoldable pub is_in : Value → Value → Result Bool
unfolding value_eq hashable in_text in_keys
is_in value (list vs) = ok (any (λ v. value_eq value v) (items vs))
is_in value (tuple vs) = ok (any (λ v. value_eq value v) (items vs))
is_in value (str s) = in_text s (text_key value)
is_in value (mapping fs) =
    if hashable value
    then ok (in_keys (fields fs) (text_key value))
    else raise (Error.type_error "unhashable type")
is_in value _ = raise (Error.type_error "argument is not iterable")

-- `mapping.get(key)`, where a value None and a missing key are one
abbrev pub get_value : String → Fields → Value
get_value key fs = elim (lookup key (fields fs)) [ none ↦ null | some v ↦ v ]

abbrev pub is_null : Value → Bool
is_null null = true
is_null _ = false

const_ok : Value → Option Value → Bool
unfolding value_eq
const_ok value none = true
const_ok value (some c) = value_eq value c

enum_ok : Value → Value → Result Bool
unfolding is_in
enum_ok value null = ok true
enum_ok value allowed = is_in value allowed

type_ok : Value → Value → Bool
unfolding matches_json_type
type_ok value null = true
type_ok value expected = matches_json_type expected value

unfoldable pub matches_property_schema : Value → Fields → Result Bool
unfolding const_ok enum_ok type_ok lookup
matches_property_schema value rules =
    if not (const_ok value (lookup "const" (fields rules))) then ok false else do
      allowed ← enum_ok value (get_value "enum" rules)
      if allowed then ok (type_ok value (get_value "type" rules)) else ok false

-- the part of the loop over `properties` that one property makes
property_ok : Option Value → Value → Result Bool
unfolding matches_property_schema
property_ok (some value) (mapping rules) = matches_property_schema value rules
property_ok _ _ = ok true

-- the loop; it ends at the first property that fails
unfoldable pub properties_ok : List (String × Value) → List (String × Value) → Result Bool
unfolding property_ok lookup
properties_ok value [] = ok true
properties_ok value ((key, rules) ∷ rest) =
    let later = properties_ok value rest in
    property_ok (lookup key value) rules >>= λ good. if good then later else ok false

-- `required`: none where the schema has neither a list nor a tuple
abbrev required_items : Option Value → Option (List Value)
required_items none = some []
required_items (some (list vs)) = some (items vs)
required_items (some (tuple vs)) = some (items vs)
required_items (some _) = none

missing_key : List (String × Value) → Value → Bool
unfolding lookup
missing_key value (str key) = not (has_key key value)
missing_key value _ = true

required_ok : List (String × Value) → Option (List Value) → Bool
unfolding missing_key
required_ok value none = false
required_ok value (some keys) = not (any (missing_key value) keys)

-- `properties`: its entries, nothing for None, and no answer for what is no mapping
pub data Properties : Type 0 where
  absent bad : Properties
  entries : List (String × Value) → Properties

abbrev schema_properties : Option Value → Properties
schema_properties none = entries []
schema_properties (some null) = absent
schema_properties (some (mapping fs)) = entries (fields fs)
schema_properties (some _) = bad

abbrev is_false : Value → Bool
is_false (bool false) = true
is_false _ = false

-- `additionalProperties` is the constant False, and the value has a key that `properties` has not
unfoldable pub has_extra_key : List (String × Value) → List (String × Value) → Value → Bool
unfolding lookup
has_extra_key value allowed additional =
    is_false additional && any (λ (entry : String × Value). not (has_key entry.0 allowed)) value

check_properties : List (String × Value) → Properties → Value → Result Bool
unfolding properties_ok has_extra_key
check_properties value bad additional = ok false
check_properties value absent additional = ok true
check_properties value (entries ps) additional = do
  good ← properties_ok value ps
  if good then ok (not (has_extra_key value ps additional)) else ok false

abbrev object_type : Value → Bool
object_type null = true
object_type (str s) = s == "object"
object_type _ = false

unfoldable pub matches_json_schema : Fields → Fields → Result Bool
unfolding required_ok check_properties lookup
matches_json_schema value schema =
    if not (object_type (get_value "type" schema))
    then ok false
    else if not (required_ok (fields value) (required_items (lookup "required" (fields schema))))
    then ok false
    else check_properties (fields value) (schema_properties (lookup "properties" (fields schema)))
        (get_value "additionalProperties" schema)
