-- ===== src/Structured/JsonSchema/Sound.antt =====
-- What a value that passes the schema check has.
use llm_endpoint.Prelude.{String, ◌≡◌, true, false, some, List, All}
use llm_endpoint.Prelude.Dict.{lookup, has_key}
use llm_endpoint.Values.{Value, str, bool, list, mapping, Fields, Items, items, fields}
use llm_endpoint.Structured.JsonSchema.Rules.{IsObeying}

-- A required key is text, and is in the value.
abbrev pub IsPresent : List (String × Value) → Value → Type 0
IsPresent value key = (name : String) × (key ≡ str name) × (has_key name value ≡ true)

-- If a property has rules and the value has the property, it obeys the rules.
abbrev pub Obeys : List (String × Value) → String × Value → Type 0
Obeys value (key, mapping rules) = (v : Value) → lookup key value ≡ some v → IsObeying v rules
Obeys value (key, _) = Unit

-- The value fits the schema: it has the required keys, obeys the rules of its properties, and has no key
-- besides the properties where these are closed.
pub record IsFitting (value schema : Fields) : Type 0 where
  pub required :
      (keys : Items)
      → lookup "required" (fields schema) ≡ some (list keys)
      → All (IsPresent (fields value)) (items keys)
  pub properties :
      (rules : Fields)
      → lookup "properties" (fields schema) ≡ some (mapping rules)
      → All (Obeys (fields value)) (fields rules)
  pub closed :
      (rules : Fields)
      → lookup "properties" (fields schema) ≡ some (mapping rules)
      → lookup "additionalProperties" (fields schema) ≡ some (bool false)
      → All (λ (entry : String × Value). has_key entry.0 (fields rules) ≡ true) (fields value)
