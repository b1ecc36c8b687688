-- ===== src/Structured/JsonSchema/Rules.antt =====
-- What the rules of a property ask of a value, and that a value that passes their check has it.
use llm_endpoint.Prelude.{
  String, ◌≡◌, ◌⊎◌, inl, inr, true, false, some, List, [], ◌∷◌, any, contains, Bool-cases, eq_iff,
  arith,
}
use llm_endpoint.Prelude.Dict.{lookup}
use llm_endpoint.Prelude.Outcome.{ok, ok-injective, >>=-eq-ok}
use llm_endpoint.Values.{
  Value, null, bool, int, float, str, list, tuple, mapping, Items, nil, cons, Fields, items, fields,
  value_eq,
}
use llm_endpoint.Structured.JsonSchema.{
  named_type, matches_json_type, matches_any_type, is_in, is_null, const_ok, enum_ok, type_ok,
  get_value, matches_property_schema,
}

-- the names that JSON Schema has for the type of a value; a tuple has none
abbrev pub type_names : Value → List String
type_names null = "null" ∷ []
type_names (bool b) = "boolean" ∷ []
type_names (int n) = "integer" ∷ "number" ∷ []
type_names (float m s) = "number" ∷ []
type_names (str s) = "string" ∷ []
type_names (list vs) = "array" ∷ []
type_names (tuple vs) = []
type_names (mapping fs) = "object" ∷ []

mutual
  -- A value has a type that is named, or one of the types that are listed.
  pub data IsTyped (v : Value) : Value → Type 0 where
    named : (name : String) → contains name (type_names v) ≡ true → IsTyped v (str name)
    listed : (ts : Items) → IsTypedBy v ts → IsTyped v (list ts)
    tupled : (ts : Items) → IsTypedBy v ts → IsTyped v (tuple ts)

  pub data IsTypedBy (v : Value) : Items → Type 0 where
    here : (t : Value) (ts : Items) → IsTyped v t → IsTypedBy v (cons t ts)
    there : (t : Value) (ts : Items) → IsTypedBy v ts → IsTypedBy v (cons t ts)

-- The value equals the constant, is equal to one of the values that a list or a tuple enumerates, and has the type,
-- as far as the rules have these.
pub record IsObeying (v : Value) (rules : Fields) : Type 0 where
  pub constant : (c : Value) → lookup "const" (fields rules) ≡ some c → value_eq v c ≡ true
  pub enumerated :
      (vs : Items)
      → (lookup "enum" (fields rules) ≡ some (list vs))
        ⊎ (lookup "enum" (fields rules) ≡ some (tuple vs))
      → any (λ w. value_eq v w) (items vs) ≡ true
  pub typed : (t : Value) → lookup "type" (fields rules) ≡ some t → is_null t ≡ false → IsTyped v t

named_type-name :
    (name : String) (v : Value) → named_type name v ≡ true → contains name (type_names v) ≡ true
named_type-name name null h = ground (arith, h, eq_iff name "null", eq_iff "null" name)
named_type-name name (bool b) h = ground (arith, h, eq_iff name "boolean", eq_iff "boolean" name)
named_type-name name (int n) h = ground (
  arith,
  h,
  eq_iff name "integer",
  eq_iff "integer" name,
  eq_iff name "number",
  eq_iff "number" name,
)
named_type-name name (float m s) h = ground (arith, h, eq_iff name "number", eq_iff "number" name)
named_type-name name (str s) h = ground (arith, h, eq_iff name "string", eq_iff "string" name)
named_type-name name (list vs) h = ground (arith, h, eq_iff name "array", eq_iff "array" name)
named_type-name name (tuple vs) h = cc
named_type-name name (mapping fs) h = ground (arith, h, eq_iff name "object", eq_iff "object" name)

mutual
  unfolding matches_json_type

  matches_json_type-IsTyped : (t v : Value) → matches_json_type t v ≡ true → IsTyped v t
  matches_json_type-IsTyped (list ts) v h = listed ts (matches_any_type-IsTypedBy ts v h)
  matches_json_type-IsTyped (tuple ts) v h = tupled ts (matches_any_type-IsTypedBy ts v h)
  matches_json_type-IsTyped (str name) v h = named name (named_type-name name v h)
  matches_json_type-IsTyped null v h = cc
  matches_json_type-IsTyped (bool b) v h = cc
  matches_json_type-IsTyped (int n) v h = cc
  matches_json_type-IsTyped (float m s) v h = cc
  matches_json_type-IsTyped (mapping fs) v h = cc

  matches_any_type-IsTypedBy :
      (ts : Items) (v : Value) → matches_any_type ts v ≡ true → IsTypedBy v ts
  matches_any_type-IsTypedBy nil v h = cc
  matches_any_type-IsTypedBy (cons t ts) v h = elim (Bool-cases (matches_json_type t v)) [
    | inl fits ↦ here t ts (matches_json_type-IsTyped t v fits)
    | inr misfits ↦ there t ts (matches_any_type-IsTypedBy ts v (rw misfits at h))
  ]

type_ok-IsTyped : (v t : Value) → type_ok v t ≡ true → is_null t ≡ false → IsTyped v t
unfolding type_ok
type_ok-IsTyped v null h k = cc
type_ok-IsTyped v (bool b) h k = matches_json_type-IsTyped (bool b) v h
type_ok-IsTyped v (int n) h k = matches_json_type-IsTyped (int n) v h
type_ok-IsTyped v (float m s) h k = matches_json_type-IsTyped (float m s) v h
type_ok-IsTyped v (str s) h k = matches_json_type-IsTyped (str s) v h
type_ok-IsTyped v (list vs) h k = matches_json_type-IsTyped (list vs) v h
type_ok-IsTyped v (tuple vs) h k = matches_json_type-IsTyped (tuple vs) v h
type_ok-IsTyped v (mapping fs) h k = matches_json_type-IsTyped (mapping fs) v h

-- the three answers behind a check that succeeds
checked_rules :
    (v : Value) (rules : Fields)
    → matches_property_schema v rules ≡ ok true
    → (const_ok v (lookup "const" (fields rules)) ≡ true)
      × ((enum_ok v (get_value "enum" rules) ≡ ok true)
          × (type_ok v (get_value "type" rules) ≡ true))
unfolding matches_property_schema
checked_rules v rules h = elim (Bool-cases (const_ok v (lookup "const" (fields rules)))) [
  | inr differs ↦ cc (ok-injective (rw differs at h))
  | inl equal ↦
      let (allowed, answered, rest) =
        >>=-eq-ok (enum_ok v (get_value "enum" rules)) _ (rw equal at h) in
      elim (Bool-cases allowed) [
        | inr other ↦ cc (ok-injective (rw other at rest))
        | inl one ↦ (equal, (rw one at answered, ok-injective (rw one at rest)))
      ]
]

-- A value that passes the check of a property's rules obeys them.
pub matches_property_schema-IsObeying :
    (v : Value) (rules : Fields) → matches_property_schema v rules ≡ ok true → IsObeying v rules
unfolding const_ok enum_ok is_in
matches_property_schema-IsObeying v rules h =
    let (equal, (one, fits)) = checked_rules v rules h in
    record {
      constant = λ c e. rw (e, const_ok) at equal;
      enumerated = λ vs e. elim e [
        | inl as_list ↦ ok-injective (rw (as_list, enum_ok, is_in) at one)
        | inr as_tuple ↦ ok-injective (rw (as_tuple, enum_ok, is_in) at one)
      ];
      typed = λ t e k. type_ok-IsTyped v t (rw (e, get_value) at fits) k;
    }
