-- ===== src/Values.antt =====
-- The Python values that the package handles as `Any`: messages, schemas and payloads. A finite float is
-- the fraction `mantissa / 2 ^ scale` in lowest terms (the mantissa odd, or the scale zero).
use llm_endpoint.Prelude.{
  ℕ, String, Bool, true, false, Option, none, some, List, [], ◌∷◌, ◌&&◌, ◌==◌, nat_eq, length,
}
use llm_endpoint.Prelude.Int.{ℤ, pos, negsuc}
use llm_endpoint.Prelude.Dict.{lookup}

mutual
  pub data Value : Type 0 where
    null : Value
    bool : Bool → Value
    int : ℤ → Value
    float : (mantissa : ℤ) → (scale : ℕ) → Value
    str : String → Value
    list : Items → Value
    tuple : Items → Value
    mapping : Fields → Value

  pub data Items : Type 0 where
    nil : Items
    cons : Value → Items → Items

  pub data Fields : Type 0 where
    end : Fields
    field : String → Value → Fields → Fields

abbrev pub items : Items → List Value
items nil = []
items (cons v vs) = v ∷ items vs

abbrev pub fields : Fields → List (String × Value)
fields end = []
fields (field k v fs) = (k, v) ∷ fields fs

abbrev pub is_mapping : Value → Bool
is_mapping (mapping fs) = true
is_mapping _ = false

abbrev pub int_eq : ℤ → ℤ → Bool
int_eq (pos a) (pos b) = nat_eq a b
int_eq (negsuc a) (negsuc b) = nat_eq a b
int_eq _ _ = false

-- A number as its fraction; `True` and `False` are the integers 1 and 0.
abbrev as_number : Value → Option (ℤ × ℕ)
as_number (bool true) = some (pos 1, 0)
as_number (bool false) = some (pos 0, 0)
as_number (int n) = some (n, 0)
as_number (float m s) = some (m, s)
as_number _ = none

abbrev same_number : Option (ℤ × ℕ) → Option (ℤ × ℕ) → Bool
same_number (some (m, s)) (some (n, t)) = int_eq m n && nat_eq s t
same_number _ _ = false

abbrev found_eq : (Value → Bool) → Option Value → Bool
found_eq same none = false
found_eq same (some w) = same w

-- `a == b`
unfoldable mutual
  pub value_eq : Value → Value → Bool
  value_eq null null = true
  value_eq (str s) (str t) = s == t
  value_eq (list vs) (list ws) = items_eq vs (items ws)
  value_eq (tuple vs) (tuple ws) = items_eq vs (items ws)
  value_eq (mapping fs) (mapping gs) =
      nat_eq (length (fields fs)) (length (fields gs)) && fields_in fs (fields gs)
  value_eq (bool b) w = same_number (as_number (bool b)) (as_number w)
  value_eq (int n) w = same_number (some (n, 0)) (as_number w)
  value_eq (float m s) w = same_number (some (m, s)) (as_number w)
  value_eq _ _ = false

  pub items_eq : Items → List Value → Bool
  items_eq nil [] = true
  items_eq (cons v vs) (w ∷ ws) = value_eq v w && items_eq vs ws
  items_eq _ _ = false

  -- Every key of the one dict is in the other, with an equal value.
  pub fields_in : Fields → List (String × Value) → Bool
  fields_in end gs = true
  fields_in (field k v fs) gs = found_eq (value_eq v) (lookup k gs) && fields_in fs gs
