-- ===== src/Prelude/Text.antt =====
-- What the source uses of Python's `str`: truth, `lower`, `replace`, `split`, and `str()` of numbers.
-- `lower` is that of ASCII; it leaves other characters alone.
use Prim.Native.Nat.{ℕ, zero, suc, ◌+◌, ◌/◌, ◌%◌}
use Prim.Native.Char.{Char}
use Prim.Native.String.{String, [], ◌∷◌, ◌++◌, slice}
use mathlib.Core.Bool.{Bool, true, false}
use mathlib.Core.Option.{Option, none, some}
use mathlib.Core.List.{List}
use text.Mathlib.Text.{◌==◌, find?}
use llm_endpoint.Prelude.Tests.{nat_eq, if◌then◌else◌}
use llm_endpoint.Prelude.Int.{ℤ, pos, negsuc}

-- `bool(s)`
abbrev pub truthy : String → Bool
truthy s = if s == "" then false else true

-- `bool(s)` of a `str | None`
abbrev pub truthy_opt : Option String → Bool
truthy_opt none = false
truthy_opt (some s) = truthy s

-- `s or d`
abbrev pub or_else : Option String → String → String
or_else none d = d
or_else (some s) d = if s == "" then d else s

-- `s or None`
abbrev pub or_none : String → Option String
or_none s = if s == "" then none else some s

lower_char : Char → String
lower_char c = elim (find? "ABCDEFGHIJKLMNOPQRSTUVWXYZ" (c ∷ [])) [
  | none ↦ c ∷ []
  | some i ↦ slice "abcdefghijklmnopqrstuvwxyz" i (i + 1)
]

-- `s.lower()`
unfoldable pub lower : String → String
unfolding lower_char
lower [] = []
lower (c ∷ s) = lower_char c ++ lower s

-- `s.replace("-", "_")`
unfoldable pub dashes_to_underscores : String → String
dashes_to_underscores [] = []
dashes_to_underscores (c ∷ s) = (if (c ∷ []) == "-" then "_" else c ∷ []) ++ dashes_to_underscores s

split_from : String → String → List String
split_from cur [] = List.◌∷◌ cur List.[]
split_from cur (c ∷ s) =
    let closed = List.◌∷◌ cur (split_from "" s) in
    let longer = split_from (cur ++ c ∷ []) s in if (c ∷ []) == "." then closed else longer

-- `s.split(".")`
unfoldable pub split_dots : String → List String
unfolding split_from
split_dots s = split_from "" s

digit : ℕ → String
digit d = slice "0123456789" d (d + 1)

digits : ℕ → ℕ → String → String
digits zero n acc = acc
digits (suc fuel) n acc =
    let acc' = digit (n % 10) ++ acc in
    let more = digits fuel (n / 10) acc' in if nat_eq (n / 10) 0 then acc' else more

-- `str(n)`; a number has at most as many digits as its successor is large.
unfoldable pub nat_str : ℕ → String
unfolding digits digit
nat_str n = digits (suc n) n ""

unfoldable pub int_str : ℤ → String
unfolding nat_str
int_str (pos n) = nat_str n
int_str (negsuc n) = "-" ++ nat_str (suc n)

-- `str(b).lower()`
abbrev pub bool_str : Bool → String
bool_str true = "true"
bool_str false = "false"
