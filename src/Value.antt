-- ===== src/Value.antt =====
-- Parsed JSON as the realtime code inspects it: `typeof`, truthiness and optional field access.
-- Numbers are natural; a field of anything but an object is `undefined`.
use text.Mathlib.TextEquality.{eq_iff}
use cse356_discord.Common.{
  ℕ, ◌≡◌, refl, String, Bool, true, false, not, Option, none, some, arith, if◌then◌else◌, ◌==◌,
  nat_eq, string_eq,
}

mutual
  pub data Value : Type 0 where
    undefined null : Value
    bool : Bool → Value
    num : ℕ → Value
    str : String → Value
    obj : Fields → Value
    arr : Items → Value

  pub data Fields : Type 0 where
    end : Fields
    field : String → Value → Fields → Fields

  pub data Items : Type 0 where
    nil : Items
    cons : Value → Items → Items

unfoldable pub lookup_field : String → Fields → Value
lookup_field name end = undefined
lookup_field name (field k v fs) = if k == name then v else lookup_field name fs

-- `{ ...fs, [name]: v }`
unfoldable pub set_field : String → Value → Fields → Fields
set_field name v end = field name v end
set_field name v (field k w fs) =
    if k == name then field name v fs else field k w (set_field name v fs)

pub lookup_field-set_field :
    (k name : String) (v : Value) (fs : Fields)
    → lookup_field k (set_field name v fs) ≡ (if name == k then v else lookup_field k fs)
unfolding lookup_field set_field
lookup_field-set_field k name v end = refl
lookup_field-set_field k name v (field j w fs) =
    ground (arith, lookup_field-set_field k name v fs, eq_iff j k, eq_iff j name, eq_iff name k)

-- `v?.name`
unfoldable pub get_field : String → Value → Value
get_field name (obj fs) = lookup_field name fs
get_field name _ = undefined

unfoldable pub is_truthy : Value → Bool
is_truthy undefined = false
is_truthy null = false
is_truthy (bool b) = b
is_truthy (num n) = not (n == 0)
is_truthy (str s) = not (s == "")
is_truthy (arr _) = true
is_truthy (obj _) = true

-- `a || b`
unfoldable pub or_else : Value → Value → Value
unfolding is_truthy
or_else a b = if is_truthy a then a else b

-- `a ?? b`
unfoldable pub nullish : Value → Value → Value
nullish undefined b = b
nullish null b = b
nullish a b = a

-- `typeof v === "string"`
unfoldable pub as_string : Value → Option String
as_string (str s) = some s
as_string _ = none

-- `v && typeof v === "object" && !Array.isArray(v)`
unfoldable pub is_object : Value → Bool
is_object (obj _) = true
is_object _ = false
