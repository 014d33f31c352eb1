-- ===== src/Json.antt =====
-- The values of a parsed JSON text, with `undefined` for what is missing. A number is NaN, an
-- infinity, or an integer multiple of 2^-1074, the least positive double: every finite double is
-- one, and -0 is 0.
use merossity.Prelude.{ℕ, ◌+◌, ◌-◌, ◌*◌, ◌/◌, ◌%◌, ◌^◌, String}
use merossity.Prelude.{Bool, true, false, not}
use merossity.Prelude.{Option, none, some}
use merossity.Prelude.{ltb, ◌==◌, str_eq, if◌then◌else◌}
use merossity.Prelude.{String}
use merossity.Prelude.{Bool}
use merossity.Prelude.{ℕ, ◌+◌, ◌-◌, ◌*◌, ◌/◌, ◌%◌, ◌^◌, String}
use merossity.Prelude.{◌≡◌, refl, Bool, true, false, not}
use merossity.Prelude.{Option, none, some, arith, eq_iff}
use merossity.Prelude.{ltb, ◌==◌, str_eq, if◌then◌else◌}
use merossity.Prelude.Integers.{ℤ, pos, negsuc}

pub data Number : Type 0 where
  nan infinity minus_infinity : Number
  finite : ℤ → Number

mutual
  pub data Value : Type 0 where
    undefined null : Value
    boolean : Bool → Value
    number : Number → Value
    text : String → Value
    array : Items → Value
    object : Fields → Value

  pub data Items : Type 0 where
    nil : Items
    cons : Value → Items → Items

  pub data Fields : Type 0 where
    end : Fields
    field : String → Value → Fields → Fields

get_field : String → Fields → Value
get_field key end = undefined
get_field key (field k v fields) =
    let rest = get_field key fields in if str_eq k key then v else rest

-- `v?.key`, for a key that neither a text nor a list has.
unfoldable pub get : String → Value → Value
unfolding get_field
get key (object fields) = get_field key fields
get key _ = undefined

-- `a ?? b`
unfoldable pub coalesce : Value → Value → Value
coalesce undefined b = b
coalesce null b = b
coalesce a _ = a

-- Whether an `if` takes a value as true.
unfoldable pub is_truthy : Value → Bool
is_truthy undefined = false
is_truthy null = false
is_truthy (boolean b) = b
is_truthy (number nan) = false
is_truthy (number (finite (pos z))) = ltb 0 z
is_truthy (number n) = true
is_truthy (text t) = not (str_eq t "")
is_truthy _ = true

-- The number 1.
abbrev pub unit : ℕ
unit = 2 ^ 1074

-- A number that is an integer and not negative.
unfoldable pub natural_of : Number → Option ℕ
natural_of (finite (pos z)) = if z % unit == 0 then some (z / unit) else none
natural_of _ = none

-- `Math.round`, which takes a half up.
unfoldable pub round : ℤ → ℤ
round (pos z) = pos ((z + unit / 2) / unit * unit)
round (negsuc n) = let m = (n + unit / 2) / unit * unit in if m == 0 then pos 0 else negsuc (m - 1)

-- `v.key = new`: a key that is there keeps its place, a new one goes to the end.
put_field : String → Value → Fields → Fields
put_field key new end = field key new end
put_field key new (field k v fields) =
    let rest = put_field key new fields in
    if str_eq k key then field k new fields else field k v rest

unfoldable pub put : String → Value → Fields → Fields
unfolding put_field
put key new fields = put_field key new fields

-- `v?.key ?? {}`, where only an object counts.
abbrev pub fields_of : Value → Option Fields
fields_of (object fields) = some fields
fields_of _ = none

get_field-put_field :
    (key u : String) (new : Value) (fields : Fields)
    → get_field u (put_field key new fields) ≡ (if str_eq key u then new else get_field u fields)
unfolding get_field put_field
get_field-put_field key u new end = refl
get_field-put_field key u new (field k v fields) =
    ground (arith, get_field-put_field key u new fields, eq_iff key u, eq_iff k key, eq_iff k u)

-- What is read after a write.
pub get-put :
    (key u : String) (new : Value) (fields : Fields)
    → get u (object (put key new fields)) ≡ (if str_eq key u then new else get u (object fields))
unfolding get put
get-put key u new fields = get_field-put_field key u new fields
