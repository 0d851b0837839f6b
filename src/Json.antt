-- ===== src/Json.antt =====
-- The values that `json.loads` returns, and how the code reads them: `dict.get`, `isinstance` by
-- patterns, truth. A float is its binary64 bit pattern.
pub mod Unhashable
pub mod Loading
use agent_workload_platform.Prelude.{
  ℕ, String, Bool, true, false, List, [], ◌∷◌, Option, none, some, ◌==◌, eqb, if◌then◌else◌,
  between, is_empty, any, Result, ok, raise, type_error, value_error, overflow_error, ltb, leb,
  zero, suc, ◌+◌, ◌-◌, ◌*◌, ◌/◌, ◌%◌, ◌^◌, min, ◌||◌,
}

-- Python's unbounded `int`; `negsuc n` is -(n + 1).
pub data ℤ : Type 0 where
  pos : ℕ → ℤ
  negsuc : ℕ → ℤ

-- lo <= n <= hi
abbrev pub between_ℤ : ℕ → ℕ → ℤ → Bool
between_ℤ lo hi (pos n) = between lo hi n
between_ℤ lo hi (negsuc n) = false

mutual
  pub data Value : Type 0 where
    null : Value
    bool : Bool → Value
    int : ℤ → Value
    float : ℕ → Value
    str : String → Value
    arr : Items → Value
    obj : Fields → Value

  -- A dict in insertion order; `get` reads the entry of a key.
  pub data Fields : Type 0 where
    end : Fields
    field : String → Value → Fields → Fields

  pub data Items : Type 0 where
    nil : Items
    cons : Value → Items → Items

-- A JSON array as a Python list.
abbrev pub items : Items → List Value
items nil = []
items (cons v r) = v ∷ items r

-- d.get(key) with `none` for a missing key
abbrev pub get : String → Fields → Option Value
get k end = none
get k (field j v r) = if j == k then some v else get k r

-- d.get(key, default)
abbrev pub get_or : String → Value → Fields → Value
get_or k d end = d
get_or k d (field j v r) = if j == k then v else get_or k d r

-- d.get(key), which is None for a missing key
abbrev pub dict_get : String → Fields → Value
dict_get k d = get_or k null d

-- bool(value)
abbrev pub truthy : Value → Bool
truthy null = false
truthy (bool b) = b
truthy (int (pos n)) = if eqb n 0 then false else true
truthy (int (negsuc n)) = true
truthy (float b) = if eqb b 0 then false else (if eqb b 0x8000000000000000 then false else true)
truthy (str s) = if is_empty s then false else true
truthy (arr nil) = false
truthy (arr (cons v r)) = true
truthy (obj end) = false
truthy (obj (field k v r)) = true

-- value == "text"
abbrev pub is_str : String → Value → Bool
is_str t (str s) = s == t
is_str t _ = false

-- value in a set of texts: a list or a dict cannot be looked up.
unfoldable pub is_one_of : List String → Value → Result Bool
is_one_of names (arr _) = raise (type_error "unhashable type: 'list'")
is_one_of names (obj _) = raise (type_error "unhashable type: 'dict'")
is_one_of names (str s) = ok (any (λ name. s == name) names)
is_one_of names _ = ok false

-- The bits of a float but the sign, and the sign
abbrev pub magnitude : ℕ → ℕ
magnitude b = b % 2 ^ 63

abbrev pub is_negative : ℕ → Bool
is_negative b = leb (2 ^ 63) b

-- An int that a float cannot hold, at half a step beyond the largest
abbrev pub is_too_large : ℤ → Bool
is_too_large (pos n) = leb (2 ^ 1024 - 2 ^ 970) n
is_too_large (negsuc n) = leb (2 ^ 1024 - 2 ^ 970) (n + 1)

-- math.isfinite of an int or a float
unfoldable pub is_finite : Value → Result Bool
is_finite (int n) =
    if is_too_large n then raise (overflow_error "int too large to convert to float") else ok true
is_finite (float b) = ok (ltb (magnitude b) (0x7ff * 2 ^ 52))
is_finite _ = ok false

-- The digits of a finite float before the point: its fraction of 52 bits, scaled by its exponent
truncated : ℕ → ℕ
truncated b = scaled (magnitude b / 2 ^ 52) (magnitude b % 2 ^ 52)
  where
    scaled : ℕ → ℕ → ℕ
    scaled zero fraction = 0
    scaled exponent fraction = (2 ^ 52 + fraction) * 2 ^ (exponent - 1075) / 2 ^ (1075 - exponent)

abbrev pub minus : ℕ → ℤ
minus zero = pos 0
minus (suc n) = negsuc n

-- int(value), of a bool, an int or a float; of another value the code does not ask.
unfoldable pub int_of : Value → Result ℤ
unfolding truncated
int_of (bool b) = ok (pos (if b then 1 else 0))
int_of (int n) = ok n
int_of (float b) =
    if ltb (magnitude b) (0x7ff * 2 ^ 52)
    then ok (if is_negative b then minus (truncated b) else pos (truncated b))
    else if eqb (magnitude b) (0x7ff * 2 ^ 52)
    then raise (overflow_error "cannot convert float infinity to integer")
    else raise (value_error "cannot convert float NaN to integer")
int_of _ = raise (type_error "int() argument must be a number")

-- max(0, min(n, hi))
unfoldable pub clamp : ℕ → ℤ → ℕ
clamp hi (pos n) = min n hi
clamp hi (negsuc n) = 0

-- isinstance(value, (int, float)), which a bool is too
abbrev pub is_number : Value → Bool
is_number (bool b) = true
is_number (int n) = true
is_number (float b) = true
is_number _ = false

-- d.pop(key, None)
unfoldable pub without_field : String → Fields → Fields
without_field k end = end
without_field k (field j v r) =
    let rest = without_field k r in if j == k then rest else field j v rest

-- 0 <= value <= 1, of a finite number: of a float, its bits are at most those of 1.0, or those of -0.0.
unfoldable pub in_unit : Value → Bool
in_unit (int (pos n)) = leb n 1
in_unit (float b) = leb b 0x3ff0000000000000 || eqb b 0x8000000000000000
in_unit _ = false
