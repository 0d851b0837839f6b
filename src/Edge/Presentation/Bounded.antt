-- ===== src/Edge/Presentation/Bounded.antt =====
-- presentation_response.py, `_bounded_json_value`: a JSON value cut to a size that can be shown.
pub mod Within
use agent_workload_platform.Prelude.{
  ℕ, zero, suc, min, String, true, false, ◌==◌, starts_with, ltb, if◌then◌else◌, take_text, Result,
  ok, map_result, ◌>>=◌,
}
use agent_workload_platform.Json.{
  pos, negsuc, Value, null, bool, int, float, str, arr, obj, Items, nil, cons, Fields, end, field,
}
use agent_workload_platform.Json.{is_finite, is_negative, magnitude}
use agent_workload_platform.Edge.Presentation.{max_label_length}

-- max(-10_000, min(10_000, value)) of a finite number; the bits are those of 10000.0.
clamped : Value → Value
clamped (int (pos n)) = int (pos (min n 10000))
clamped (int (negsuc n)) = int (negsuc (min n 9999))
clamped (float b) =
    if ltb (magnitude b) 0x40c3880000000000
    then float b
    else if is_negative b
    then int (negsuc 9999)
    else int (pos 10000)
clamped v = v

bounded_number : Value → Result Value
unfolding clamped
bounded_number v = map_result (λ finite. if finite then clamped v else null) (is_finite v)

-- A list without the items that have become None
with_item : Value → Items → Items
with_item null rest = rest
with_item v rest = cons v rest

-- The first `n` items
bounded_items : (Value → Result Value) → ℕ → Items → Result Items
unfolding with_item
bounded_items bound zero vs = ok nil
bounded_items bound (suc n) nil = ok nil
bounded_items bound (suc n) (cons v vs) =
    bound v >>= λ safe. map_result (with_item safe) (bounded_items bound n vs)

-- d[key] = value: a key that is there keeps its place.
unfoldable pub set_field : String → Value → Fields → Fields
set_field k v end = field k v end
set_field k v (field j u r) = if j == k then field j v r else field j u (set_field k v r)

unless_null : String → Value → Fields → Fields
unfolding set_field
unless_null k null d = d
unless_null k v d = set_field (take_text 80 k) v d

-- The first `n` entries, added to those read so far
bounded_fields : (Value → Result Value) → ℕ → Fields → Fields → Result Fields
unfolding unless_null
bounded_fields bound zero d so_far = ok so_far
bounded_fields bound (suc n) end so_far = ok so_far
bounded_fields bound (suc n) (field k v d) so_far = elim (starts_with k "__") [
  | true ↦ bounded_fields bound n d so_far
  | false ↦ bound v >>= λ safe. bounded_fields bound n d (unless_null k safe so_far)
]

-- The value with the levels that are left: 6 for the depth 0, and none beyond the depth 5. None is
-- `null`, which the code drops too.
unfoldable pub bounded_value : ℕ → Value → Result Value
unfolding bounded_items bounded_fields bounded_number
bounded_value zero v = ok null
bounded_value (suc levels) null = ok null
bounded_value (suc levels) (bool b) = ok (bool b)
bounded_value (suc levels) (str s) = ok (str (take_text max_label_length s))
bounded_value (suc levels) (int n) = bounded_number (int n)
bounded_value (suc levels) (float b) = bounded_number (float b)
bounded_value (suc levels) (arr vs) = map_result arr (bounded_items (bounded_value levels) 128 vs)
bounded_value (suc levels) (obj d) = map_result obj (bounded_fields (bounded_value levels) 32 d end)
