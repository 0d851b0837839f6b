-- ===== src/Edge/Presentation/Bounded/Within.antt =====
-- presentation_response.py: the size of what `_bounded_json_value` returns.
use agent_workload_platform.Prelude.{
  Ends, map_result-Ends, bind-Ends, weaken-Ends, Exn, overflow_error, ℕ, zero, suc, ◌+◌, ◌^◌, ◌≤◌,
  ◌<◌, String, ◌≡◌, refl, inl, inr, Bool, true, false, arith, ◌==◌, starts_with, ltb, leb,
  if◌then◌else◌, Bool-cases, length, len, take_text, Exn, Result, ◌>>=◌,
}
use agent_workload_platform.Json.{
  ℤ, pos, negsuc, Value, null, bool, int, float, str, arr, obj, Items, nil, cons, Fields, end,
  field, items,
}
use agent_workload_platform.Prelude.{len-take_text-le}
use agent_workload_platform.Json.{is_finite, magnitude, is_too_large}
use agent_workload_platform.Edge.Presentation.{max_label_length}
use agent_workload_platform.Edge.Presentation.Bounded.{
  clamped, bounded_number, with_item, bounded_items, set_field, unless_null, bounded_fields,
  bounded_value,
}

-- The number of entries
abbrev pub size : Fields → ℕ
size end = 0
size (field k v d) = suc (size d)

-- A number from -10,000 to 10,000, in ints or in the bits of floats
abbrev pub InRange : Value → Type 0
InRange (int (pos n)) = n ≤ 10000
InRange (int (negsuc n)) = n < 10000
InRange (float b) = magnitude b ≤ 0x40c3880000000000
InRange _ = ⊥

-- Nested in at most so many levels, each list, dict, text and number within its bound
mutual
  pub data Within : ℕ → Value → Type 0 where
    null_within : {l : ℕ} → Within l null
    bool_within : {l : ℕ} {b : Bool} → Within (suc l) (bool b)
    str_within : {l : ℕ} {s : String} → len s ≤ max_label_length → Within (suc l) (str s)
    number_within : {l : ℕ} {v : Value} → InRange v → Within (suc l) v
    arr_within :
        {l : ℕ} {vs : Items} → length (items vs) ≤ 128 → ItemsWithin l vs → Within (suc l) (arr vs)
    obj_within : {l : ℕ} {d : Fields} → size d ≤ 32 → FieldsWithin l d → Within (suc l) (obj d)

  pub data ItemsWithin : ℕ → Items → Type 0 where
    nil_within : {l : ℕ} → ItemsWithin l nil
    cons_within :
        {l : ℕ} {v : Value} {vs : Items} → Within l v → ItemsWithin l vs → ItemsWithin l (cons v vs)

  pub data FieldsWithin : ℕ → Fields → Type 0 where
    end_within : {l : ℕ} → FieldsWithin l end
    field_within :
        {l : ℕ} {k : String} {v : Value} {d : Fields}
        → len k ≤ 80
        → Within l v
        → FieldsWithin l d
        → FieldsWithin l (field k v d)

-- The OverflowError of an int that no float can hold
abbrev pub TooLarge : Exn → Type 0
TooLarge e = e ≡ overflow_error "int too large to convert to float"

-- What holds of a result where that is the only exception
abbrev pub Finite {ℓ} : {A : Type ℓ} → (A → Type 0) → Result A → Type 0
Finite P r = Ends TooLarge P r

clamped-Within : (l n : ℕ) → Within (suc l) (clamped (int (pos n)))
unfolding clamped
clamped-Within l n = number_within (omega arith)

clamped-Within_negsuc : (l n : ℕ) → Within (suc l) (clamped (int (negsuc n)))
unfolding clamped
clamped-Within_negsuc l n = number_within (omega arith)

clamped-Within_float : (l b : ℕ) → Within (suc l) (clamped (float b))
unfolding clamped
clamped-Within_float l b = elim (Bool-cases (ltb (magnitude b) 0x40c3880000000000)) [
  | inl e ↦ rw e (number_within (ground (arith, e)))
  | inr e ↦ rw e (extreme (leb (2 ^ 63) b))
]
  where
    extreme :
        (negative : Bool) → Within (suc l) (if negative then int (negsuc 9999) else int (pos 10000))
    extreme true = number_within (omega arith)
    extreme false = number_within (omega arith)

either-Within :
    (l : ℕ) (v : Value) (finite : Bool)
    → Within (suc l) v
    → Within (suc l) (if finite then v else null)
either-Within l v true h = h
either-Within l v false h = null_within

bounded_int-Within : (l : ℕ) (n : ℤ) → Finite (Within (suc l)) (bounded_number (int n))
unfolding bounded_number is_finite
bounded_int-Within l (pos n) = elim (Bool-cases (is_too_large (pos n))) [
  | inl e ↦ rw e refl
  | inr e ↦ rw e (clamped-Within l n)
]
bounded_int-Within l (negsuc n) = elim (Bool-cases (is_too_large (negsuc n))) [
  | inl e ↦ rw e refl
  | inr e ↦ rw e (clamped-Within_negsuc l n)
]

bounded_float-Within : (l b : ℕ) → Finite (Within (suc l)) (bounded_number (float b))
unfolding bounded_number is_finite
bounded_float-Within l b = either-Within l (clamped (float b)) _ (clamped-Within_float l b)

-- At most `n` items
AreItems : ℕ → ℕ → Items → Type 0
AreItems l n vs = ItemsWithin l vs × (length (items vs) ≤ n)

with_item-AreItems :
    (l n : ℕ) (v : Value) (vs : Items)
    → Within l v
    → AreItems l n vs
    → AreItems l (suc n) (with_item v vs)
unfolding with_item AreItems
with_item-AreItems l n null vs h g = (g.0, omega (arith, g.1))
with_item-AreItems l n (bool b) vs h g = (cons_within h g.0, omega (arith, g.1))
with_item-AreItems l n (int m) vs h g = (cons_within h g.0, omega (arith, g.1))
with_item-AreItems l n (float b) vs h g = (cons_within h g.0, omega (arith, g.1))
with_item-AreItems l n (str s) vs h g = (cons_within h g.0, omega (arith, g.1))
with_item-AreItems l n (arr ws) vs h g = (cons_within h g.0, omega (arith, g.1))
with_item-AreItems l n (obj d) vs h g = (cons_within h g.0, omega (arith, g.1))

set_field-FieldsWithin :
    (l : ℕ) (k : String) (v : Value) (d : Fields)
    → len k ≤ 80
    → Within l v
    → FieldsWithin l d
    → FieldsWithin l (set_field k v d)
unfolding set_field
set_field-FieldsWithin l k v end k_le h g = field_within k_le h end_within
set_field-FieldsWithin l k v (field j u d) k_le h (field_within j_le u_within rest) =
    elim (Bool-cases (j == k)) [
      | inl e ↦ rw e (field_within j_le h rest)
      | inr e ↦ rw e (field_within j_le u_within (set_field-FieldsWithin l k v d k_le h rest))
    ]

size-set_field-le : (k : String) (v : Value) (d : Fields) → size (set_field k v d) ≤ suc (size d)
unfolding set_field
size-set_field-le k v end = omega arith
size-set_field-le k v (field j u d) = ground (arith, size-set_field-le k v d)

-- At most `n` entries
AreFields : ℕ → ℕ → Fields → Type 0
AreFields l n d = FieldsWithin l d × (size d ≤ n)

AreFields-le : (l n m : ℕ) (d : Fields) → n ≤ m → AreFields l n d → AreFields l m d
unfolding AreFields
AreFields-le l n m d le h = (h.0, omega (arith, h.1, le))

set-AreFields :
    (l n : ℕ) (k : String) (v : Value) (d : Fields)
    → Within l v
    → AreFields l n d
    → AreFields l (suc n) (set_field (take_text 80 k) v d)
unfolding AreFields
set-AreFields l n k v d h g = (
  set_field-FieldsWithin l (take_text 80 k) v d (len-take_text-le 80 k) h g.0,
  omega (arith, g.1, size-set_field-le (take_text 80 k) v d),
)

unless_null-AreFields :
    (l n : ℕ) (k : String) (v : Value) (d : Fields)
    → Within l v
    → AreFields l n d
    → AreFields l (suc n) (unless_null k v d)
unfolding unless_null
unless_null-AreFields l n k null d h g = AreFields-le l n (suc n) d (omega arith) g
unless_null-AreFields l n k (bool b) d h g = set-AreFields l n k (bool b) d h g
unless_null-AreFields l n k (int m) d h g = set-AreFields l n k (int m) d h g
unless_null-AreFields l n k (float b) d h g = set-AreFields l n k (float b) d h g
unless_null-AreFields l n k (str s) d h g = set-AreFields l n k (str s) d h g
unless_null-AreFields l n k (arr ws) d h g = set-AreFields l n k (arr ws) d h g
unless_null-AreFields l n k (obj e) d h g = set-AreFields l n k (obj e) d h g

module _ (l : ℕ) (bound : Value → Result Value)
    (bounds : (v : Value) → Finite (Within l) (bound v)) where
  bounded_items-AreItems : (n : ℕ) (vs : Items) → Finite (AreItems l n) (bounded_items bound n vs)
  unfolding bounded_items AreItems
  bounded_items-AreItems zero vs = (nil_within, omega arith)
  bounded_items-AreItems (suc n) nil = (nil_within, omega arith)
  bounded_items-AreItems (suc n) (cons v vs) =
      bind-Ends TooLarge (Within l) (AreItems l (suc n)) (bound v) _
        (λ safe h.
          map_result-Ends TooLarge (AreItems l n) (AreItems l (suc n)) (with_item safe)
            (bounded_items bound n vs) (λ rest g. with_item-AreItems l n safe rest h g)
            (bounded_items-AreItems n vs))
        (bounds v)

  widened :
      (n m k : ℕ) (d so_far : Fields)
      → m ≤ k
      → Finite (AreFields l m) (bounded_fields bound n d so_far)
      → Finite (AreFields l k) (bounded_fields bound n d so_far)
  widened n m k d so_far le h =
      weaken-Ends TooLarge TooLarge _ _ _ (λ e h. h) (λ e g. AreFields-le l m k e le g) h

  bounded_fields-AreFields :
      (n m : ℕ) (d so_far : Fields)
      → AreFields l m so_far
      → Finite (AreFields l (n + m)) (bounded_fields bound n d so_far)
  unfolding bounded_fields AreFields
  bounded_fields-AreFields zero m d so_far h = (h.0, omega (arith, h.1))
  bounded_fields-AreFields (suc n) m end so_far h = (h.0, omega (arith, h.1))
  bounded_fields-AreFields (suc n) m (field k v d) so_far h =
      elim (starts_with k "__")
        as (λ skipped. Finite (AreFields l (suc n + m)) (elim skipped [
          | true ↦ bounded_fields bound n d so_far
          | false ↦ bound v >>= λ safe. bounded_fields bound n d (unless_null k safe so_far)
        ])) [
          | true ↦
              widened n (n + m) (suc n + m) d so_far (omega arith)
                (bounded_fields-AreFields n m d so_far h)
          | false ↦
              bind-Ends TooLarge (Within l) (AreFields l (suc n + m)) (bound v) _
                (λ safe g.
                  widened n (n + suc m) (suc n + m) d (unless_null k safe so_far) (omega arith) (
                    bounded_fields-AreFields n (suc m) d (unless_null k safe so_far)
                      (unless_null-AreFields l m k safe so_far g h)))
                (bounds v)
        ]

-- Whatever the value, `_bounded_json_value` returns one that is nested in at most `levels` levels
-- (six at the depth 0), with texts of at most 240 characters, numbers from -10,000 to 10,000, lists of
-- at most 128 items and dicts of at most 32 entries with keys of at most 80 characters; else the
-- OverflowError of an int that no float can hold is raised.
pub bounded_value-Within :
    (levels : ℕ) (v : Value) → Finite (Within levels) (bounded_value levels v)
unfolding bounded_value AreItems AreFields
bounded_value-Within zero v = null_within
bounded_value-Within (suc l) null = null_within
bounded_value-Within (suc l) (bool b) = bool_within
bounded_value-Within (suc l) (str s) = str_within (len-take_text-le max_label_length s)
bounded_value-Within (suc l) (int n) = bounded_int-Within l n
bounded_value-Within (suc l) (float b) = bounded_float-Within l b
bounded_value-Within (suc l) (arr vs) =
    map_result-Ends TooLarge (AreItems l 128) (Within (suc l)) arr
      (bounded_items (bounded_value l) 128 vs) (λ us h. arr_within h.1 h.0)
      (bounded_items-AreItems l (bounded_value l) (bounded_value-Within l) 128 vs)
bounded_value-Within (suc l) (obj d) =
    map_result-Ends TooLarge (AreFields l 32) (Within (suc l)) obj
      (bounded_fields (bounded_value l) 32 d end) (λ e h. obj_within h.1 h.0)
      (bounded_fields-AreFields l (bounded_value l) (bounded_value-Within l) 32 0 d end
        (end_within, omega arith))
