-- ===== src/Json/Unhashable.antt =====
-- What holds of a result where the only exception is the TypeError of a list or a dict that the code
-- looks up in a set.
use agent_workload_platform.Prelude.{
  Ends, Exn, String, ◌≡◌, refl, ◌⊎◌, inl, inr, List, Exn, type_error, Result, ok,
}
use agent_workload_platform.Json.{Value, null, bool, int, float, str, arr, obj}
use agent_workload_platform.Json.{is_one_of}

-- The TypeError of a value that cannot be looked up
abbrev pub IsUnhashable : Exn → Type 0
IsUnhashable e =
    (e ≡ type_error "unhashable type: 'list'") ⊎ (e ≡ type_error "unhashable type: 'dict'")

-- What holds of a result where that is the only exception
abbrev pub Returns {ℓ} : {A : Type ℓ} → (A → Type 0) → Result A → Type 0
Returns P r = Ends IsUnhashable P r

pub is_one_of-Returns :
    (names : List String) (v : Value) → Returns (λ b. is_one_of names v ≡ ok b) (is_one_of names v)
unfolding is_one_of
is_one_of-Returns names null = refl
is_one_of-Returns names (bool b) = refl
is_one_of-Returns names (int n) = refl
is_one_of-Returns names (float n) = refl
is_one_of-Returns names (str s) = refl
is_one_of-Returns names (arr vs) = inl refl
is_one_of-Returns names (obj d) = inr refl
