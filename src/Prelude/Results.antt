-- ===== src/Prelude/Results.antt =====
-- Python exceptions as values. `TaskError`, `SongGenerationError` and
-- `ExecutionImageConfigurationError` are subclasses of `ValueError`.
use Prim.Native.Nat.{ℕ}
use Prim.Native.String.{String}
use agent_workload_platform.Prelude.Tests.{if◌then◌else◌}
use mathlib.Core.Path.{◌≡◌, refl}
use mathlib.Core.Bool.{Bool, true, false}

pub data Exn : Type 0 where
  value_error type_error runtime_error key_error attribute_error task_error song_generation_error
        image_configuration_error overflow_error :
      String → Exn
  -- fastapi.HTTPException(status_code, detail)
  http_error : ℕ → String → Exn

-- except ValueError
abbrev pub is_value_error : Exn → Bool
is_value_error (value_error _) = true
is_value_error (task_error _) = true
is_value_error (song_generation_error _) = true
is_value_error (image_configuration_error _) = true
is_value_error _ = false

pub data Result {ℓ} (A : Type ℓ) : Type ℓ where
  ok : A → Result A
  raise : Exn → Result A

-- str(exc)
abbrev pub message : Exn → String
message (value_error m) = m
message (type_error m) = m
message (runtime_error m) = m
message (key_error m) = m
message (attribute_error m) = m
message (task_error m) = m
message (song_generation_error m) = m
message (image_configuration_error m) = m
message (overflow_error m) = m
message (http_error status m) = m

abbrev pub map_result {ℓ κ} : {A : Type ℓ} {B : Type κ} → (A → B) → Result A → Result B
map_result f (ok a) = ok (f a)
map_result f (raise e) = raise e

-- if not test: raise e
abbrev pub guard : Bool → Exn → Result (Unit {0})
guard test e = if test then ok tt else raise e

module _ {ℓ κ} {A : Type ℓ} {B : Type κ} where
  infixl 5 ◌>>=◌
  abbrev pub ◌>>=◌ : Result A → (A → Result B) → Result B
  ◌>>=◌ (raise e) rest = raise e
  ◌>>=◌ (ok value) rest = rest value

  -- A block that returned had a first part that returned.
  pub >>=-eq-ok :
      (first : Result A) (rest : A → Result B) {b : B}
      → (first >>= rest) ≡ ok b
      → (value : A) × (first ≡ ok value) × (rest value ≡ ok b)
  >>=-eq-ok (raise e) rest h = cc
  >>=-eq-ok (ok value) rest h = (value, refl, h)

infixl 5 ◌>>◌
abbrev pub ◌>>◌ {κ} : {B : Type κ} → Result (Unit {0}) → Result B → Result B
first >> rest = first >>= λ done. rest
