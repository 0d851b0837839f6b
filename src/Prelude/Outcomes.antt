-- ===== src/Prelude/Outcomes.antt =====
-- What holds of a result that may be an exception: of its value, or of the exception.
use agent_workload_platform.Prelude.Results.{Exn, Result, ok, raise, map_result, ◌>>=◌}

-- The value satisfies `P`, or the exception satisfies `E`.
abbrev pub Ends {ℓ} : {A : Type ℓ} → (Exn → Type 0) → (A → Type 0) → Result A → Type 0
Ends E P (ok a) = P a
Ends E P (raise e) = E e

pub map_result-Ends {ℓ κ} :
    {A : Type ℓ} {B : Type κ} (E : Exn → Type 0) (P : A → Type 0) (Q : B → Type 0) (f : A → B)
    (r : Result A)
    → ((a : A) → P a → Q (f a))
    → Ends E P r
    → Ends E Q (map_result f r)
map_result-Ends E P Q f (ok a) g h = g a h
map_result-Ends E P Q f (raise e) g h = h

pub bind-Ends {ℓ κ} :
    {A : Type ℓ} {B : Type κ} (E : Exn → Type 0) (P : A → Type 0) (Q : B → Type 0) (r : Result A)
    (f : A → Result B)
    → ((a : A) → P a → Ends E Q (f a))
    → Ends E P r
    → Ends E Q (r >>= f)
bind-Ends E P Q (ok a) f g h = g a h
bind-Ends E P Q (raise e) f g h = h

pub weaken-Ends {ℓ} :
    {A : Type ℓ} (E F : Exn → Type 0) (P Q : A → Type 0) (r : Result A)
    → ((e : Exn) → E e → F e)
    → ((a : A) → P a → Q a)
    → Ends E P r
    → Ends F Q r
weaken-Ends E F P Q (ok a) g f h = f a h
weaken-Ends E F P Q (raise e) g f h = g e h
