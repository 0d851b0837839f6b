-- ===== src/Tasking/Exec/Keeps.antt =====
-- What an action keeps, whatever it returns or raises: one rule for each way to build an action.
use agent_workload_platform.Prelude.{
  ◌≡◌, refl, ap, subst, Bool, true, false, if◌then◌else◌, Exn, Result, ok, raise,
}
use agent_workload_platform.Tasking.Exec.{World, Exec, pure, throw, lift, continue, ◌>>=◌}

pub record Keeps {ℓ κ} {A : Type ℓ} (P : World → Type κ) (m : Exec A) : Type κ where
  pub at : (w : World) → P w → P (m w).1

module _ {ℓ κ} {A : Type ℓ} {P : World → Type κ} where
  pub Keeps-if :
      (test : Bool) (yes_part no_part : Exec A)
      → (test ≡ true → Keeps P yes_part)
      → (test ≡ false → Keeps P no_part)
      → Keeps P (if test then yes_part else no_part)
  Keeps-if true _ _ when_true _ = when_true refl
  Keeps-if false _ _ _ when_false = when_false refl

  pub Keeps-lift : (r : Result A) → Keeps P (lift r)
  unfolding lift
  Keeps-lift r = record { at = λ _ before. before }

  pub Keeps-pure : (a : A) → Keeps P (pure a)
  unfolding pure
  Keeps-pure a = record { at = λ _ before. before }

  pub Keeps-throw : (e : Exn) → Keeps P (throw {A = A} e)
  unfolding throw
  Keeps-throw e = record { at = λ _ before. before }

module _ {ℓ ν κ} {A : Type ℓ} {B : Type ν} {P : World → Type κ} where
  pub Keeps-bind :
      (m : Exec A) (f : A → Exec B) → Keeps P m → ((a : A) → Keeps P (f a)) → Keeps P (m >>= f)
  unfolding ◌>>=◌
  Keeps-bind m f km kf = record { at = λ w h. go (m w).0 (m w).1 (km.at w h) }
    where
      go : (r : Result A) (w : World) → P w → P (continue r f w).1
      go (ok a) w h = (kf a).at w h
      go (raise e) w h = h

pub ruleset keeps_rules = (Keeps-pure, Keeps-throw, Keeps-lift, Keeps-if, Keeps-bind)

-- What holds after a bind: after the rest where the first part returns, or where it raises.
pub bind_outcome {ℓ ν κ} :
    {A : Type ℓ} {B : Type ν} (Q : World → Type κ) (m : Exec A) (f : A → Exec B) (w : World)
    → ((a : A) (w' : World) → m w ≡ (ok a, w') → Q (f a w').1)
    → ((e : Exn) (w' : World) → m w ≡ (raise e, w') → Q w')
    → Q ((m >>= f) w).1
unfolding ◌>>=◌
bind_outcome {A} Q m f w returns raises = go (m w).0 (m w).1 refl
  where
    go : (r : Result A) (w' : World) → m w ≡ (r, w') → Q (continue r f w').1
    go (ok a) w' e = returns a w' e
    go (raise x) w' e = raises x w' e

-- A kept property, after a run that is known.
pub kept {ℓ κ} :
    {A : Type ℓ} {P : World → Type κ} {m : Exec A}
    → Keeps P m
    → (w : World) {r : Result A} {w' : World} → m w ≡ (r, w')
    → P w
    → P w'
kept {P = P} k w e h = subst P (ap (λ p. p.1) e) (k.at w h)

-- A lifted result is returned in the same world.
pub lift_run {ℓ} :
    {A : Type ℓ} (r : Result A) (w : World) {s : Result A} {w' : World}
    → lift r w ≡ (s, w')
    → (r ≡ s) × (w ≡ w')
unfolding lift
lift_run r w e = (ap (λ p. p.0) e, ap (λ p. p.1) e)

-- What holds after a bind whose first part keeps a property.
pub bind_keeping {ℓ ν κ μ} :
    {A : Type ℓ} {B : Type ν} (P : World → Type κ) (Q : World → Type μ) (m : Exec A)
    (f : A → Exec B)
    → Keeps P m
    → ((w : World) → P w → Q w)
    → ((a : A) (w : World) → P w → Q (f a w).1)
    → (w : World) → P w
    → Q ((m >>= f) w).1
bind_keeping P Q m f keeps stops goes_on w h =
    bind_outcome Q m f w (λ a w' e. goes_on a w' (kept keeps w e h))
      (λ x w' e. stops w' (kept keeps w e h))
