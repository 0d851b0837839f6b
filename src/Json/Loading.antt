-- ===== src/Json/Loading.antt =====
-- `json.loads` where it may raise: the values are those of `Json`, `none` stands for a JSONDecodeError,
-- and any other exception (the ValueError of an int with too many digits, the RecursionError of a text
-- that is nested too deeply, a UnicodeDecodeError) is raised. A RecursionError is a `runtime_error`, since
-- it is a subclass of RuntimeError, and a UnicodeDecodeError a `value_error`.
use agent_workload_platform.Prelude.{Ends, Exn, String, ◌≡◌, refl, Option, Result, ok, raise, ◌>>=◌}
use agent_workload_platform.Json.{Value}

abbrev pub Loads : Type 0
Loads = String → Result (Option Value)

-- An exception that reading some text raises
abbrev pub IsRaised : Loads → Exn → Type 0
IsRaised loads e = (s : String) × (loads s ≡ raise e)

module _ {ℓ} {B : Type ℓ} (loads : Loads) (Q : B → Type 0) where
  after-Ends :
      (s : String) (f : Option Value → Result B) (r : Result (Option Value))
      → loads s ≡ r
      → ((o : Option Value) → loads s ≡ ok o → Ends (IsRaised loads) Q (f o))
      → Ends (IsRaised loads) Q (r >>= f)
  after-Ends s f (ok o) e h = h o e
  after-Ends s f (raise x) e h = (s, e)

  -- What is read goes on, or the exception of the read stands.
  pub loaded-Ends :
      (s : String) (f : Option Value → Result B)
      → ((o : Option Value) → loads s ≡ ok o → Ends (IsRaised loads) Q (f o))
      → Ends (IsRaised loads) Q (loads s >>= f)
  loaded-Ends s f h = after-Ends s f (loads s) refl h
