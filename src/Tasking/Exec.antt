-- ===== src/Tasking/Exec.antt =====
-- Code that talks to the task owner and may raise: what was sent before a raise stays sent.
pub mod Keeps
use agent_workload_platform.Json.{Value}
use agent_workload_platform.Prelude.{ℕ, String, List, Exn, Result, ok, raise}

-- The commands that `PiDurableOwner` sends.
pub data Command : Type 0 where
  submit : String → Value → String → Command
  get_task describe describe_product abort retry : String → Command
  get_many : List String → Command
  cancel_product : String → String → Command
  progress : String → ℕ → ℕ → Command
  list_native : String → ℕ → Command

-- What the process has done so far: the commands sent, in order, and the transport failures counted
-- by command and kind.
pub record World : Type 0 where
  pub sent : List Command
  pub failures : List (String × String)

abbrev pub Exec {ℓ} : Type ℓ → Type ℓ
Exec A = World → Result A × World

module _ {ℓ} {A : Type ℓ} where
  unfoldable pub pure : A → Exec A
  pure a w = (ok a, w)

  unfoldable pub throw : Exn → Exec A
  throw e w = (raise e, w)

  unfoldable pub lift : Result A → Exec A
  lift r w = (r, w)

module _ {ℓ κ} {A : Type ℓ} {B : Type κ} where
  abbrev pub continue : Result A → (A → Exec B) → Exec B
  continue (ok a) f w = f a w
  continue (raise e) f w = (raise e, w)

  infixl 5 ◌>>=◌ ◌>>◌
  unfoldable pub ◌>>=◌ : Exec A → (A → Exec B) → Exec B
  ◌>>=◌ m f w = let (r, w') = m w in continue r f w'

  abbrev pub ◌>>◌ : Exec A → Exec B → Exec B
  m >> n = m >>= λ _. n
