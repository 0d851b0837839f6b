-- ===== src/Gateway/Store.antt =====
-- main.py: the knowledge store behind the routes. It answers each message by a function of all that
-- was sent to it before; what was sent before a raise stays sent.
use agent_workload_platform.Prelude.{
  http_error, ℕ, String, Bool, true, false, ◌||◌, Option, none, some, List, [], ◌∷◌, ◌++◌, eqb,
  if◌then◌else◌, Exn, runtime_error, Result, ok, raise,
}
use agent_workload_platform.Json.{Value}
use agent_workload_platform.Gateway.Facts.{Row, sparql_rows}

pub data Message : Type 0 where
  query update : String → Message

-- How the store answers: the JSON of a query, if some comes, and the status of an update, if some
-- comes.
pub record Store : Type 0 where
  pub rows : List Message → String → Option Value
  pub status : List Message → String → Option ℕ

abbrev pub Exec {ℓ} : Type ℓ → Type ℓ
Exec A = List Message → Result A × List Message

module _ {ℓ} {A : Type ℓ} where
  unfoldable pub pure : A → Exec A
  pure a ms = (ok a, ms)

  unfoldable pub throw : Exn → Exec A
  throw e ms = (raise e, ms)

  unfoldable pub lift : Result A → Exec A
  lift r ms = (r, ms)

  -- except RuntimeError as exc: raise HTTPException(status_code=502, detail=str(exc))
  unfoldable pub unavailable : Result A → Result A
  unavailable (raise (runtime_error m)) = raise (http_error 502 m)
  unavailable r = r

  unfoldable pub or_bad_gateway : Exec A → Exec A
  unfolding unavailable
  or_bad_gateway m ms = let (r, sent) = m ms in (unavailable r, sent)

module _ {ℓ κ} {A : Type ℓ} {B : Type κ} where
  abbrev pub continue : Result A → (A → Exec B) → Exec B
  continue (ok a) f ms = f a ms
  continue (raise e) f ms = (raise e, ms)

  infixl 5 ◌>>=◌ ◌>>◌
  unfoldable pub ◌>>=◌ : Exec A → (A → Exec B) → Exec B
  ◌>>=◌ m f ms = let (r, sent) = m ms in continue r f sent

  abbrev pub ◌>>◌ : Exec A → Exec B → Exec B
  m >> n = m >>= λ _. n

-- if not test: raise e
unfoldable pub require : Bool → Exn → Exec (Unit {0})
require true e = pure tt
require false e = throw e

-- The status of an update, none for an OSError
unfoldable pub updated : Option ℕ → Result (Unit {0})
updated none = raise (runtime_error "personal knowledge store is unavailable")
updated (some status) =
    if eqb status 200 || eqb status 204
    then ok tt
    else raise (runtime_error "personal knowledge store rejected the journal update")

module _ (store : Store) where
  unfoldable pub ask : String → Exec (List Row)
  ask q ms = (sparql_rows (store.rows ms q), ms ++ query q ∷ [])

  -- `_sparql_update`
  unfoldable pub sparql_update : String → Exec (Unit {0})
  unfolding updated
  sparql_update u ms = (updated (store.status ms u), ms ++ update u ∷ [])
