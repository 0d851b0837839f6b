-- ===== src/Gateway/Views/Public.antt =====
-- main.py: what an owner-facing view can hold.
use agent_workload_platform.Prelude.{is_some, All, ◌≤◌, String, ◌≡◌, ◌⊎◌, true, len}
use agent_workload_platform.Json.{
  get, items, Value, null, str, arr, obj, Fields, end, field, dict_get,
}
use agent_workload_platform.Tasking.PiResponse.{PiResponse}
use agent_workload_platform.Gateway.Views.{Reader}

-- A value is a text that is a key of the artifacts.
abbrev pub IsName : Value → Value → Type 0
IsName (obj artifacts) (str name) = is_some (get name artifacts) ≡ true
IsName _ _ = ⊥

abbrev pub AreNames : Value → Value → Type 0
AreNames artifacts (arr vs) = All (λ v. IsName artifacts v) (items vs)
AreNames artifacts _ = ⊥

-- The public form of an execution: its exit code, its response and the names of its artifacts
abbrev pub AreShown : Value → Fields → Type 0
AreShown artifacts end = Unit
AreShown artifacts (field k v d) =
    ((k ≡ "exit_code") ⊎ (k ≡ "response") ⊎ ((k ≡ "artifacts") × AreNames artifacts v))
    × AreShown artifacts d

abbrev pub IsExecution : Value → Value → Type 0
IsExecution artifacts (obj d) = AreShown artifacts d
IsExecution artifacts _ = ⊥

-- The artifacts that a stored result has
abbrev pub artifacts_in : Value → Value
artifacts_in (obj execution) = dict_get "artifacts" execution
artifacts_in _ = null

abbrev pub stored_artifacts : Value → Value
stored_artifacts (obj task_result) = artifacts_in (dict_get "result" task_result)
stored_artifacts _ = null

-- The public form of a result: not a dict, or a dict of a state, a failure of at most 2,000 characters
-- and an execution.
abbrev pub AreParts : Value → Fields → Type 0
AreParts artifacts end = Unit
AreParts artifacts (field k v d) =
    ((k ≡ "state")
      ⊎ ((k ≡ "failure") × ((s : String) × (v ≡ str s) × (len s ≤ 2000)))
      ⊎ ((k ≡ "result") × IsExecution artifacts v))
    × AreParts artifacts d

abbrev pub IsPublicResult : Value → Value → Type 0
IsPublicResult artifacts (obj d) = AreParts artifacts d
IsPublicResult artifacts _ = Unit

module _ (reader : Reader) where
  -- A view without the capability, and with a public result of the stored one
  pub record IsView (stored view : Fields) : Type 0 where
    pub no_token : dict_get "approval_token" view ≡ null
    pub public_result :
        IsPublicResult (stored_artifacts (dict_get "result" stored)) (dict_get "result" view)
