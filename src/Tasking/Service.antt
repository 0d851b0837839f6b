-- ===== src/Tasking/Service.antt =====
-- tasking/application/service.py: TaskService over the task owner. The fresh id of `submit` is its
-- argument.
pub mod Submits
pub mod Ownership
pub mod DigitalTwin
pub mod Listing
use agent_workload_platform.Prelude.{
  ℕ, String, Bool, true, false, not, Option, some, List, ◌==◌, if◌then◌else◌, concat, take_text,
  runtime_error, Result, ok, raise, map_result,
}
use agent_workload_platform.Json.{
  ℤ, Value, null, bool, str, obj, Fields, end, field, dict_get, is_str,
}
use agent_workload_platform.Tasking.Exec.{Exec, pure, throw, lift, ◌>>=◌, ◌>>◌}
use agent_workload_platform.Tasking.Owner
use agent_workload_platform.Tasking.Owner.{index, describe, abort}
use agent_workload_platform.Tasking.Workspaces.{scratch_workspace}
use agent_workload_platform.Tasking.Artifacts
use agent_workload_platform.Tasking.Artifacts.{Store, task_artifact, object_uri, get_task_artifact}
use agent_workload_platform.Tasking.Albums.{SessionAlbum, album_for_session}
use agent_workload_platform.Tasking.Trace.{bounded_trace_context}
use agent_workload_platform.Tasking.TaskView.{
  Env, Plan, TaskView, not_found, unavailable, require, clamped, plan, task_result, native_view,
  get_of,
}

module _ (env : Env) where
  open env use {peer, is_uuid}

  -- Whether a description is there and names the identity
  pub owned_by : String → Value → Result Bool
  owned_by identity null = ok false
  owned_by identity native = map_result (is_str identity) (get_of native "identity")

  -- `_get_native_owned`
  pub get_native_owned : String → String → Exec Value
  get_native_owned identity task_id = do
    require (is_uuid task_id) not_found
    native ← describe peer task_id
    mine ← lift (owned_by identity native)
    require mine not_found
    pure native

  pub run_params : String → Plan → SessionAlbum → String → Option Fields → Value
  run_params identity p album task_id trace_context = obj (
      field "native_cli" (bool true) (
        field "identity" (str identity) (
          field "instruction" (str p.instruction) (
            field "workspace" (str p.workspace) (
              field "session_album_key" (str album.key) (
                field "session_name" (str (concat album.title (concat " · " (take_text 8 task_id))))
                  (field "trace_context" (obj (bounded_trace_context trace_context)) end)))))))

  described_view : Value → Exec TaskView
  described_view null = throw (runtime_error "Pi Durable accepted a task but could not describe it")
  described_view native = native_view env native

  -- `submit`, with the fresh id that `uuid4` gives
  pub submit : String → String → String → String → Option Fields → Exec TaskView
  submit task_id identity instruction workspace trace_context = do
    p ← lift (plan env instruction workspace)
    album ← lift (album_for_session env.digest_head task_id)
    accepted ←
        Owner.submit peer "agent-run" (run_params identity p album task_id trace_context) task_id
    native ← describe peer task_id
    described_view native

  unfoldable pub get : String → String → Exec TaskView
  get identity task_id = do native ← get_native_owned identity task_id; native_view env native

  -- artifacts.get(name) of the result of a task, where it is a dict with dicts
  artifact_entry : String → Value → Value
  artifact_entry name (obj snapshot) = of_execution (dict_get "result" snapshot)
    where
      of_artifacts : Value → Value
      of_artifacts (obj artifacts) = dict_get name artifacts
      of_artifacts _ = null

      of_execution : Value → Value
      of_execution (obj execution) = of_artifacts (dict_get "artifacts" execution)
      of_execution _ = null
  artifact_entry name _ = null

  -- The artifact of a name that TASK_ARTIFACTS has, if the result names its object
  published :
      String
      → String
      → Value
      → Option Store
      → Option (String × String)
      → Result (List ℕ × String × String)
  published task_id name found (some store) (some (filename, content_type)) =
      if is_str (object_uri store.bucket (concat "tasks/" (concat task_id (concat "/" filename))))
        found
      then get_task_artifact store task_id name env.max_artifact_bytes
      else raise unavailable
  published task_id name found _ _ = raise unavailable

  unfoldable pub artifact : String → String → String → Exec (List ℕ × String × String)
  unfolding artifact_entry published
  artifact identity task_id name = do
    row ← get_native_owned identity task_id
    workspace ← lift (index row "workspace")
    require (name == (if is_str scratch_workspace workspace then "workspace" else "patch"))
        unavailable
    snapshot ← task_result env (str task_id)
    lift (published task_id name (artifact_entry name snapshot) env.artifacts (task_artifact name))

  unfoldable pub cancel : String → String → Exec TaskView
  cancel identity task_id = do
    native ← get_native_owned identity task_id
    disposition ← abort peer task_id
    again ← get_native_owned identity task_id
    native_view env again

  unfoldable pub progress : String → String → ℕ → ℤ → Exec Value
  progress identity task_id after limit = do
    native ← get_native_owned identity task_id
    Owner.progress peer task_id after (clamped limit)
