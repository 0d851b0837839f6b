-- ===== src/Tasking/TaskView.antt =====
-- tasking/application/service.py: the plan and the public view of a task, and domain/task_plan.py.
-- Digests, canonical JSON, `uuid5`, `str.lower` and the reading of times are parameters.
pub mod Reads
use agent_workload_platform.Prelude.{
  ℕ, zero, suc, min, max, String, Bool, true, false, not, Option, none, some, List, if◌then◌else◌,
  is_empty, concat, take_text, strip, Exn, type_error, attribute_error, task_error, is_value_error,
  Result, ok, raise, message, map_result,
}
use agent_workload_platform.Json.{
  ℤ, pos, negsuc, Value, null, str, arr, obj, Items, nil, cons, end, field, dict_get, truthy,
}
use agent_workload_platform.Tasking.Exec.{Exec, pure, throw, lift, ◌>>=◌, ◌>>◌}
use agent_workload_platform.Tasking.Owner
use agent_workload_platform.Tasking.Owner.{Peer, index, str_of, get_task}
use agent_workload_platform.Tasking.Workspaces.{
  FilePath, FileSystem, scratch_workspace, is_scratch_workspace, validate_workspace_boundary,
  resolve_workspace,
}
use agent_workload_platform.Tasking.Artifacts
use agent_workload_platform.Tasking.Artifacts.{Store}
use agent_workload_platform.Tasking.Albums.{SessionAlbum, album_by_key}

pub record Env : Type 0 where
  pub peer : Peer
  pub uuid5 : String → String
  pub is_uuid : String → Bool
  -- the digest's number that album_for_session reads
  pub digest_head : String → ℕ
  pub sha256 : String → String
  -- json.dumps with sorted keys and no blanks
  pub dumps : Value → String
  pub lower : String → String
  -- datetime.fromisoformat, as an instant
  pub fromisoformat : Value → Result ℕ
  pub files : FileSystem
  pub path_text : FilePath → String
  pub workspace_roots : List FilePath
  pub defer_workspace_validation : Bool
  pub artifacts : Option Store
  pub allowed_workspaces : List String
  pub max_artifact_bytes : ℕ

pub record Plan : Type 0 where
  pub instruction : String
  pub workspace : String

-- The dict that `_native_view` returns; `status` is always "submitted", `expires_at` None.
pub record TaskView : Type 0 where
  pub id : Value
  pub identity : Value
  pub instruction : Value
  pub workspace : Value
  pub session_name : Value
  pub session_reference : Option (String × String)
  pub plan_hash : String
  pub task_id : Value
  pub created_at : ℕ
  pub result : Value

abbrev pub not_found : Exn
not_found = task_error "task not found"

abbrev pub unavailable : Exn
unavailable = task_error "task artifact is unavailable"

unfoldable pub require : Bool → Exn → Exec (Unit {0})
require true e = pure tt
require false e = throw e

-- except ValueError as exc: raise TaskError(str(exc)) from exc
as_task_error : Result FilePath → Result FilePath
as_task_error (ok p) = ok p
as_task_error (raise e) = if is_value_error e then raise (task_error (message e)) else raise e

-- d.get(key) of a value that should be a dict
unfoldable pub get_of : Value → String → Result Value
get_of (obj d) k = ok (dict_get k d)
get_of _ k = raise (attribute_error "get")

-- value[:8] in an f-string
first_8 : (Value → String) → Value → Result String
first_8 show (str s) = ok (take_text 8 s)
first_8 show (arr vs) = ok (show (arr (first_items 8 vs)))
  where
    first_items : ℕ → Items → Items
    first_items zero vs = nil
    first_items (suc n) nil = nil
    first_items (suc n) (cons v vs) = cons v (first_items n vs)
first_8 show _ = raise (type_error "the value has no slices")

-- min(max(limit, 1), 100)
pub clamped : ℤ → ℕ
clamped (pos n) = min (max n 1) 100
clamped (negsuc n) = 1

module _ (env : Env) where
  open env use {peer, is_uuid, files, path_text, workspace_roots}

  pub local_workspace : Bool → String → Result FilePath
  local_workspace true workspace = validate_workspace_boundary files workspace workspace_roots
  local_workspace false workspace = resolve_workspace files workspace workspace_roots

  -- The workspace of a plan that is not the scratch one
  repository : Option Store → String → Result String
  unfolding as_task_error local_workspace
  repository (some store) workspace =
      Artifacts.resolve_workspace store workspace env.allowed_workspaces
  repository none workspace =
      map_result path_text
        (as_task_error (local_workspace env.defer_workspace_validation workspace))

  -- `_plan`
  unfoldable pub plan : String → String → Result Plan
  unfolding repository
  plan instruction workspace =
      if is_empty (strip instruction)
      then raise (task_error "instruction cannot be empty")
      else map_result (λ w. record { instruction = strip instruction; workspace = w })
          (if is_scratch_workspace workspace
            then ok scratch_workspace
            else repository env.artifacts workspace)

  -- self.owner.get(task_id) or the pending result
  pending_unless : Value → Value
  pending_unless v =
      if truthy v
      then v
      else obj (field "state" (str "pending") (field "result" null (field "failure" null end)))

  -- `_task_result`
  unfoldable pub task_result : Value → Exec Value
  unfolding pending_unless
  task_result task_id =
      if truthy task_id
      then (do answer ← get_task peer (str_of peer.show task_id); pure (pending_unless answer))
      else pure null

  album_reference : Result SessionAlbum → Result (Option (String × String))
  album_reference (ok a) = ok (some (a.artist, a.spotify_url))
  album_reference (raise e) = if is_value_error e then ok none else raise e

  -- The reference to an album, where the key is a text and names one
  session_reference : Value → Result (Option (String × String))
  unfolding album_reference
  session_reference (str key) = album_reference (album_by_key key)
  session_reference _ = ok none

  -- plan_hash of domain/task_plan.py, for an instruction and a workspace
  plan_hash : Value → Value → String
  plan_hash instruction workspace =
      env.sha256
        (env.dumps (obj (field "instruction" instruction (field "workspace" workspace end))))

  pub named : Value → Value → Exec Value
  named name task_id =
      if truthy name
      then pure name
      else (do head ← lift (first_8 peer.show task_id); pure (str (concat "Pi Durable · " head)))

  -- `_native_view`
  pub native_view : Value → Exec TaskView
  native_view native = do
    created ← lift (index native "created_at")
    created_at ← lift (env.fromisoformat created)
    album_key ← lift (get_of native "session_album_key")
    reference ← lift (session_reference album_key)
    task_id ← lift (index native "task_id")
    identity ← lift (index native "identity")
    instruction ← lift (index native "instruction")
    workspace ← lift (index native "workspace")
    name ← lift (get_of native "session_name")
    session_name ← named name task_id
    returned ← lift (get_of native "result")
    result ← if truthy returned then pure returned else task_result task_id
    pure (record {
      id = task_id;
      identity = identity;
      instruction = instruction;
      workspace = workspace;
      session_name = session_name;
      session_reference = reference;
      plan_hash = plan_hash instruction workspace;
      task_id = task_id;
      created_at = created_at;
      result = result;
    })
