-- ===== src/Gateway/Routes/Owned.antt =====
-- main.py: a task of another identity, through the routes.
use agent_workload_platform.Prelude.{ℕ, String, ◌≡◌, refl, true, false, Option, ok, raise}
use agent_workload_platform.Json.{ℤ, obj, Fields, dict_get, is_str}
use agent_workload_platform.Prelude.{http_error}
use agent_workload_platform.Gateway.{Gateway, authenticate, normalized_identity}
use agent_workload_platform.Gateway.Views.{Reader}
use agent_workload_platform.Tasking.Exec.{World, lift, ◌>>=◌}
use agent_workload_platform.Tasking.Owner.{describe}
use agent_workload_platform.Tasking.TaskView.{not_found}
use agent_workload_platform.Tasking.TaskView as Tasks
use agent_workload_platform.Tasking.Service.Ownership.{foreign_task_not_found}
use agent_workload_platform.Song.Service as Songs
use agent_workload_platform.Gateway.Routes.{
  replaced, excepting, task_status, artifact_status, mine, let_in, get_task, get_task_progress,
  get_artifact, cancel,
}

module _ (gateway : Gateway) (reader : Reader) (tasks : Tasks.Env) (songs : Songs.Env)
    (authorization : Option String) (identity owner task_id : String) (d : Fields) (w w' : World)
    (accepted : authenticate gateway authorization ≡ ok tt)
    (is_owner : normalized_identity gateway identity ≡ ok owner)
    (valid_id : tasks.is_uuid task_id ≡ true)
    (described : describe tasks.peer task_id w ≡ (ok (obj d), w'))
    (foreign : is_str owner (dict_get "identity" d) ≡ false) where
  -- An owner who asks the routes for a task that the task owner describes with another identity gets
  -- 404 and "task not found" from each of them, and the one description is all that was sent.
  pub foreign_task_is_404 :
      (name : String) (after : ℕ) (limit : ℤ)
      → let missing = http_error 404 "task not found" in
        (get_task gateway reader tasks songs authorization task_id identity w ≡ (raise missing, w'))
        × (get_artifact gateway reader tasks songs authorization task_id name identity w
            ≡ (raise missing, w'))
        × (cancel gateway reader tasks songs authorization task_id identity w ≡ (raise missing, w'))
        × (get_task_progress gateway reader tasks songs authorization task_id identity after limit w
            ≡ (raise missing, w'))
  unfolding get_task get_artifact cancel get_task_progress mine let_in excepting replaced
      task_status artifact_status ◌>>=◌ lift
  foreign_task_is_404 name after limit =
      let p =
        foreign_task_not_found tasks owner task_id d w w' valid_id described foreign name after
          limit in
      (
        rw (accepted, is_owner, p.0) refl,
        rw (accepted, is_owner, p.1) refl,
        rw (accepted, is_owner, p.2) refl,
        rw (accepted, is_owner, p.3) refl,
      )
