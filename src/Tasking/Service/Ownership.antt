-- ===== src/Tasking/Service/Ownership.antt =====
-- tasking/application/service.py: a task of another identity is not found, and is not touched.
use agent_workload_platform.Prelude.{ℕ, String, ◌≡◌, refl, true, false, ok, raise}
use agent_workload_platform.Json.{ℤ, obj, Fields, dict_get, is_str}
use agent_workload_platform.Tasking.Exec.{World, pure, throw, lift, ◌>>=◌}
use agent_workload_platform.Tasking.Owner.{describe}
use agent_workload_platform.Tasking.TaskView.{Env, require, not_found, get_of}
use agent_workload_platform.Tasking.Service.{
  owned_by, get_native_owned, get, artifact, cancel, progress,
}

module _ (env : Env) (identity task_id : String) (d : Fields) (w w' : World)
    (valid_id : env.is_uuid task_id ≡ true)
    (described : describe env.peer task_id w ≡ (ok (obj d), w'))
    (foreign : is_str identity (dict_get "identity" d) ≡ false) where
  get_native_owned-foreign : get_native_owned env identity task_id w ≡ (raise not_found, w')
  unfolding get_native_owned require ◌>>=◌ lift throw pure owned_by get_of
  get_native_owned-foreign = rw (valid_id, described) (rw foreign refl)

  -- Where the owner describes a task with another identity, reading it, its artifacts and its
  -- progress, and cancelling it, all raise "task not found", and the one description is all that
  -- was sent.
  pub foreign_task_not_found :
      (name : String) (after : ℕ) (limit : ℤ)
      → (get env identity task_id w ≡ (raise not_found, w'))
        × (artifact env identity task_id name w ≡ (raise not_found, w'))
        × (cancel env identity task_id w ≡ (raise not_found, w'))
        × (progress env identity task_id after limit w ≡ (raise not_found, w'))
  unfolding get artifact cancel progress ◌>>=◌
  foreign_task_not_found name after limit = (
    rw get_native_owned-foreign refl,
    rw get_native_owned-foreign refl,
    rw get_native_owned-foreign refl,
    rw get_native_owned-foreign refl,
  )
