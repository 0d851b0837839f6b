-- ===== src/Examples/Routes.antt =====
-- The routes of tasks at a concrete gateway, and the view of a stored task.
use agent_workload_platform.Prelude.{all_chars, ◌≡◌, refl, none, some, strip, ok, raise}
use agent_workload_platform.Json.{pos, int, str, obj, Fields, end, field}
use agent_workload_platform.Prelude.{http_error}
use agent_workload_platform.Gateway.{authenticate, bearer, normalized_identity, normalized}
use agent_workload_platform.Gateway.Views.{Reader}
use agent_workload_platform.Gateway.Routes.{get_task, get_artifact, cancel, get_task_progress}
use agent_workload_platform.Gateway.Routes.Owned.{foreign_task_is_404}
use agent_workload_platform.Examples.Gateway.{gateway}
use agent_workload_platform.Examples.Tasks as Tasks
use agent_workload_platform.Examples.Songs as Songs

abbrev reader : Reader
reader = record {
  loads = λ s. ok none;
  dumps = λ v. "json";
  dumps_length = λ v. 4;
  show = λ v. "value";
  moment = λ n. str "2026-01-01T00:00:00+00:00";
}

-- A stored task with the capability, raw output and a failure
abbrev stored : Fields
stored = field "approval_token" (str "secret") (
    field "result"
      (obj (
        field "failure" (str "late") (
          field "result"
            (obj (
              field "exit_code" (int (pos 0)) (
                field "stdout" (str "done")
                  (field "artifacts" (obj (field "patch" (str "s3://p") end)) end))))
            end)))
      end)

known : authenticate gateway (some "Bearer secret") ≡ ok tt
unfolding authenticate bearer all_chars
known = refl

stranger : normalized_identity gateway "owner@host" ≡ ok "owner@host"
unfolding normalized_identity normalized strip
stranger = refl

foreign_task_is_404_example :
    (get_task gateway reader Tasks.env Songs.env (some "Bearer secret") "t" "owner@host" Tasks.start
      ≡ (raise (http_error 404 "task not found"), Tasks.asked))
    × (get_artifact gateway reader Tasks.env Songs.env
          (some "Bearer secret")
          "t"
          "patch"
          "owner@host"
          Tasks.start
        ≡ (raise (http_error 404 "task not found"), Tasks.asked))
    × (cancel gateway reader Tasks.env Songs.env (some "Bearer secret") "t" "owner@host" Tasks.start
        ≡ (raise (http_error 404 "task not found"), Tasks.asked))
    × (get_task_progress gateway reader Tasks.env Songs.env
          (some "Bearer secret")
          "t"
          "owner@host"
          0
          (pos 40)
          Tasks.start
        ≡ (raise (http_error 404 "task not found"), Tasks.asked))
foreign_task_is_404_example =
    foreign_task_is_404 gateway reader Tasks.env Songs.env (some "Bearer secret") "owner@host"
      "owner@host" "t" Tasks.task Tasks.start Tasks.asked known stranger refl Tasks.described refl
      "patch" 0 (pos 40)
