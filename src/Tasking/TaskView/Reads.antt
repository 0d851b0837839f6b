-- ===== src/Tasking/TaskView/Reads.antt =====
-- tasking/application/service.py: showing a task submits nothing.
use agent_workload_platform.Prelude.{Bool, true, false, List, Exn}
use agent_workload_platform.Json.{Value}
use agent_workload_platform.Tasking.Exec.{Command}
use agent_workload_platform.Tasking.Exec.Keeps.{Keeps, Keeps-pure, Keeps-throw, keeps_rules}
use agent_workload_platform.Tasking.Owner.Submits.{Submitted, get_task-Keeps}
use agent_workload_platform.Tasking.TaskView.{Env, require, task_result, named, native_view}

module _ (env : Env) (cs : List Command) where
  task_result-Keeps : (v : Value) → Keeps (Submitted cs) (task_result env v)
  unfolding task_result
  task_result-Keeps v = search (keeps_rules, get_task-Keeps env.peer cs) depth 12

  named-Keeps : (name task_id : Value) → Keeps (Submitted cs) (named env name task_id)
  unfolding named
  named-Keeps name task_id = search keeps_rules depth 12

  pub native_view-Keeps : (v : Value) → Keeps (Submitted cs) (native_view env v)
  unfolding native_view
  native_view-Keeps v = search (keeps_rules, named-Keeps, task_result-Keeps) depth 40

  pub require-Keeps : (b : Bool) (e : Exn) → Keeps (Submitted cs) (require b e)
  unfolding require
  require-Keeps true e = Keeps-pure tt
  require-Keeps false e = Keeps-throw e
