-- ===== src/Examples/Narration.antt =====
-- Narrations of records, and details that are kept out of them.
use agent_workload_platform.Prelude.{String, ◌≡◌, refl, some, split, strip, join}
use agent_workload_platform.Json.{Value, str, obj, end, field}
use agent_workload_platform.Tasking.TaskProgress.{
  is_sensitive, safe_detail, narration_from_pi_record, tool_fallback,
}
use agent_workload_platform.Tasking.TaskProgress.Public.{OfOption, IsPublic, narration-IsPublic}

abbrev started : String → Value
started command = obj (
    field "type" (str "tool_execution_start")
      (field "toolName" (str "bash") (field "args" (obj (field "command" (str command) end)) end)))

told_command :
    narration_from_pi_record (some (started " ls   src ")) ≡ some "The agent is running: ls src."
unfolding narration_from_pi_record safe_detail strip split join is_sensitive tool_fallback
told_command = refl

kept_out :
    narration_from_pi_record (some (started "export API_Key=1"))
    ≡ some "The agent is running a workspace command."
unfolding narration_from_pi_record safe_detail strip split join is_sensitive tool_fallback
kept_out = refl

narration-IsPublic_example : OfOption IsPublic (narration_from_pi_record (some (started "ls")))
narration-IsPublic_example = narration-IsPublic (some (started "ls"))
