-- ===== src/Examples/Images.antt =====
-- Execution images at a concrete workspace.
use agent_workload_platform.Prelude.{
  String, ◌≡◌, refl, true, Option, some, List, [], ◌∷◌, strip, join, Result, ok, raise,
}
use agent_workload_platform.Json.{str, obj, Fields, end, field}
use agent_workload_platform.Prelude.{cat, image_configuration_error}
use agent_workload_platform.Tasking.Workspaces.{is_within}
use agent_workload_platform.Tasking.ImageNames.{is_image_reference, is_target, is_context_name}
use agent_workload_platform.Tasking.Images.{
  Host, ExecutionImagePlan, decoded, load_execution_image_plan, relative_path, read_config,
  git_object_id,
}

abbrev declared : Fields
declared = field "image" (str "voice:1") (
    field "build"
      (obj (
        field "context" (str ".") (
          field "dockerfile" (str "./docker/Dockerfile") (
            field "assetConfig" (str "docker/assets.json") (
              field "target" (str "base") (
                field "contexts"
                  (obj (field "tools" (str "tools") (field "data" (str "data/") end))) end))))))
      end)

-- Every path exists, is at its name, and is committed under it.
abbrev host : Host
host = record {
  root = "repo" ∷ [];
  resolved = λ p. ok ("repo" ∷ p);
  is_file = λ p. true;
  is_dir = λ p. true;
  exists = λ p. true;
  reading = λ p. decoded (obj declared);
  path_text = λ p. join "/" ("repo" ∷ p);
  rev_parse = λ revision. some revision;
  dumps = λ v. "json";
  sha256 = λ s. "0123456789abcdef0123456789abcdef0123456789abcdef0123456789abcdef";
}

-- The paths and the version of the plan that is there
paths_of : Result (Option ExecutionImagePlan) → List (String × List String)
paths_of (ok (some plan)) =
    (plan.artifact_version, plan.context) ∷ ("dockerfile", plan.dockerfile) ∷ plan.named_contexts
paths_of r = []

one_plan :
    paths_of (load_execution_image_plan host "HEAD" ".pi/gondolin.json")
    ≡ ("v2-0123456789abcdef0123456789abcdef", [])
      ∷ ("dockerfile", "docker" ∷ "Dockerfile" ∷ [])
      ∷ ("data", "data" ∷ [])
      ∷ ("tools", "tools" ∷ [])
      ∷ []
unfolding paths_of load_execution_image_plan relative_path read_config git_object_id
    is_image_reference is_target is_context_name join strip is_within
one_plan = refl

-- An absolute path is refused before it is resolved.
absolute_path :
    relative_path host (str "/etc/passwd") "context"
    ≡ raise (image_configuration_error "build.context must be relative")
unfolding relative_path cat
absolute_path = refl
