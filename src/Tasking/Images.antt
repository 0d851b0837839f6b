-- ===== src/Tasking/Images.antt =====
-- tasking/domain/execution_images.py: the plan of a repository's execution image. What the file
-- system, Git, json and SHA-256 answer is a parameter; a relative path is the list of its parts.
pub mod Inside
pub mod Loaded
use agent_workload_platform.Prelude.{
  String, Bool, not, Option, none, some, List, [], ◌∷◌, starts_with, if◌then◌else◌, is_empty,
  concat, take_text, strip, contains, value_error, Result, ok, raise, map_result, ◌>>=◌, ◌>>◌,
}
use agent_workload_platform.Json.{Value, null, str, obj, Fields, end, field, get, get_or, dict_get}
use agent_workload_platform.Prelude.{cat, image_configuration_error}
use agent_workload_platform.Tasking.Workspaces.{FilePath, is_within}
use agent_workload_platform.Tasking.ImageNames.{
  path_of, as_posix, is_image_reference, is_target, is_context_name, sorted_entries,
}

pub record ExecutionImagePlan : Type 0 where
  pub config_path : FilePath
  pub image_ref : String
  pub context : FilePath
  pub dockerfile : FilePath
  pub asset_config : FilePath
  pub target : Option String
  pub named_contexts : List (String × FilePath)
  pub source_revision : String
  pub artifact_version : String

-- What the build object declares, checked against the workspace
pub record Build : Type 0 where
  pub context : FilePath
  pub dockerfile : FilePath
  pub asset_config : FilePath
  pub target : Option String
  pub named_contexts : List (String × FilePath)

-- A text that is read and decoded as JSON
pub data Reading : Type 0 where
  decoded : Value → Reading
  -- an OSError or a JSONDecodeError, with its text
  unreadable : String → Reading
  -- a UnicodeDecodeError, with its text
  undecodable : String → Reading

-- A workspace, and what is asked about its relative paths
pub record Host : Type 0 where
  pub root : FilePath
  -- (workspace / relative).resolve()
  pub resolved : FilePath → Result FilePath
  pub is_file : FilePath → Bool
  pub is_dir : FilePath → Bool
  pub exists : FilePath → Bool
  pub reading : FilePath → Reading
  -- str(workspace / relative)
  pub path_text : FilePath → String
  -- the output of `git rev-parse`, with `none` for CalledProcessError
  pub rev_parse : String → Option String
  -- json.dumps with sorted keys and without blanks
  pub dumps : Value → String
  pub sha256 : String → String

-- raise ExecutionImageConfigurationError(...)
invalid : {A : Type 0} → List String → Result A
invalid parts = raise (image_configuration_error (cat parts))

image_reference : Value → Result String
unfolding invalid
image_reference (str s) =
    if is_image_reference s
    then ok s
    else invalid ("image must be a valid non-empty image reference" ∷ [])
image_reference v = invalid ("image must be a valid non-empty image reference" ∷ [])

-- if not isinstance(value, dict): raise ExecutionImageConfigurationError(...)
pub object_or : String → Value → Result Fields
unfolding invalid
object_or refusal (obj d) = ok d
object_or refusal v = invalid (refusal ∷ [])

target_of : Value → Result (Option String)
unfolding invalid
target_of null = ok none
target_of (str s) = if is_target s then ok (some s) else invalid ("build.target is invalid" ∷ [])
target_of v = invalid ("build.target is invalid" ∷ [])

-- if not test: raise ExecutionImageConfigurationError(...)
require : Bool → List String → Result (Unit {0})
unfolding invalid
require test parts = if test then ok tt else invalid parts

-- ExecutionImagePlan.idempotency_key
pub idempotency_key : ExecutionImagePlan → String
idempotency_key plan = concat "image-build:" plan.artifact_version

-- ExecutionImagePlan.installed_image_ref
pub installed_image_ref : ExecutionImagePlan → String
unfolding cat
installed_image_ref plan = cat (plan.image_ref ∷ "-" ∷ plan.artifact_version ∷ [])

module _ (host : Host) where
  inside_workspace : FilePath → String → FilePath → Result FilePath
  unfolding invalid
  inside_workspace relative name resolved =
      if is_within host.root resolved
      then ok relative
      else invalid ("build." ∷ name ∷ " must remain inside the workspace" ∷ [])

  unfoldable pub relative_path : Value → String → Result FilePath
  unfolding invalid inside_workspace path_of
  relative_path (str s) name =
      if is_empty s
      then invalid ("build." ∷ name ∷ " must be a non-empty path" ∷ [])
      else if starts_with s "/"
      then invalid ("build." ∷ name ∷ " must be relative" ∷ [])
      else host.resolved (path_of s) >>= inside_workspace (path_of s) name
  relative_path v name = invalid ("build." ∷ name ∷ " must be a non-empty path" ∷ [])

  config_of : FilePath → Reading → Result (Option Fields)
  unfolding invalid
  config_of path (decoded (obj d)) = ok (some d)
  config_of path (decoded v) = invalid (".pi/gondolin.json must contain an object" ∷ [])
  config_of path (unreadable e) = invalid ("invalid " ∷ host.path_text path ∷ ": " ∷ e ∷ [])
  config_of path (undecodable e) = raise (value_error e)

  unfoldable pub read_config : FilePath → Result (Option Fields)
  unfolding config_of
  read_config path = if host.is_file path then config_of path (host.reading path) else ok none

  revision_path : String → FilePath → String
  unfolding as_posix cat
  revision_path revision [] = cat (revision ∷ "^{tree}" ∷ [])
  revision_path revision (p ∷ ps) = cat (revision ∷ ":" ∷ as_posix (p ∷ ps) ∷ [])

  object_id_of : FilePath → Option String → Result String
  unfolding invalid
  object_id_of path (some output) = ok (strip output)
  object_id_of path none =
      invalid ("build input is not present in source revision: " ∷ as_posix path ∷ [])

  unfoldable pub git_object_id : String → FilePath → Result String
  unfolding object_id_of revision_path
  git_object_id revision path = object_id_of path (host.rev_parse (revision_path revision path))

  named_context : String → Value → Result (String × FilePath)
  unfolding require
  named_context name value = do
    require (is_context_name name) ("build.contexts contains an invalid name" ∷ [])
    relative ← relative_path value (concat "contexts." name)
    require (host.exists relative) ("build.contexts." ∷ name ∷ " does not exist" ∷ [])
    ok (name, relative)

  contexts_from : List (String × Value) → Result (List (String × FilePath))
  unfolding named_context
  contexts_from [] = ok []
  contexts_from (e ∷ es) = do
    context ← named_context e.0 e.1
    later ← contexts_from es
    ok (context ∷ later)

  -- What is checked of the build object once its paths are read
  checked : Fields → FilePath → FilePath → FilePath → Result Build
  unfolding require target_of object_or contexts_from sorted_entries
  checked build context dockerfile asset_config = do
    require (host.is_dir context) ("build.context directory does not exist" ∷ [])
    require (host.is_file dockerfile) ("build.dockerfile file does not exist" ∷ [])
    require (host.is_file asset_config) ("build.assetConfig file does not exist" ∷ [])
    target ← target_of (dict_get "target" build)
    contexts ← object_or "build.contexts must be an object" (get_or "contexts" (obj end) build)
    named ← contexts_from (sorted_entries contexts)
    ok (record {
      context = context;
      dockerfile = dockerfile;
      asset_config = asset_config;
      target = target;
      named_contexts = named;
    })

  pub build_of : Fields → Result Build
  unfolding checked
  build_of build = do
    context ← relative_path (dict_get "context" build) "context"
    dockerfile ← relative_path (dict_get "dockerfile" build) "dockerfile"
    asset_config ← relative_path (dict_get "assetConfig" build) "assetConfig"
    checked build context dockerfile asset_config

  context_ids : String → List (String × FilePath) → Result Fields
  context_ids revision [] = ok end
  context_ids revision (c ∷ cs) = do
    id ← git_object_id revision c.1
    later ← context_ids revision cs
    ok (field c.0 (str id) later)

  -- The immutable inputs of a build
  inputs_of : String → Build → Result Value
  unfolding context_ids
  inputs_of revision build = do
    context ← git_object_id revision build.context
    dockerfile ← git_object_id revision build.dockerfile
    asset_config ← git_object_id revision build.asset_config
    contexts ← context_ids revision build.named_contexts
    ok (
        obj (
          field "context" (str context) (
            field "dockerfile" (str dockerfile)
              (field "assetConfig" (str asset_config) (field "contexts" (obj contexts) end)))))

  artifact_version_of : String → Fields → Value → String
  artifact_version_of image_ref build inputs = concat "v2-" (
      take_text 32 (
        host.sha256 (
          host.dumps (
            obj (
              field "image" (str image_ref)
                (field "build" (str (host.dumps (obj build))) (field "inputs" inputs end)))))))

  plan_of : String → FilePath → Value → Value → Result ExecutionImagePlan
  unfolding image_reference object_or build_of inputs_of artifact_version_of
  plan_of revision config_path image declared = do
    image_ref ← image_reference image
    d ← object_or "project image requires a build object" declared
    build ← build_of d
    inputs ← inputs_of revision build
    ok (record {
      config_path = config_path;
      image_ref = image_ref;
      context = build.context;
      dockerfile = build.dockerfile;
      asset_config = build.asset_config;
      target = build.target;
      named_contexts = build.named_contexts;
      source_revision = revision;
      artifact_version = artifact_version_of image_ref d inputs;
    })

  planned_image : String → FilePath → Fields → Option Value → Result (Option ExecutionImagePlan)
  unfolding plan_of
  planned_image revision config_path config none = ok none
  planned_image revision config_path config (some image) =
      map_result some (plan_of revision config_path image (dict_get "build" config))

  planned : String → FilePath → Option Fields → Result (Option ExecutionImagePlan)
  unfolding planned_image
  planned revision config_path none = ok none
  planned revision config_path (some config) =
      planned_image revision config_path config (get "image" config)

  unfoldable pub load_execution_image_plan : String → String → Result (Option ExecutionImagePlan)
  unfolding planned
  load_execution_image_plan revision config_path = do
    config_relative ← relative_path (str config_path) "imageConfig"
    config ← read_config config_relative
    planned revision config_relative config
