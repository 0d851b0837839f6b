-- ===== src/Tasking/Workspaces.antt =====
-- tasking/domain/workspaces.py: which directories a task may name. A resolved path is the list of
-- its parts. `Path.expanduser`, `Path.resolve` and `Path.is_dir` ask the file system: parameters.
pub mod Inside
use agent_workload_platform.Prelude.{
  String, Bool, true, false, ◌&&◌, Option, none, some, List, [], ◌∷◌, ◌==◌, if◌then◌else◌, any,
  value_error, Result, ok, raise, ◌>>=◌,
}

abbrev pub FilePath : Type 0
FilePath = List String

abbrev pub scratch_workspace : String
scratch_workspace = "scratch"

unfoldable pub is_scratch_workspace : String → Bool
is_scratch_workspace requested = requested == scratch_workspace

-- candidate == root or candidate.is_relative_to(root)
unfoldable pub is_within : FilePath → FilePath → Bool
is_within [] candidate = true
is_within (r ∷ rs) [] = false
is_within (r ∷ rs) (c ∷ cs) = c == r && is_within rs cs

pub record FileSystem : Type 0 where
  -- Path(requested).expanduser().resolve(strict=False)
  pub resolved : String → FilePath
  -- path.resolve(strict=True), with `none` for FileNotFoundError
  pub resolved_strictly : FilePath → Option FilePath
  pub is_dir : FilePath → Bool

module _ (fs : FileSystem) where
  unfoldable pub validate_workspace_boundary : String → List FilePath → Result FilePath
  validate_workspace_boundary requested roots =
      if any (λ root. is_within root (fs.resolved requested)) roots
      then ok (fs.resolved requested)
      else raise (value_error "workspace is outside the configured roots")

  existing : Option FilePath → Result FilePath
  existing none =
      raise
        (value_error "workspace does not exist; choose 'scratch' for a task without a repository")
  existing (some candidate) =
      if fs.is_dir candidate
      then ok candidate
      else raise (value_error "workspace must be a directory")

  unfoldable pub resolve_workspace : String → List FilePath → Result FilePath
  unfolding existing
  resolve_workspace requested roots = do
    candidate ← validate_workspace_boundary requested roots
    existing (fs.resolved_strictly candidate)
