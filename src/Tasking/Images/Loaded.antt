-- ===== src/Tasking/Images/Loaded.antt =====
-- execution_images.py: the plan of a configuration.
use agent_workload_platform.Prelude.{String, ◌≡◌, true, Option, none, some, All, ok}
use agent_workload_platform.Tasking.Workspaces.{FilePath}
use agent_workload_platform.Tasking.ImageNames.{is_image_reference}
use agent_workload_platform.Tasking.Images.{Host, Build, ExecutionImagePlan, git_object_id}
use agent_workload_platform.Tasking.Images.Inside.{IsInside, IsBuild}

module _ (host : Host) where
  -- Git knows the path in the revision.
  abbrev pub IsIn : String → FilePath → Type 0
  IsIn revision p = (id : String) × (git_object_id host revision p ≡ ok id)

  pub record AreIn (revision : String) (build : Build) : Type 0 where
    pub context : IsIn revision build.context
    pub dockerfile : IsIn revision build.dockerfile
    pub asset_config : IsIn revision build.asset_config
    pub named_contexts : All (λ c. IsIn revision c.1) build.named_contexts

  -- The build of a plan
  abbrev pub build : ExecutionImagePlan → Build
  build plan = record {
    context = plan.context;
    dockerfile = plan.dockerfile;
    asset_config = plan.asset_config;
    target = plan.target;
    named_contexts = plan.named_contexts;
  }

  pub record IsPlan (revision : String) (plan : ExecutionImagePlan) : Type 0 where
    pub config_path : (IsInside host) plan.config_path × (host.is_file plan.config_path ≡ true)
    pub image_ref : is_image_reference plan.image_ref ≡ true
    pub checked : (IsBuild host) (build plan)
    pub committed : AreIn revision (build plan)
    pub source_revision : plan.source_revision ≡ revision

  -- There is no plan, or it is one.
  abbrev pub IsLoaded : String → Option ExecutionImagePlan → Type 0
  IsLoaded revision none = Unit
  IsLoaded revision (some plan) = IsPlan revision plan
