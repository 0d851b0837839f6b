-- ===== src/Examples/Tasks.antt =====
-- Tasks of the service at a concrete owner.
use agent_workload_platform.Prelude.{
  ℕ, ◌≡◌, refl, true, false, none, List, [], ◌∷◌, ◌++◌, map, ok, raise,
}
use agent_workload_platform.Json.{pos, Value, null, bool, str, obj, Fields, end, field}
use agent_workload_platform.Tasking.Exec.{Command, World}
use agent_workload_platform.Tasking.Owner.{Peer, Reply, envelope, describe, call}
use agent_workload_platform.Tasking.TaskView.{Env, TaskView, not_found}
use agent_workload_platform.Tasking.Service.{get, artifact, cancel, progress, submit}
use agent_workload_platform.Tasking.Service.Submits.{Admission, submit-admits}
use agent_workload_platform.Tasking.Service.DigitalTwin.{
  TwinOutcome, enqueue_digital_twin, enqueue_digital_twin-submits,
}
use mathlib.Core.List.{Permᴰ}
use agent_workload_platform.Tasking.Service.Listing.{shown, with_name, sliced, newest_first, insert}
use agent_workload_platform.Tasking.Service.Listing.Newest.{shown_newest, IsNewestFirst, IsWithin}
use agent_workload_platform.Tasking.Service.Ownership.{foreign_task_not_found}

abbrev pub task : Fields
task = field "task_id" (str "t") (
    field "identity" (str "me") (
      field "instruction" (str "look") (
        field "workspace" (str "scratch")
          (field "created_at" (str "2026-01-01T00:00:00+00:00") end))))

abbrev answered : Value → Reply
answered v = envelope (field "success" (bool true) (field "data" v end))

-- Every task is described as the one above.
abbrev peer : Peer
peer = record {
  answer = λ sent c. elim c [
    | Command.describe id ↦ answered (obj task)
    | Command.submit kind params id ↦ answered (obj (field "task_id" (str id) end))
    | _ ↦ answered null
  ];
  show = λ v. "value";
}

abbrev pub env : Env
env = record {
  peer = peer;
  uuid5 = λ name. name;
  is_uuid = λ id. true;
  digest_head = λ id. 3;
  sha256 = λ s. s;
  dumps = λ v. "json";
  lower = λ s. s;
  fromisoformat = λ v. ok 0;
  files = record { resolved = λ s. []; resolved_strictly = λ p. none; is_dir = λ p. false };
  path_text = λ p. "";
  workspace_roots = [];
  defer_workspace_validation = false;
  artifacts = none;
  allowed_workspaces = [];
  max_artifact_bytes = 100;
}

abbrev pub start : World
start = record { sent = []; failures = [] }

abbrev pub asked : World
asked = record { sent = Command.describe "t" ∷ []; failures = [] }

submit-admits_example :
    Admission env "t" "me" " look " "scratch" none []
      (submit env "t" "me" " look " "scratch" none start).1
submit-admits_example = submit-admits env "t" "me" " look " "scratch" none start

enqueue_digital_twin-submits_example :
    TwinOutcome env "me" "s" "m" "hello" "now" []
      (enqueue_digital_twin env "me" "s" "m" "hello" "now" start).1
enqueue_digital_twin-submits_example =
    enqueue_digital_twin-submits env "me" "s" "m" "hello" "now" start

pub described : describe env.peer "t" start ≡ (ok (obj task), asked)
unfolding describe call
described = refl

foreign_task_not_found_example :
    (get env "you" "t" start ≡ (raise not_found, asked))
    × (artifact env "you" "t" "patch" start ≡ (raise not_found, asked))
    × (cancel env "you" "t" start ≡ (raise not_found, asked))
    × (progress env "you" "t" 0 (pos 40) start ≡ (raise not_found, asked))
foreign_task_not_found_example =
    foreign_task_not_found env "you" "t" task start asked refl described refl "patch" 0 (pos 40)

abbrev view_at : ℕ → TaskView
view_at created = record {
  id = str "t";
  identity = str "me";
  instruction = str "look";
  workspace = str "scratch";
  session_name = str "So What";
  session_reference = none;
  plan_hash = "json";
  task_id = str "t";
  created_at = created;
  result = null;
}

-- The newest two of three
shown_two :
    map (λ v. v.created_at) (shown (pos 2) none (view_at 1 ∷ view_at 3 ∷ view_at 2 ∷ []))
    ≡ 3 ∷ 2 ∷ []
unfolding shown sliced newest_first insert with_name
shown_two = refl

shown_newest_example :
    (rest : List TaskView) × Permᴰ
      (shown (pos 1) none (view_at 1 ∷ view_at 3 ∷ []) ++ rest)
      (with_name none (view_at 1 ∷ view_at 3 ∷ []))
    × IsNewestFirst (shown (pos 1) none (view_at 1 ∷ view_at 3 ∷ []) ++ rest)
    × IsWithin (pos 1) (shown (pos 1) none (view_at 1 ∷ view_at 3 ∷ []))
shown_newest_example = shown_newest (pos 1) none (view_at 1 ∷ view_at 3 ∷ [])
