-- ===== src/Examples/Songs.antt =====
-- A song of one owner: its manifest, the owner's answers, and the properties at this input.
use agent_workload_platform.Prelude.{
  String, ◌≡◌, refl, ◌↔◌, Bool, true, false, Option, none, some, [], ◌∷◌, ◌==◌, starts_with,
  if◌then◌else◌, strip, ok, raise,
}
use agent_workload_platform.Json.{
  pos, Value, null, bool, int, str, arr, obj, nil, cons, Fields, end, field,
}
use agent_workload_platform.Tasking.Exec.{Command, World}
use agent_workload_platform.Tasking.Owner.{Peer, Reply, envelope, describe_product, call}
use agent_workload_platform.Song.Manifest.{
  SongManifest, to_dict, text, lyrics_text, lyrics_from, integer, is_time_signature, has_section,
  is_key_scale, validate_fields, validate_song_manifest, manifest_from_pi_result,
}
use agent_workload_platform.Song.Manifest.Bounds.{IsManifest, validate-IsManifest, validate-to_dict}
use agent_workload_platform.Song.Lifecycle.{
  TaskState, SongStatus, RenderReadiness, SongTaskSnapshot, decide_render, project_song,
  snapshot_manifest, audio_artifact,
}
use agent_workload_platform.Song.Lifecycle.Laws.{
  ready_iff, lyrics_ready_iff, audio_shown, failure_told,
}
use agent_workload_platform.Song.Service.{
  Env, not_found, get as get_song, render, cancel, lyrics_task_id,
}
use agent_workload_platform.Song.Service.Renders.{RenderOutcome, render-submits}
use agent_workload_platform.Song.Service.Ownership.{foreign_not_found}

abbrev manifest_json : Value
manifest_json = obj (
    field "title" (str " Night Shift ") (
      field "style" (str "jazz") (
        field "lyricLines" (arr (cons (str "[Verse 1]") (cons (str "la la") nil))) (
          field "durationSeconds" (int (pos 120))
            (field "bpm" (int (pos 90)) (field "keyScale" (str "D Minor") end))))))

abbrev manifest : SongManifest
manifest = record {
  title = "Night Shift";
  style = "jazz";
  lyrics = "[Verse 1]\nla la";
  duration_seconds = pos 120;
  bpm = pos 90;
  key_scale = "D Minor";
  time_signature = "4";
}

manifest_valid : validate_song_manifest manifest_json ≡ ok manifest
unfolding validate_song_manifest validate_fields text lyrics_text lyrics_from integer
    is_time_signature has_section is_key_scale strip
manifest_valid = refl

validate-IsManifest_example : IsManifest manifest
validate-IsManifest_example = validate-IsManifest manifest_json manifest manifest_valid

validate-to_dict_example : validate_song_manifest (obj (to_dict manifest)) ≡ ok manifest
validate-to_dict_example = validate-to_dict manifest_json manifest manifest_valid

-- The tests parse no text.
abbrev loads : String → Option Value
loads _ = none

abbrev lyrics : SongTaskSnapshot
lyrics = (TaskState.completed, some (field "manifest" manifest_json end))

abbrev rendered : Option SongTaskSnapshot
rendered = some (
  TaskState.completed,
  some (field "artifacts" (obj (field "audio" (str "s3://songs/a.m4a") end)) end),
)

ready_iff_example :
    (decide_render loads false false lyrics ≡ (RenderReadiness.ready, some manifest)) ↔ (
      ◌≡◌ {A = Bool} false false
      × ◌≡◌ {A = Bool} false false
      × (lyrics.0 ≡ TaskState.completed)
      × (manifest_from_pi_result loads lyrics.1 ≡ ok manifest))
ready_iff_example = ready_iff loads false false lyrics manifest

lyrics_ready_iff_example :
    ((project_song loads false lyrics rendered).0 ≡ SongStatus.lyrics_ready)
    ↔ ((decide_render loads false true lyrics).0 ≡ RenderReadiness.ready)
lyrics_ready_iff_example = lyrics_ready_iff loads false lyrics rendered

audio_visible : (project_song loads false lyrics rendered).2 ≡ some "s3://songs/a.m4a"
unfolding project_song snapshot_manifest audio_artifact manifest_from_pi_result
    validate_song_manifest validate_fields text lyrics_text lyrics_from integer is_time_signature
    has_section is_key_scale strip
audio_visible = refl

audio_shown_example :
    ((project_song loads false lyrics rendered).0 ≡ SongStatus.complete)
    × ◌≡◌ {A = Bool} false false
    × ((project_song loads false lyrics rendered).3 ≡ none)
    × (starts_with "s3://songs/a.m4a" "s3://" ≡ true)
    × ((m : SongManifest) × ((project_song loads false lyrics rendered).1 ≡ some m) × IsManifest m)
audio_shown_example = audio_shown loads false lyrics rendered "s3://songs/a.m4a" audio_visible

failure_told_example :
    ((project_song loads false lyrics (some (TaskState.failed, none))).3
      ≡ some "song rendering failed")
    ↔ (((project_song loads false lyrics (some (TaskState.failed, none))).0 ≡ SongStatus.failed)
        × ◌≡◌ {A = String} "song rendering failed" "song rendering failed")
failure_told_example =
    failure_told loads false lyrics (some (TaskState.failed, none)) "song rendering failed"

-- The owner describes the lyric task of the generation "g" as one of "me", and no render task.
abbrev product : Fields
product = field "kind" (str "song-lyrics") (
    field "params"
      (obj (
        field "identity" (str "me") (
          field "generation_id" (str "g") (
            field "brief" (str "b") (
              field "workspace" (str "scratch")
                (field "style" (str "jazz") (field "duration_seconds" (int (pos 60)) end)))))))
      (field "created_at" (str "t") (field "cancelled_at" null end)))

abbrev answered : Value → Reply
answered v = envelope (field "success" (bool true) (field "data" v end))

abbrev peer : Peer
peer = record {
  answer = λ sent. elim [
    | Command.describe_product id ↦ answered (if id == "song-lyrics:g" then obj product else null)
    | Command.get_task id ↦ answered (
        obj (
          field "state" (str "completed")
            (field "result" (obj (field "manifest" manifest_json end)) end)))
    | _ ↦ answered (obj (field "task_id" (str "song-render:g") end))
  ];
  show = λ v. "";
}

abbrev pub env : Env
env = record {
  peer = peer;
  loads = loads;
  uuid5 = λ name. name;
  is_uuid = λ s. true;
  files = record { resolved = λ s. []; resolved_strictly = λ p. some p; is_dir = λ p. true };
  path_text = λ p. "/";
  workspace_roots = [] ∷ [];
  defer_workspace_validation = false;
  artifacts = none;
  allowed_workspaces = [];
}

abbrev start : World
start = record { sent = []; failures = [] }

render-submits_example : RenderOutcome env "me" "g" none [] (render env "me" "g" none start).1
render-submits_example = render-submits env "me" "g" none start

abbrev asked : World
asked = record { sent = Command.describe_product "song-lyrics:g" ∷ []; failures = [] }

product_described :
    describe_product env.peer (lyrics_task_id env "g") start ≡ (ok (obj product), asked)
unfolding describe_product call lyrics_task_id
product_described = refl

foreign_not_found_example :
    (get_song env "you" "g" start ≡ (raise not_found, asked))
    × (render env "you" "g" none start ≡ (raise not_found, asked))
    × (cancel env "you" "g" start ≡ (raise not_found, asked))
foreign_not_found_example =
    foreign_not_found env "you" "g" product
      (field "identity" (str "me") (
        field "generation_id" (str "g") (
          field "brief" (str "b") (
            field "workspace" (str "scratch")
              (field "style" (str "jazz") (field "duration_seconds" (int (pos 60)) end))))))
      start asked refl product_described refl refl none
