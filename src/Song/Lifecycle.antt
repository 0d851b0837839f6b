-- ===== src/Song/Lifecycle.antt =====
-- tasking/domain/song_lifecycle.py: decisions and public views of a song, from task snapshots.
-- `loads` is `json.loads`, as in the manifest.
pub mod Laws
use agent_workload_platform.Prelude.{
  String, Bool, true, false, Option, none, some, ◌==◌, starts_with, if◌then◌else◌, Result, ok,
  raise, value_error,
}
use agent_workload_platform.Json.{Value, str, obj, Fields, get_or, dict_get}
use agent_workload_platform.Song.Manifest.{SongManifest, manifest_from_pi_result}

pub data TaskState : Type 0 where
  pending running sleeping completed failed cancelled : TaskState

pub data SongStatus : Type 0 where
  writing_lyrics lyrics_ready generating_music complete failed cancelled : SongStatus

pub data RenderReadiness : Type 0 where
  ready already_requested cancelled not_ready invalid_lyrics : RenderReadiness

abbrev pub SongTaskSnapshot : Type 0
SongTaskSnapshot = TaskState × Option Fields

abbrev pub RenderDecision : Type 0
RenderDecision = RenderReadiness × Option SongManifest

abbrev pub SongProjection : Type 0
SongProjection = SongStatus × Option SongManifest × Option String × Option String

-- state in ACTIVE_TASK_STATES
unfoldable pub is_active : TaskState → Bool
is_active TaskState.pending = true
is_active TaskState.running = true
is_active TaskState.sleeping = true
is_active _ = false

unfoldable pub pending_song_task : SongTaskSnapshot
pending_song_task = (TaskState.pending, none)

-- The member of TASK_STATES with that name.
unfoldable pub task_state : String → Option TaskState
task_state s =
    if s == "pending"
    then some TaskState.pending
    else if s == "running"
    then some TaskState.running
    else if s == "sleeping"
    then some TaskState.sleeping
    else if s == "completed"
    then some TaskState.completed
    else if s == "failed"
    then some TaskState.failed
    else if s == "cancelled"
    then some TaskState.cancelled
    else none

-- str(value), of which only a text can name a state
state_of : Value → Option TaskState
unfolding task_state
state_of (str s) = task_state s
state_of _ = none

mapping : Value → Option Fields
mapping (obj d) = some d
mapping _ = none

snapshot_with : Option TaskState → Option Fields → Result SongTaskSnapshot
snapshot_with (some t) result = ok (t, result)
snapshot_with none result = raise (value_error "song task snapshot has an invalid state")

unfoldable pub parse_song_task : Fields → Result SongTaskSnapshot
unfolding state_of mapping snapshot_with
parse_song_task d =
    snapshot_with (state_of (get_or "state" (str "pending") d)) (mapping (dict_get "result" d))

-- try: ... except (TypeError, ValueError): return None. The parser raises nothing else.
abbrev returned : Result SongManifest → Option SongManifest
returned (ok m) = some m
returned (raise e) = none

audio_uri : Value → Option String
audio_uri (str s) = if starts_with s "s3://" then some s else none
audio_uri _ = none

audio_in : Value → Option String
unfolding audio_uri
audio_in (obj artifacts) = audio_uri (dict_get "audio" artifacts)
audio_in _ = none

-- `_audio_artifact`
unfoldable pub audio_artifact : Option SongTaskSnapshot → Option String
unfolding audio_in
audio_artifact (some (TaskState.completed, some result)) = audio_in (dict_get "artifacts" result)
audio_artifact _ = none

unfoldable pub decide : Bool → Bool → TaskState → Option SongManifest → RenderDecision
decide true _ _ _ = (RenderReadiness.cancelled, none)
decide false true _ _ = (already_requested, none)
decide false false TaskState.completed (some m) = (ready, some m)
decide false false TaskState.completed none = (invalid_lyrics, none)
decide false false _ _ = (not_ready, none)

-- The `match` on cancelled, render_state, lyric_state, manifest, artifact.
unfoldable pub song_status :
    Bool → Option TaskState → TaskState → Option SongManifest → Option String → SongStatus
song_status true _ _ _ _ = SongStatus.cancelled
song_status false (some TaskState.pending) _ _ _ = generating_music
song_status false (some TaskState.running) _ _ _ = generating_music
song_status false (some TaskState.sleeping) _ _ _ = generating_music
song_status false (some TaskState.completed) _ (some _) (some _) = complete
song_status false (some TaskState.cancelled) _ _ _ = SongStatus.cancelled
song_status false (some _) _ _ _ = SongStatus.failed
song_status false none TaskState.pending _ _ = writing_lyrics
song_status false none TaskState.running _ _ = writing_lyrics
song_status false none TaskState.sleeping _ _ = writing_lyrics
song_status false none TaskState.completed (some _) _ = lyrics_ready
song_status false none TaskState.cancelled _ _ = SongStatus.cancelled
song_status false none _ _ _ = SongStatus.failed

abbrev render_state : Option SongTaskSnapshot → Option TaskState
render_state none = none
render_state (some (t, _)) = some t

-- The status with what is shown for it.
unfoldable pub projection :
    SongStatus → Option SongManifest → Option String → Option SongTaskSnapshot → SongProjection
projection SongStatus.failed manifest artifact (some _) =
    (SongStatus.failed, manifest, none, some "song rendering failed")
projection SongStatus.failed manifest artifact none =
    (SongStatus.failed, manifest, none, some "lyric generation failed")
projection complete manifest artifact render = (complete, manifest, artifact, none)
projection status manifest artifact render = (status, manifest, none, none)

module _ (loads : String → Option Value) where
  -- `_manifest`
  unfoldable pub snapshot_manifest : SongTaskSnapshot → Option SongManifest
  snapshot_manifest (TaskState.completed, result) = returned (manifest_from_pi_result loads result)
  snapshot_manifest _ = none

  unfoldable pub decide_render : Bool → Bool → SongTaskSnapshot → RenderDecision
  unfolding decide
  decide_render is_cancelled render_requested lyrics =
      decide is_cancelled render_requested lyrics.0 (snapshot_manifest lyrics)

  unfoldable pub project_song : Bool → SongTaskSnapshot → Option SongTaskSnapshot → SongProjection
  unfolding song_status projection
  project_song is_cancelled lyrics render =
      projection
        (song_status is_cancelled (render_state render) lyrics.0 (snapshot_manifest lyrics)
          (audio_artifact render))
        (snapshot_manifest lyrics) (audio_artifact render) render
