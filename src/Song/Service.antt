-- ===== src/Song/Service.antt =====
-- tasking/application/song_service.py: songs over the task owner. A generation is two tasks of the
-- owner, whose ids follow from the generation's id. `uuid4` and `uuid5`, and what `uuid.UUID`
-- accepts, are parameters; the fresh id of `create` is its argument.
pub mod Reads
pub mod Renders
pub mod Ownership
use agent_workload_platform.Prelude.{
  ℕ, String, Bool, true, false, not, ◌&&◌, Option, none, some, List, leb, if◌then◌else◌, between,
  is_some, or_else, len, is_empty, concat, strip, Exn, runtime_error, attribute_error,
  song_generation_error, is_value_error, Result, ok, raise, message, map_result,
}
use agent_workload_platform.Json.{
  ℤ, between_ℤ, Value, null, int, str, obj, Fields, end, field, get_or, dict_get, truthy, is_str,
}
use agent_workload_platform.Tasking.Exec.{Exec, pure, throw, lift, ◌>>=◌, ◌>>◌}
use agent_workload_platform.Tasking.Owner.{
  Peer, index, submit, get_task, describe_product, cancel_product, abort,
}
use agent_workload_platform.Tasking.Workspaces.{
  FilePath, FileSystem, validate_workspace_boundary, resolve_workspace,
}
use agent_workload_platform.Tasking.Artifacts
use agent_workload_platform.Tasking.Artifacts.{Store, get_song}
use agent_workload_platform.Tasking.Trace.{bounded_trace_context}
use agent_workload_platform.Song.Manifest.{SongManifest, to_dict}
use agent_workload_platform.Song.Lifecycle.{
  SongStatus, RenderReadiness, complete, ready, already_requested, not_ready, invalid_lyrics,
  SongTaskSnapshot, RenderDecision, SongProjection, parse_song_task, pending_song_task,
  decide_render, project_song,
}

-- The configuration and the functions from outside.
pub record Env : Type 0 where
  pub peer : Peer
  pub loads : String → Option Value
  pub uuid5 : String → String
  pub is_uuid : String → Bool
  pub files : FileSystem
  pub path_text : FilePath → String
  pub workspace_roots : List FilePath
  pub defer_workspace_validation : Bool
  pub artifacts : Option Store
  pub allowed_workspaces : List String

-- The dict that `_get_owned` returns.
pub record Row : Type 0 where
  pub id : String
  pub identity : String
  pub brief : Value
  pub workspace : Value
  pub style : Value
  pub duration_seconds : Value
  pub lyrics_task_id : String
  pub render_task_id : Option String
  pub created_at : Value
  pub render_requested_at : Value
  pub cancelled_at : Value

-- The dict that `_view` returns.
pub record View : Type 0 where
  pub id : String
  pub status : SongStatus
  pub brief : Value
  pub style : Value
  pub duration_seconds : Value
  pub lyrics_task_id : String
  pub render_task_id : Option String
  pub manifest : Option SongManifest
  pub audio_artifact : Option String
  pub audio_path : Option String
  pub failure : Option String
  pub created_at : Value
  pub render_requested_at : Value

abbrev pub not_found : Exn
not_found = song_generation_error "song generation not found"

-- value is not None
pub is_set : Value → Bool
is_set null = false
is_set _ = true

-- params.get("identity") == identity and params.get("generation_id") == generation_id
params_match : String → String → Value → Result Bool
params_match identity generation_id (obj p) =
    ok
      (is_str identity (dict_get "identity" p) && is_str generation_id (dict_get "generation_id" p))
params_match identity generation_id _ = raise (attribute_error "get")

-- Whether a described product has the kind, the identity and the generation.
pub product_matches : String → String → String → Value → Result Bool
unfolding params_match
product_matches kind identity generation_id (obj d) =
    if is_str kind (dict_get "kind" d)
    then params_match identity generation_id (get_or "params" (obj end) d)
    else ok false
product_matches kind identity generation_id null = ok false
product_matches kind identity generation_id _ = raise (attribute_error "get")

require : Bool → Exn → Exec (Unit {0})
require true e = pure tt
require false e = throw e

-- RENDER_REJECTIONS
pub rejection : RenderReadiness → Option String
rejection RenderReadiness.cancelled = some "song generation was cancelled"
rejection not_ready = some "lyrics are not ready for review"
rejection invalid_lyrics = some "lyrics did not contain a valid song manifest"
rejection _ = none

module _ (env : Env) where
  open env use {peer, loads, uuid5, is_uuid, files, path_text, workspace_roots}

  unfoldable pub lyrics_task_id : String → String
  lyrics_task_id generation_id = uuid5 (concat "song-lyrics:" generation_id)

  unfoldable pub render_task_id : String → String
  render_task_id generation_id = uuid5 (concat "song-render:" generation_id)

  -- `value[key]`, read from a described product
  entry : Value → String → Exec Value
  entry v k = lift (index v k)

  -- A render that is there must belong to the generation.
  render_belongs : String → String → Value → Exec (Unit {0})
  unfolding require
  render_belongs identity generation_id null = pure tt
  render_belongs identity generation_id render = do
    matches ← lift (product_matches "song-render" identity generation_id render)
    require matches not_found

  owned_row : String → String → Value → Value → Exec Row
  owned_row identity generation_id lyrics render = do
    params ← entry lyrics "params"
    brief ← entry params "brief"
    workspace ← entry params "workspace"
    style ← entry params "style"
    duration ← entry params "duration_seconds"
    created ← entry lyrics "created_at"
    requested ← if is_set render then entry render "created_at" else pure null
    stopped ← entry lyrics "cancelled_at"
    pure (record {
      id = generation_id;
      identity = identity;
      brief = brief;
      workspace = workspace;
      style = style;
      duration_seconds = duration;
      lyrics_task_id = lyrics_task_id generation_id;
      render_task_id = if is_set render then some (render_task_id generation_id) else none;
      created_at = created;
      render_requested_at = requested;
      cancelled_at = stopped;
    })

  -- `_get_owned`
  pub get_owned : String → String → Exec Row
  unfolding require
  get_owned identity generation_id = do
    require (is_uuid generation_id) not_found
    lyrics ← describe_product peer (lyrics_task_id generation_id)
    mine ← lift (product_matches "song-lyrics" identity generation_id lyrics)
    require mine not_found
    render ← describe_product peer (render_task_id generation_id)
    render_belongs identity generation_id render
    owned_row identity generation_id lyrics render

  snapshot_of : Value → Result SongTaskSnapshot
  snapshot_of (obj (field k v d)) = parse_song_task (field k v d)
  snapshot_of v = if truthy v then raise (attribute_error "get") else ok pending_song_task

  -- `_snapshot`
  pub snapshot : String → Exec SongTaskSnapshot
  snapshot task_id = do answer ← get_task peer task_id; lift (snapshot_of answer)

  render_snapshot : Option String → Exec (Option SongTaskSnapshot)
  render_snapshot none = pure none
  render_snapshot (some task_id) = do taken ← snapshot task_id; pure (some taken)

  audio_path : String → Option String → Option String
  audio_path id none = none
  audio_path id (some uri) = some (concat "/api/music/generations/" (concat id "/audio"))

  view_of : Row → SongProjection → View
  unfolding audio_path
  view_of row (status, manifest, artifact, failure) = record {
    id = row.id;
    status = status;
    brief = row.brief;
    style = row.style;
    duration_seconds = row.duration_seconds;
    lyrics_task_id = row.lyrics_task_id;
    render_task_id = row.render_task_id;
    manifest = manifest;
    audio_artifact = artifact;
    audio_path = audio_path row.id artifact;
    failure = failure;
    created_at = row.created_at;
    render_requested_at = row.render_requested_at;
  }

  -- `_view`
  pub view : Row → Exec View
  view row = do
    lyrics ← snapshot row.lyrics_task_id
    render ← render_snapshot row.render_task_id
    pure (view_of row (project_song loads (is_set row.cancelled_at) lyrics render))

  pub get : String → String → Exec View
  get identity generation_id = do row ← get_owned identity generation_id; view row

  pub render_params : String → String → SongManifest → Option Fields → Value
  render_params identity generation_id manifest trace_context = obj (
      field "generation_id" (str generation_id) (
        field "identity" (str identity) (
          field "manifest" (obj (to_dict manifest))
            (field "trace_context" (obj (bounded_trace_context trace_context)) end))))

  -- The branches of `render` after the decision.
  rendered : String → String → Option Fields → Row → RenderDecision → Exec View
  rendered identity generation_id trace_context row (already_requested, _) = view row
  rendered identity generation_id trace_context row (ready, some manifest) = do
    task_id ←
        submit peer "song-render" (render_params identity generation_id manifest trace_context)
          (render_task_id generation_id)
    again ← get_owned identity generation_id
    view again
  rendered identity generation_id trace_context row (ready, none) =
      throw (runtime_error "ready song render decision omitted its manifest")
  rendered identity generation_id trace_context row (readiness, _) =
      throw (song_generation_error (or_else (rejection readiness) ""))

  pub render : String → String → Option Fields → Exec View
  render identity generation_id trace_context = do
    row ← get_owned identity generation_id
    lyrics ← snapshot row.lyrics_task_id
    rendered identity generation_id trace_context row
        (decide_render loads (is_set row.cancelled_at) (is_some row.render_task_id) lyrics)

  stop : String → Row → Exec (Unit {0})
  stop identity row = if is_set row.cancelled_at then pure tt else (do
    cancel_product peer row.lyrics_task_id identity
    abort peer (or_else row.render_task_id row.lyrics_task_id)
    pure tt)

  pub cancel : String → String → Exec View
  cancel identity generation_id = do
    row ← get_owned identity generation_id
    stop identity row
    again ← get_owned identity generation_id
    view again

  -- The workspace of a new song: published, or a directory inside the configured roots.
  local_workspace : Bool → String → Result String
  local_workspace true workspace =
      map_result path_text (validate_workspace_boundary files workspace workspace_roots)
  local_workspace false workspace =
      map_result path_text (resolve_workspace files workspace workspace_roots)

  song_workspace : Option Store → String → Result String
  song_workspace (some store) workspace =
      Artifacts.resolve_workspace store workspace env.allowed_workspaces
  song_workspace none workspace = local_workspace env.defer_workspace_validation workspace

  pub create_params : String → String → String → String → String → ℤ → Option Fields → Value
  create_params generation_id identity brief workspace style duration trace_context = obj (
      field "generation_id" (str generation_id) (
        field "identity" (str identity) (
          field "brief" (str brief) (
            field "workspace" (str workspace) (
              field "style" (str style) (
                field "duration_seconds" (int duration)
                  (field "trace_context" (obj (bounded_trace_context trace_context)) end)))))))

  -- `create`, with the fresh id that `uuid4` gives
  pub create : String → String → String → String → String → ℤ → Option Fields → Exec View
  unfolding require
  create generation_id identity brief workspace style duration trace_context = do
    require (not (is_empty (strip brief)) && leb (len (strip brief)) 20000)
        (song_generation_error "song brief is outside its allowed size")
    require (not (is_empty (strip style)) && leb (len (strip style)) 1000)
        (song_generation_error "song style is outside its allowed size")
    require (between_ℤ 30 300 duration)
        (song_generation_error "song duration must be between 30 and 300 seconds")
    resolved ← lift (song_workspace env.artifacts workspace)
    task_id ←
        submit peer "song-lyrics"
          (create_params generation_id identity (strip brief) resolved (strip style) duration
            trace_context)
          (lyrics_task_id generation_id)
    row ← get_owned identity generation_id
    view row

  -- except ValueError as exc: raise SongGenerationError(str(exc))
  as_song_error : Result (List ℕ) → Result (List ℕ)
  as_song_error (ok audio) = ok audio
  as_song_error (raise e) =
      if is_value_error e then raise (song_generation_error (message e)) else raise e

  song_audio : Store → SongStatus → Option String → Exec (List ℕ)
  unfolding as_song_error
  song_audio store complete (some uri) = lift (as_song_error (get_song store uri 33554432))
  song_audio store _ _ = throw (song_generation_error "song audio is not ready")

  audio_from : String → String → Option Store → Exec (List ℕ)
  audio_from identity generation_id none =
      throw (song_generation_error "song artifact store is unavailable")
  audio_from identity generation_id (some store) = do
    row ← get_owned identity generation_id
    seen ← view row
    song_audio store seen.status seen.audio_artifact

  pub audio : String → String → Exec (List ℕ)
  unfolding audio_from
  audio identity generation_id = audio_from identity generation_id env.artifacts
