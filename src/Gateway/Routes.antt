-- ===== src/Gateway/Routes.antt =====
-- main.py: the routes of tasks and songs, over the services. What `inject` adds is the trace context,
-- and the fresh ids of `uuid4` are arguments.
pub mod Owned
use agent_workload_platform.Prelude.{
  image_configuration_error, ℕ, String, Option, List, [], ◌∷◌, if◌then◌else◌, Exn, value_error,
  runtime_error, task_error, song_generation_error, is_value_error, Result, ok, raise, message,
}
use agent_workload_platform.Json.{ℤ, Value, Fields}
use agent_workload_platform.Prelude.{http_error}
use agent_workload_platform.Gateway.{Gateway, authenticate, normalized_identity}
use agent_workload_platform.Gateway.Views.{Reader, voice_view, task_dict}
use agent_workload_platform.Tasking.Exec.{Exec, pure, lift, ◌>>=◌, ◌>>◌}
use agent_workload_platform.Tasking.TaskView.{TaskView}
use agent_workload_platform.Tasking.TaskView as Tasks
use agent_workload_platform.Tasking.Service as Service
use agent_workload_platform.Tasking.Service.DigitalTwin.{
  enqueue_digital_twin, enqueue_daily_journal,
}
use agent_workload_platform.Tasking.Service.Listing as Listing
use agent_workload_platform.Song.Service as Songs

-- `except` clauses: the exception that is raised in the place of another
module _ {ℓ} {A : Type ℓ} where
  unfoldable pub replaced : (Exn → Exn) → Result A → Result A
  replaced f (raise e) = raise (f e)
  replaced f (ok a) = ok a

  unfoldable pub excepting : (Exn → Exn) → Exec A → Exec A
  unfolding replaced
  excepting f m w = let (r, after) = m w in (replaced f r, after)

-- except TaskError as exc: raise HTTPException(status, str(exc))
unfoldable pub task_status : ℕ → Exn → Exn
task_status status (task_error m) = http_error status m
task_status status e = e

unfoldable pub song_status : ℕ → Exn → Exn
song_status status (song_generation_error m) = http_error status m
song_status status e = e

-- except ValueError, of which TaskError and SongGenerationError are subclasses
bad_request : Exn → Exn
bad_request e = if is_value_error e then http_error 400 (message e) else e

no_owner : Exn → Exn
no_owner (runtime_error m) = http_error 503 "Pi Durable task owner is unavailable"
no_owner e = e

artifact_status : Exn → Exn
artifact_status (task_error m) = http_error 404 m
artifact_status (value_error m) = http_error 502 "task artifact is unavailable"
artifact_status (song_generation_error m) = http_error 502 "task artifact is unavailable"
artifact_status (image_configuration_error m) = http_error 502 "task artifact is unavailable"
artifact_status e = e

module _ (gateway : Gateway) (reader : Reader) (tasks : Tasks.Env) (songs : Songs.Env) where
  mine : String → Exec String
  mine identity = lift (normalized_identity gateway identity)

  shown : TaskView → Exec Fields
  shown v = lift (voice_view reader (task_dict reader v))

  let_in : Option String → Exec (Unit {0})
  let_in authorization = lift (authenticate gateway authorization)

  -- The route `enqueue_digital_twin`
  pub post_digital_twin :
      Option String
      → String
      → String
      → String
      → String
      → String
      → Exec ((String × String) × (String × String))
  unfolding mine let_in
  post_digital_twin authorization identity session_id message_id transcript captured_at = do
    let_in authorization
    excepting (task_status 400) (do
      owner ← mine identity
      enqueue_digital_twin tasks owner session_id message_id transcript captured_at)

  -- The route `enqueue_daily_journal`
  pub post_daily_journal :
      Option String → String → String → String → List Fields → Exec (String × String)
  unfolding mine let_in
  post_daily_journal authorization identity journal_date time_zone sources = do
    let_in authorization
    excepting (task_status 400)
        (do owner ← mine identity; enqueue_daily_journal tasks owner journal_date time_zone sources)

  pub submit_task : Option String → String → String → String → String → Option Fields → Exec Fields
  unfolding mine let_in shown bad_request no_owner
  submit_task authorization task_id identity instruction workspace trace_context = do
    let_in authorization
    excepting (λ e. no_owner (bad_request e))
        (do
          owner ← mine identity
          result ← Service.submit tasks task_id owner instruction workspace trace_context
          shown result)

  shown_all : List TaskView → Exec (List Fields)
  unfolding shown
  shown_all [] = pure []
  shown_all (v ∷ vs) = do view ← shown v; views ← shown_all vs; pure (view ∷ views)

  pub list_tasks : Option String → String → ℤ → Option String → Exec (List Fields)
  unfolding mine let_in no_owner shown_all
  list_tasks authorization identity limit session_name = do
    let_in authorization
    excepting no_owner (do
      owner ← mine identity
      results ← Listing.list tasks owner limit session_name
      shown_all results)

  unfoldable pub get_task : Option String → String → String → Exec Fields
  unfolding mine let_in shown
  get_task authorization task_id identity = do
    let_in authorization
    excepting (task_status 404)
        (do owner ← mine identity; result ← Service.get tasks owner task_id; shown result)

  unfoldable pub get_task_progress : Option String → String → String → ℕ → ℤ → Exec Value
  unfolding mine let_in
  get_task_progress authorization task_id identity after limit = do
    let_in authorization
    excepting (task_status 404)
        (do owner ← mine identity; Service.progress tasks owner task_id after limit)

  -- The route `get_task_artifact`, with the content, the file name and the content type
  unfoldable pub get_artifact :
      Option String → String → String → String → Exec (List ℕ × String × String)
  unfolding mine let_in artifact_status
  get_artifact authorization task_id name identity = do
    let_in authorization
    excepting artifact_status (do owner ← mine identity; Service.artifact tasks owner task_id name)

  unfoldable pub cancel : Option String → String → String → Exec Fields
  unfolding mine let_in shown
  cancel authorization task_id identity = do
    let_in authorization
    excepting (task_status 404)
        (do owner ← mine identity; result ← Service.cancel tasks owner task_id; shown result)

  pub create_song_generation :
      Option String
      → String
      → String
      → String
      → String
      → String
      → ℤ
      → Option Fields
      → Exec Songs.View
  unfolding mine let_in bad_request
  create_song_generation authorization generation_id identity brief workspace style duration
        trace_context =
      do
        let_in authorization
        excepting bad_request (do
          owner ← mine identity
          Songs.create songs generation_id owner brief workspace style duration trace_context)

  unfoldable pub get_song_generation : Option String → String → String → Exec Songs.View
  unfolding mine let_in
  get_song_generation authorization generation_id identity = do
    let_in authorization
    excepting (song_status 404) (do owner ← mine identity; Songs.get songs owner generation_id)

  unfoldable pub render_song_generation :
      Option String → String → String → Option Fields → Exec Songs.View
  unfolding mine let_in
  render_song_generation authorization generation_id identity trace_context = do
    let_in authorization
    excepting (song_status 409)
        (do owner ← mine identity; Songs.render songs owner generation_id trace_context)

  unfoldable pub cancel_song_generation : Option String → String → String → Exec Songs.View
  unfolding mine let_in
  cancel_song_generation authorization generation_id identity = do
    let_in authorization
    excepting (song_status 404) (do owner ← mine identity; Songs.cancel songs owner generation_id)

  -- The route `get_song_audio`, with the audio
  pub get_song_audio : Option String → String → String → Exec (List ℕ)
  unfolding mine let_in
  get_song_audio authorization generation_id identity = do
    let_in authorization
    excepting (song_status 404) (do owner ← mine identity; Songs.audio songs owner generation_id)
