-- ===== src/Gateway/Views.antt =====
-- main.py: the owner-facing view of a task, without raw events. `json.dumps` of a response, `str` of a
-- value that is no text, and what Pi's responses are read with are parameters.
pub mod Public
use agent_workload_platform.Json.Loading.{Loads}
use agent_workload_platform.Prelude.{
  text_leb, ℕ, Char, code, String, Option, none, some, List, [], ◌∷◌, eqb, if◌then◌else◌, is_empty,
  take_text, strip, runtime_error, Result, ok, raise, map_result,
}
use agent_workload_platform.Json.{
  Value, null, str, arr, obj, Items, nil, cons, Fields, end, field, get_or, dict_get,
}
use agent_workload_platform.Json.{without_field}
use agent_workload_platform.Tasking.PiResponse.{
  PiResponse, with_field, response_from_text, parse_pi_event_stream,
}
use agent_workload_platform.Tasking.TaskView.{TaskView}

-- What the views take from the standard library
pub record Reader : Type 0 where
  pub loads : Loads
  pub dumps : Value → String
  pub dumps_length : Value → ℕ
  pub show : Value → String
  -- a moment in ISO form
  pub moment : ℕ → Value

-- The lines of a text, each with its end
lines_from : String → List String
lines_from String.[] = []
lines_from (String.◌∷◌ c s) =
    let rest = lines_from s in
    if eqb (code c) 10 then String.◌∷◌ c String.[] ∷ rest else before c rest
  where
    before : Char → List String → List String
    before c [] = String.◌∷◌ c String.[] ∷ []
    before c (l ∷ ls) = String.◌∷◌ c l ∷ ls

insert_name : String → List String → List String
insert_name s [] = s ∷ []
insert_name s (t ∷ ts) = if text_leb s t then s ∷ t ∷ ts else t ∷ insert_name s ts

sorted_names : Fields → List String
unfolding insert_name
sorted_names end = []
sorted_names (field k v d) = insert_name k (sorted_names d)

texts : List String → Items
texts [] = nil
texts (s ∷ rest) = cons (str s) (texts rest)

artifact_fields : Value → Fields
unfolding texts sorted_names
artifact_fields (obj artifacts) = field "artifacts" (arr (texts (sorted_names artifacts))) end
artifact_fields _ = end

-- str(value)[:2000] unless it is None
failure_fields : (Value → String) → Value → Fields
failure_fields show null = end
failure_fields show (str s) = field "failure" (str (take_text 2000 s)) end
failure_fields show v = field "failure" (str (take_text 2000 (show v))) end

joined : Fields → Fields → Fields
joined end d = d
joined (field k v r) d = field k v (joined r d)

module _ (reader : Reader) where
  read_text : String → Result PiResponse
  read_text = response_from_text reader.loads reader.dumps_length

  -- The text that a stored response shows
  stored_text : Value → PiResponse → String
  stored_text (str s) r = if is_empty (strip s) then r.spoken else take_text 12000 (strip s)
  stored_text _ r = r.spoken

  -- except RuntimeError: the response of a fixed text
  or_legacy : Result PiResponse → Result PiResponse
  unfolding read_text
  or_legacy (raise (runtime_error m)) =
      read_text "Legacy task completed; its final response is unavailable."
  or_legacy r = r

  with_own_text : Result PiResponse → Result (PiResponse × String)
  with_own_text = map_result (λ r. (r, r.text))

  of_stdout : Value → Result (PiResponse × String)
  unfolding with_own_text or_legacy read_text lines_from
  of_stdout (str stdout) =
      with_own_text
        (or_legacy (parse_pi_event_stream reader.loads reader.dumps_length (lines_from stdout)))
  of_stdout _ = with_own_text (read_text "Task completed.")

  -- The response of an execution, and the text that it shows
  response_of : Fields → Value → Result (PiResponse × String)
  unfolding read_text stored_text of_stdout
  response_of execution (obj response) =
      map_result (λ r. (r, stored_text (dict_get "text" response) r))
        (read_text (reader.dumps (obj response)))
  response_of execution _ = of_stdout (dict_get "stdout" execution)

  public_execution : Fields → PiResponse × String → Value
  unfolding joined artifact_fields
  public_execution execution (r, shown) = obj (
      field "exit_code" (dict_get "exit_code" execution) (
        field "response"
          (obj (
            field "text" (str shown) (
              field "spoken" (str r.spoken) (
                field "presentation" (obj r.presentation)
                  (field "resourceUri" (str r.resource_uri) end)))))
          (artifact_fields (dict_get "artifacts" execution))))

  result_fields : Value → Result Fields
  unfolding response_of public_execution
  result_fields (obj execution) =
      map_result (λ r. field "result" (public_execution execution r) end)
        (response_of execution (dict_get "response" execution))
  result_fields _ = ok end

  -- `_public_task_result`
  unfoldable pub public_task_result : Value → Result Value
  unfolding joined failure_fields result_fields
  public_task_result (obj task_result) =
      map_result
        (λ result. obj (
          field "state" (get_or "state" (str "pending") task_result)
            (joined (failure_fields reader.show (dict_get "failure" task_result)) result)))
        (result_fields (dict_get "result" task_result))
  public_task_result v = ok v

  unfoldable pub voice_view : Fields → Result Fields
  voice_view result =
      let view = without_field "approval_token" result in
      map_result (λ public. with_field "result" public view)
        (public_task_result (dict_get "result" view))

  reference : Option (String × String) → Value
  reference none = null
  reference (some (artist, spotify_url)) =
      obj (field "artist" (str artist) (field "spotify_url" (str spotify_url) end))

  -- The dict that TaskService returns for a view
  unfoldable pub task_dict : TaskView → Fields
  unfolding reference
  task_dict v = field "id" v.id (
      field "identity" v.identity (
        field "instruction" v.instruction (
          field "workspace" v.workspace (
            field "session_name" v.session_name (
              field "session_reference" (reference v.session_reference) (
                field "plan_hash" (str v.plan_hash) (
                  field "status" (str "submitted") (
                    field "task_id" v.task_id (
                      field "created_at" (reader.moment v.created_at)
                        (field "expires_at" null (field "result" v.result end)))))))))))
