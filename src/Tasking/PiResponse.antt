-- ===== src/Tasking/PiResponse.antt =====
-- tasking/application/pi_response.py: the response of a task, from Pi's event stream. `json.loads`
-- of a text, with what it may raise, and the length of `json.dumps` are parameters.
pub mod Shapes
pub mod Bounds
pub mod Stream
use agent_workload_platform.Json.Loading.{Loads}
use agent_workload_platform.Prelude.{
  ◌>>=◌, ℕ, zero, suc, String, Bool, true, false, not, ◌&&◌, ◌||◌, Option, none, some, List, [],
  ◌∷◌, ◌==◌, ltb, leb, if◌then◌else◌, between, length, is_empty, concat, take_text, split,
  utf8_length, strip, join, runtime_error, Result, ok, raise, message, map_result,
}
use agent_workload_platform.Json.{
  is_one_of, Value, null, str, arr, obj, Items, nil, cons, Fields, end, field, items, dict_get,
  is_str,
}

abbrev pub max_response_length : ℕ
max_response_length = 70000

abbrev pub max_spoken_length : ℕ
max_spoken_length = 2000

pub record PiResponse : Type 0 where
  pub text : String
  pub spoken : String
  pub presentation : Fields
  pub resource_uri : String

-- {**d, key: value}
unfoldable pub with_field : String → Value → Fields → Fields
with_field k v end = field k v end
with_field k v (field j u r) = if j == k then field j v r else field j u (with_field k v r)

-- The text of the parts of a message's content that are texts
part_text : Value → String
part_text (obj part) = text_of (is_str "text" (dict_get "type" part)) (dict_get "text" part)
  where
    text_of : Bool → Value → String
    text_of true (str s) = s
    text_of _ _ = ""
part_text _ = ""

part_texts : Items → String
unfolding part_text
part_texts nil = String.[]
part_texts (cons v r) = concat (part_text v) (part_texts r)

content_text : Value → String
unfolding part_texts
content_text (str s) = strip s
content_text (arr parts) = strip (part_texts parts)
content_text _ = String.[]

-- `_message_text`
unfoldable pub message_text : Value → String
unfolding content_text
message_text (obj message) =
    if is_str "assistant" (dict_get "role" message)
    then content_text (dict_get "content" message)
    else String.[]
message_text _ = String.[]

-- value or default, of a text
unfoldable pub text_or : String → String → String
text_or s d = if is_empty s then d else s

unfoldable pub fallback_presentation : String → Fields
unfolding text_or
fallback_presentation spoken = field "kind" (str "status") (
    field "title" (str "Task result") (
      field "nodes"
        (arr (
          cons
            (obj (
              field "id" (str "result") (
                field "label"
                  (str (take_text 240 (text_or (join " " (split spoken)) "Task completed"))) end)))
            nil))
        (field "edges" (arr nil) end)))

-- Whether a value is a dict with a dict under "presentation"
is_response : Value → Bool
is_response (obj d) = is_obj (dict_get "presentation" d)
  where
    is_obj : Value → Bool
    is_obj (obj _) = true
    is_obj _ = false
is_response _ = false

-- What json.loads gives for the "spoken" of a dict, where that is another response
nested : Option Value → Option Value
unfolding is_response
nested none = none
nested (some v) = if is_response v then some v else none

spoken_of : Fields → String
spoken_of d = stripped (dict_get "spoken" d)
  where
    stripped : Value → String
    stripped (str s) = strip s
    stripped _ = String.[]

presentation_of : Fields → Fields
presentation_of d = dict_of (dict_get "presentation" d)
  where
    dict_of : Value → Fields
    dict_of (obj p) = p
    dict_of _ = end

abbrev pub excalidraw_types : List String
excalidraw_types =
    "cameraUpdate" ∷ "rectangle" ∷ "ellipse" ∷ "diamond" ∷ "text" ∷ "arrow" ∷ "line" ∷ []

abbrev pub kinds : List String
kinds = "flow" ∷ "status" ∷ "excalidraw" ∷ "slides" ∷ []

valid_element : Value → Result Bool
unfolding is_one_of
valid_element (obj element) = is_one_of excalidraw_types (dict_get "type" element)
valid_element _ = ok false

also : Result Bool → Result Bool → Result Bool
also (ok true) rest = rest
also (ok false) rest = ok false
also (raise e) rest = raise e

-- all(valid_element(e) for e in elements), which stops at the first that is not valid
valid_elements : List Value → Result Bool
unfolding valid_element also
valid_elements [] = ok true
valid_elements (v ∷ vs) = also (valid_element v) (valid_elements vs)

module _ (loads : Loads) (dumps_length : Value → ℕ) where
  -- A pass over a dict, with its "spoken"
  unwrap_spoken : (Value → Result Value) → Fields → Value → Result Value
  unfolding nested
  unwrap_spoken again d (str s) =
      loads s >>= λ o. elim (nested o) [ none ↦ ok (obj d) | some v ↦ again v ]
  unwrap_spoken again d _ = ok (obj d)

  unwrap_step : (Value → Result Value) → Value → Result Value
  unfolding unwrap_spoken
  unwrap_step again (obj d) = unwrap_spoken again d (dict_get "spoken" d)
  unwrap_step again (str s) = loads s >>= λ o. elim o [ none ↦ ok null | some v ↦ again v ]
  unwrap_step again other = ok other

  -- The loop that reads JSON in JSON, at most as often as given
  unwrap : ℕ → Value → Result Value
  unfolding unwrap_step
  unwrap zero payload = ok payload
  unwrap (suc n) payload = unwrap_step (unwrap n) payload

  sized : Fields → Result Bool → Result Fields
  sized p (raise e) = raise e
  sized p (ok valid) = ok (if valid && leb (dumps_length (obj p)) 65536 then p else end)

  drawing_of : Fields → Value → Result Fields
  unfolding valid_elements sized
  drawing_of p (arr elements) =
      if between 1 80 (length (items elements))
      then sized p (valid_elements (items elements))
      else ok end
  drawing_of p _ = ok end

  -- An excalidraw presentation is kept if its elements are valid and it is not too large. An empty
  -- dict stands for None, which the code treats alike.
  drawing : Fields → Result Fields
  unfolding drawing_of
  drawing p = drawing_of p (dict_get "elements" p)

  deck_of : Fields → Value → Fields
  deck_of p (str s) =
      if is_empty (strip s) || ltb 65536 (utf8_length s)
      then end
      else with_field "markdown" (str (strip s)) p
  deck_of p _ = end

  -- A slide deck is kept, stripped, if it is not empty and not too large.
  deck : Fields → Fields
  unfolding deck_of
  deck p = deck_of p (dict_get "markdown" p)

  pub checked : Fields → Result Fields
  unfolding drawing deck
  checked p =
      if is_str "excalidraw" (dict_get "kind" p)
      then drawing p
      else ok (if is_str "slides" (dict_get "kind" p) then deck p else p)

  -- The fallback stands for no presentation and for one of an unknown kind.
  pub known : String → Fields → Result Fields
  unfolding is_one_of
  known spoken end = ok (fallback_presentation spoken)
  known spoken (field k v r) =
      map_result (λ b. if b then field k v r else fallback_presentation spoken)
        (is_one_of kinds (dict_get "kind" (field k v r)))

  unfoldable pub resource_uri : Fields → String
  resource_uri p =
      if is_str "excalidraw" (dict_get "kind" p)
      then "ui://excalidraw/mcp-app.html"
      else if is_str "slides" (dict_get "kind" p)
      then "ui://slides/marp.html"
      else "ui://mermaid/main"

  response : String → String → Fields → PiResponse
  unfolding text_or
  response text spoken p = record {
    text = text_or text spoken;
    spoken = spoken;
    presentation = p;
    resource_uri = resource_uri p;
  }

  -- What follows once the spoken text and the presentation are read
  finished : String → String → Result Fields → Result PiResponse
  unfolding known response
  finished text spoken (raise e) = raise e
  finished text spoken (ok p) = map_result (response text spoken) (known spoken p)

  bounded_spoken : String → String
  unfolding text_or
  bounded_spoken s = take_text max_spoken_length (text_or s "Task completed.")

  from_payload : String → Value → Result PiResponse
  unfolding finished checked bounded_spoken spoken_of presentation_of
  from_payload text (obj d) =
      finished text (bounded_spoken (spoken_of d)) (checked (presentation_of d))
  from_payload text _ = finished text (bounded_spoken text) (ok end)

  unfoldable pub response_from_text : String → Result PiResponse
  unfolding from_payload unwrap
  response_from_text text =
      let cut = take_text max_response_length (strip text) in
      unwrap 4 (str cut) >>= from_payload cut

  -- One event of the stream: the last text of an assistant so far, and whether the agent settled
  read_event : Option Value → String × Bool → String × Bool
  read_event (some (obj event)) state =
      if is_str "message_end" (dict_get "type" event)
      then (text_or (message_text (dict_get "message" event)) state.0, state.1)
      else if is_str "agent_settled" (dict_get "type" event)
      then (state.0, true)
      else state
  read_event _ state = state

  read_events : List String → String × Bool → Result (String × Bool)
  unfolding read_event
  read_events [] state = ok state
  read_events (line ∷ lines) state =
      loads line >>= λ event. read_events lines (read_event event state)

  settled_response : String × Bool → Result PiResponse
  settled_response state =
      if not state.1
      then raise (runtime_error "Pi event stream ended before agent_settled")
      else if is_empty state.0
      then raise (runtime_error "Pi event stream contained no final assistant message")
      else response_from_text state.0

  unfoldable pub parse_pi_event_stream : List String → Result PiResponse
  unfolding read_events settled_response
  parse_pi_event_stream lines = read_events lines ("", false) >>= settled_response
