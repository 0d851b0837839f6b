-- ===== src/Edge/Presentation/Playwright.antt =====
-- presentation_response.py, `_normalize_presentation`: a browser trace. `urlparse`, the values of
-- "trace" that `parse_qs` gives, and `str` of a value that is no text are parameters; `urlparse` raises
-- the ValueError of an address that is not valid.
pub mod Traced
use agent_workload_platform.Prelude.{
  drop_text, ℕ, String, Bool, true, false, not, ◌&&◌, ◌||◌, Option, none, some, List, [], ◌∷◌, ◌==◌,
  starts_with, if◌then◌else◌, length, take, is_empty, concat, take_text, strip, Result, ok,
  map_result, ◌>>=◌,
}
use agent_workload_platform.Json.{
  pos, Value, int, str, arr, obj, Items, nil, cons, Fields, end, field, items, get_or, dict_get,
}
use agent_workload_platform.Json.{int_of, clamp, is_number, is_one_of}
use agent_workload_platform.Edge.Presentation.{
  Presentation, playwright_trace, fallback_presentation, title_or, max_label_length,
}
use agent_workload_platform.Edge.Presentation.Traces.{is_trace_id}

pub record Url : Type 0 where
  pub scheme : String
  pub netloc : String
  pub path : String
  pub query : String

pub record Action : Type 0 where
  pub action_label : String
  pub duration_ms : ℕ
  pub status : String

-- max(0, min(int(value), hi))
bounded_int : ℕ → Value → Result ℕ
bounded_int hi v = map_result (clamp hi) (int_of v)

-- The same if isinstance(value, (int, float)) else default
number_or : ℕ → ℕ → Value → Result ℕ
unfolding bounded_int
number_or d hi v = elim (is_number v) [ true ↦ bounded_int hi v | false ↦ ok d ]

-- status if status in {"completed", "error"} else "completed"
status_of : Value → Result String
status_of v =
    map_result (λ b. if b then status_text v else "completed")
      (is_one_of ("completed" ∷ "error" ∷ []) v)
  where
    status_text : Value → String
    status_text (str s) = s
    status_text _ = "completed"

labelled : String → Fields → Result (Option Action)
unfolding number_or status_of
labelled label raw =
    if is_empty (strip label)
    then ok none
    else number_or 0 3600000 (dict_get "durationMs" raw) >>= λ duration_ms.
        map_result
          (λ status. some record {
            action_label = take_text 240 (strip label);
            duration_ms = duration_ms;
            status = status;
          })
          (status_of (dict_get "status" raw))

action_of : Value → Fields → Result (Option Action)
unfolding labelled
action_of (str label) raw = labelled label raw
action_of _ raw = ok none

action_in : Value → Result (Option Action)
unfolding action_of
action_in (obj raw) = action_of (dict_get "label" raw) raw
action_in _ = ok none

with_action : Option Action → List Action → List Action
with_action none actions = actions
with_action (some a) actions = a ∷ actions

actions_from : List Value → Result (List Action)
unfolding action_in with_action
actions_from [] = ok []
actions_from (raw ∷ rest) = action_in raw >>= λ a. map_result (with_action a) (actions_from rest)

-- value.get("actions", [])[:12] if isinstance(value.get("actions"), list) else []
actions_of : Value → Result (List Action)
unfolding actions_from
actions_of (arr raw) = actions_from (take 12 (items raw))
actions_of _ = ok []

action_values : List Action → Items
action_values [] = nil
action_values (a ∷ rest) =
    cons
      (obj (
        field "label" (str a.action_label)
          (field "durationMs" (int (pos a.duration_ms)) (field "status" (str a.status) end))))
      (action_values rest)

-- (url.scheme, url.netloc) == (other.scheme, other.netloc)
same_origin : Url → Url → Bool
same_origin u v = (u.scheme == v.scheme) && (u.netloc == v.netloc)

-- re.fullmatch(r"/api/trace-explainers/[0-9a-f]{32}/video", path)
is_video_path : String → Bool
is_video_path p =
    starts_with p "/api/trace-explainers/"
    && (let digits = take_text 32 (drop_text 22 p) in
        is_trace_id digits && (drop_text 54 p == "/video"))

module _ (urlparse : String → Result Url) (traces : String → List String)
    (text_of : Value → String) where
  -- str(value)
  text : Value → String
  text (str s) = s
  text other = text_of other

  -- urlparse(value) if isinstance(value, str) else None
  optional_url : Value → Result (Option (String × Url))
  optional_url (str s) = map_result (λ url. some (s, url)) (urlparse s)
  optional_url _ = ok none

  is_preview : String → Url → Option (String × Url) → Bool
  unfolding same_origin
  is_preview trace_id viewer none = true
  is_preview trace_id viewer (some (s, url)) =
      same_origin url viewer
      && (url.path == concat "/api/playwright-traces/" (concat trace_id "/preview"))
      && is_empty url.query

  is_video : Url → Option (String × Url) → Bool
  unfolding same_origin is_video_path
  is_video viewer none = true
  is_video viewer (some (s, url)) =
      same_origin url viewer && is_video_path url.path && is_empty url.query

  count_of : ℕ → Fields → String → Result ℕ
  unfolding number_or
  count_of hi value name = number_or 0 hi (dict_get name value)

  preview_fields : Option (String × Url) → Fields → Fields
  preview_fields none rest = rest
  preview_fields (some (s, url)) rest = field "previewUrl" (str (take_text 2000 s)) rest

  video_fields : Fields → Option (String × Url) → Result Fields
  unfolding count_of
  video_fields value none = ok end
  video_fields value (some (s, url)) = count_of 3600 value "narratedDurationSeconds" >>= λ seconds.
      count_of 50 value "narratedSceneCount" >>= λ scenes. ok (
        field "narratedVideoUrl" (str (take_text 2000 s)) (
          field "narratedDurationSeconds" (int (pos seconds))
            (field "narratedSceneCount" (int (pos scenes)) end)))

  -- The dict after its kind
  shown :
      Fields
      → String
      → String
      → List Action
      → Option (String × Url)
      → Option (String × Url)
      → Result Presentation
  unfolding count_of number_or preview_fields video_fields action_values text
  shown value trace_id viewer_url actions preview video =
      count_of 3600000 value "durationMs" >>= λ duration_ms.
      number_or (length actions) 100000 (dict_get "actionCount" value) >>= λ action_count.
      count_of 1000000 value "requestCount" >>= λ request_count.
      count_of 100000 value "errorCount" >>= λ error_count.
      map_result
        (λ video_part. playwright_trace (
          field "title" (str (title_or "Playwright trace" (dict_get "title" value))) (
            field "summary"
              (str (take_text max_label_length (text (get_or "summary" (str "") value))))
              (field "traceId" (str trace_id) (
                field "project" (str (take_text 80 (text (get_or "project" (str "unknown") value))))
                  (field "run" (str (take_text 120 (text (get_or "run" (str "unknown") value)))) (
                    field "modifiedAt"
                      (str (take_text 80 (text (get_or "modifiedAt" (str "") value))))
                      (field "viewerUrl" (str (take_text 2000 viewer_url)) (
                        field "durationMs" (int (pos duration_ms)) (
                          field "actionCount" (int (pos action_count)) (
                            field "requestCount" (int (pos request_count)) (
                              field "errorCount" (int (pos error_count)) (
                                field "actions" (arr (action_values actions))
                                  (preview_fields preview video_part))))))))))))))
        (video_fields value video)

  -- What follows once the viewer and its trace are accepted
  accepted : Fields → String → String → String → Url → Result Presentation
  unfolding optional_url is_preview is_video actions_of shown
  accepted value spoken trace_id viewer_url viewer =
      optional_url (dict_get "previewUrl" value) >>= λ preview.
      if not (is_preview trace_id viewer preview)
      then ok (fallback_presentation spoken)
      else optional_url (dict_get "narratedVideoUrl" value) >>= λ video.
          if not (is_video viewer video)
          then ok (fallback_presentation spoken)
          else actions_of (dict_get "actions" value) >>= λ actions.
              shown value trace_id viewer_url actions preview video

  is_viewer : Url → Bool
  is_viewer viewer =
      ((viewer.scheme == "http") || (viewer.scheme == "https"))
      && not (is_empty viewer.netloc)
      && (viewer.path == "/trace-viewer/index.html")

  -- The one trace of a viewer
  trace_of : Url → List String → Option String
  unfolding is_viewer
  trace_of viewer (t ∷ []) = if is_viewer viewer then some t else none
  trace_of viewer _ = none

  is_trace : String → Url → Url → Bool
  unfolding same_origin
  is_trace trace_id viewer trace =
      same_origin trace viewer
      && (trace.path == concat "/api/playwright-traces/" (concat trace_id "/trace.zip"))

  traced : Fields → String → String → String → Url → Option String → Result Presentation
  unfolding is_trace accepted
  traced value spoken trace_id viewer_url viewer none = ok (fallback_presentation spoken)
  traced value spoken trace_id viewer_url viewer (some t) = urlparse t >>= λ trace.
      if is_trace trace_id viewer trace
      then accepted value spoken trace_id viewer_url viewer
      else ok (fallback_presentation spoken)

  viewed : Fields → String → Value → Value → Result Presentation
  unfolding trace_of traced
  viewed value spoken (str trace_id) (str viewer_url) =
      if is_trace_id trace_id
      then (urlparse viewer_url >>= λ viewer.
          traced value spoken trace_id viewer_url viewer (trace_of viewer (traces viewer.query)))
      else ok (fallback_presentation spoken)
  viewed value spoken _ _ = ok (fallback_presentation spoken)

  -- A presentation of the kind "playwright-trace-viewer"
  unfoldable pub playwright_of : Fields → String → Result Presentation
  unfolding viewed
  playwright_of value spoken =
      viewed value spoken (dict_get "traceId" value) (dict_get "viewerUrl" value)
