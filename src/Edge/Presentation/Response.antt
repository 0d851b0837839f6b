-- ===== src/Edge/Presentation/Response.antt =====
-- presentation_response.py: `_normalize_presentation` and `parse_presentation_response`.
pub mod Agrees
use agent_workload_platform.Json.Loading.{Loads}
use agent_workload_platform.Prelude.{
  ℕ, zero, suc, String, Bool, true, false, Option, none, some, List, [], if◌then◌else◌, is_empty,
  take_text, strip, Result, ok, map_result, ◌>>=◌,
}
use agent_workload_platform.Json.{Value, null, str, obj, Fields, dict_get, is_str}
use agent_workload_platform.Json.{is_one_of}
use agent_workload_platform.Edge.Presentation.{
  Presentation, to_dict, fallback_presentation, strip_code_fence, decode_json, max_spoken_length,
}
use agent_workload_platform.Edge.Presentation.Flow.{diagram_kinds, diagram_of}
use agent_workload_platform.Edge.Presentation.Traces.{grafana_of}
use agent_workload_platform.Edge.Presentation.Playwright.{Url, playwright_of}
use agent_workload_platform.Edge.Presentation.Drawing.{
  Arithmetic, normalize_excalidraw, normalize_slides,
}
use agent_workload_platform.Edge.Presentation.Review.{normalize_journal_review}

pub record PresentationResponse : Type 0 where
  pub spoken : String
  pub presentation : Presentation
  pub resource_uri : String

-- What the code takes from the standard library
pub record Host : Type 0 where
  pub loads : Loads
  pub dumps_length : Value → ℕ
  pub urlparse : String → Result Url
  pub traces : String → List String
  pub text_of : Value → String
  pub arithmetic : Arithmetic

diagram_if : Fields → String → Value → Bool → Result Presentation
diagram_if value spoken (str kind) true = diagram_of kind value spoken (dict_get "nodes" value)
diagram_if value spoken _ _ = ok (fallback_presentation spoken)

-- A JSON value that is a dict
unfoldable pub is_dict : Value → Bool
is_dict (obj d) = true
is_dict _ = false

unfoldable pub resource_uri_of : Presentation → String
resource_uri_of p =
    if is_str "excalidraw" (dict_get "kind" (to_dict p))
    then "ui://excalidraw/mcp-app.html"
    else if is_str "slides" (dict_get "kind" (to_dict p))
    then "ui://slides/marp.html"
    else if is_str "grafana-trace" (dict_get "kind" (to_dict p))
    then "ui://grafana/trace.html"
    else if is_str "playwright-trace-viewer" (dict_get "kind" (to_dict p))
    then "ui://playwright-trace-viewer/main.html"
    else if is_str "journal-review" (dict_get "kind" (to_dict p))
    then "ui://journal-review/main.html"
    else "ui://mermaid/main"

module _ (host : Host) where
  normalize_dict : Fields → String → Result Presentation
  unfolding diagram_if
  normalize_dict value spoken =
      let kind = dict_get "kind" value in
      if is_str "excalidraw" kind
      then normalize_excalidraw host.arithmetic host.dumps_length value spoken
          (dict_get "elements" value)
      else if is_str "slides" kind
      then ok (normalize_slides value spoken (dict_get "markdown" value))
      else if is_str "journal-review" kind
      then normalize_journal_review value spoken
      else if is_str "grafana-trace" kind
      then ok (grafana_of value spoken)
      else if is_str "playwright-trace-viewer" kind
      then playwright_of host.urlparse host.traces host.text_of value spoken
      else (is_one_of diagram_kinds kind >>= diagram_if value spoken kind)

  -- `_normalize_presentation`
  unfoldable pub normalize_presentation : Value → String → Result Presentation
  unfolding normalize_dict
  normalize_presentation (obj value) spoken = normalize_dict value spoken
  normalize_presentation _ spoken = ok (fallback_presentation spoken)

  -- A dict with a dict under "presentation", as another response has
  is_response : Value → Bool
  unfolding is_dict
  is_response (obj d) = is_dict (dict_get "presentation" d)
  is_response _ = false

  -- One pass of the loop: what to go on with, or none where it ends
  nested_response : Option Value → Option Value
  unfolding is_response
  nested_response none = none
  nested_response (some v) = if is_response v then some v else none

  inner : Value → Result (Option Value)
  unfolding nested_response
  inner (str nested) = map_result nested_response (decode_json host.loads nested)
  inner _ = ok none

  -- The loop, at most as often as given
  unfoldable pub unwrapped : ℕ → Value → Result Value
  unfolding inner
  unwrapped zero payload = ok payload
  unwrapped (suc n) (obj d) =
      inner (dict_get "spoken" d) >>= λ o. elim o [ none ↦ ok (obj d) | some v ↦ unwrapped n v ]
  unwrapped (suc n) (str s) =
      decode_json host.loads s >>= λ o. elim o [ none ↦ ok null | some v ↦ unwrapped n v ]
  unwrapped (suc n) other = ok other

  -- The spoken text of a payload, of the raw text where it is no dict
  spoken_in : String → Value → String
  spoken_in raw (obj d) = spoken_text (dict_get "spoken" d)
    where
      spoken_text : Value → String
      spoken_text (str s) = strip s
      spoken_text _ = String.[]
  spoken_in raw _ = strip raw

  -- (spoken or "Done.")[:2000]
  unfoldable pub bounded_spoken : String → String
  bounded_spoken s = take_text max_spoken_length (if is_empty s then "Done." else s)

  presentation_in : Value → Value
  presentation_in (obj d) = dict_get "presentation" d
  presentation_in _ = null

  response_of : String → Presentation → PresentationResponse
  unfolding resource_uri_of
  response_of spoken p = record {
    spoken = spoken;
    presentation = p;
    resource_uri = resource_uri_of p;
  }

  from_payload : String → Value → Result PresentationResponse
  unfolding spoken_in bounded_spoken normalize_presentation presentation_in response_of
  from_payload raw payload =
      let spoken = bounded_spoken (spoken_in raw payload) in
      map_result (response_of spoken) (normalize_presentation (presentation_in payload) spoken)

  unfoldable pub parse_presentation_response : String → Result PresentationResponse
  unfolding from_payload unwrapped
  parse_presentation_response raw = unwrapped 4 (str (strip_code_fence raw)) >>= from_payload raw
