-- ===== src/Edge/Presentation/Response/Agrees.antt =====
-- presentation_response.py: what `parse_presentation_response` returns, whatever the model wrote.
use agent_workload_platform.Json.Loading.{IsRaised}
use agent_workload_platform.Edge.Presentation.Decoding.{decode_json-Ends}
use agent_workload_platform.Prelude.{
  Result, ℕ, zero, suc, Option, none, some, ◌⊎◌, Exn, ok, bind-Ends, ◌≤◌, String, ◌≡◌, refl, inl,
  inr, Bool, true, false, List, arith, ◌==◌, eq_iff, Bool-cases, len, ◌>>=◌,
}
use agent_workload_platform.Json.{
  Value, null, bool, int, float, str, arr, obj, Fields, dict_get, is_str,
}
use agent_workload_platform.Prelude.{IsText, Ends, map_result-Ends, weaken-Ends, len-take_text-le}
use agent_workload_platform.Json.{is_one_of}
use agent_workload_platform.Json.Unhashable.{IsUnhashable}
use agent_workload_platform.Edge.Presentation.{
  Node, Edge, Presentation, diagram, grafana_trace, playwright_trace, drawing, slides, review,
  to_dict, strip_code_fence, decode_json, max_spoken_length,
}
use agent_workload_platform.Edge.Presentation.Flow.{diagram_of, diagram_kinds, among}
use agent_workload_platform.Edge.Presentation.Flow.Joined.{IsDiagram, diagram_of-IsDiagram}
use agent_workload_platform.Edge.Presentation.Traces.Grafana.{grafana_of-IsShown}
use agent_workload_platform.Edge.Presentation.Playwright.Traced.{
  IsPresented, IsShown-IsPresented, playwright_of-Presents,
}
use agent_workload_platform.Edge.Presentation.Drawing.Cameras.{
  normalize_excalidraw-Shows, normalize_slides-IsShown,
}
use agent_workload_platform.Edge.Presentation.Review.Reviewed.{normalize_journal_review-Shows}
use agent_workload_platform.Edge.Presentation.{fallback_presentation}
use agent_workload_platform.Edge.Presentation.Drawing.{normalize_excalidraw, normalize_slides}
use agent_workload_platform.Edge.Presentation.Review.{normalize_journal_review}
use agent_workload_platform.Edge.Presentation.Traces.{grafana_of}
use agent_workload_platform.Edge.Presentation.Shown.{
  IsShown, IsInputError, Reads, Shows, fallback-IsShown, IsUnhashable-IsInputError,
}
use agent_workload_platform.Edge.Presentation.Response.{
  PresentationResponse, Host, diagram_if, resource_uri_of, normalize_dict, normalize_presentation,
  unwrapped, inner, nested_response, spoken_in, bounded_spoken, presentation_in, response_of,
  from_payload, parse_presentation_response,
}

-- The viewer of each kind of presentation
abbrev pub viewer : Presentation → String
viewer (diagram kind title nodes edges) = "ui://mermaid/main"
viewer (grafana_trace title trace_id datasource_uid focus) = "ui://grafana/trace.html"
viewer (playwright_trace d) = "ui://playwright-trace-viewer/main.html"
viewer (drawing title elements) = "ui://excalidraw/mcp-app.html"
viewer (slides title markdown) = "ui://slides/marp.html"
viewer (review d) = "ui://journal-review/main.html"

-- A response that can be spoken and shown, by the viewer of its kind
pub record IsResponse (host : Host) (r : PresentationResponse) : Type 0 where
  pub spoken_text : IsText r.spoken
  pub spoken_le : len r.spoken ≤ max_spoken_length
  pub is_shown : IsPresented host.urlparse host.traces r.presentation
  pub agrees : r.resource_uri ≡ viewer r.presentation

resource_uri_of-diagram :
    (kind title : String) (nodes : List Node) (edges : List Edge)
    → among diagram_kinds kind ≡ true
    → resource_uri_of (diagram kind title nodes edges) ≡ "ui://mermaid/main"
unfolding among resource_uri_of to_dict
resource_uri_of-diagram kind title nodes edges h = elim (Bool-cases (kind == "flow")) [
  | inl e ↦ let p : kind ≡ "flow" = (eq_iff kind "flow").0 e in rw p refl
  | inr e ↦ let p : kind ≡ "status" = (eq_iff kind "status").0 (ground (arith, h, e)) in rw p refl
]

resource_uri_of-viewer :
    (host : Host) (p : Presentation)
    → IsPresented host.urlparse host.traces p
    → resource_uri_of p ≡ viewer p
unfolding resource_uri_of to_dict
resource_uri_of-viewer host (diagram kind title nodes edges) h =
    resource_uri_of-diagram kind title nodes edges h.0
resource_uri_of-viewer host (grafana_trace title trace_id datasource_uid focus) h = refl
resource_uri_of-viewer host (playwright_trace d) h = refl
resource_uri_of-viewer host (drawing title elements) h = refl
resource_uri_of-viewer host (slides title markdown) h = refl
resource_uri_of-viewer host (review d) h = refl

IsDiagram-IsShown : (p : Presentation) → IsDiagram p → IsShown p
IsDiagram-IsShown (diagram kind title nodes edges) h = h
IsDiagram-IsShown (grafana_trace title trace_id datasource_uid focus) h = elim h [ ]
IsDiagram-IsShown (playwright_trace d) h = elim h [ ]
IsDiagram-IsShown (drawing title elements) h = elim h [ ]
IsDiagram-IsShown (slides title markdown) h = elim h [ ]
IsDiagram-IsShown (review d) h = elim h [ ]

diagram_if-Shows :
    (value : Fields) (spoken : String) (kind : Value)
    → Shows (is_one_of diagram_kinds kind >>= diagram_if value spoken kind)
unfolding is_one_of diagram_if among
diagram_if-Shows value spoken (str kind) = known _ refl
  where
    known : (b : Bool) → among diagram_kinds kind ≡ b → Shows (diagram_if value spoken (str kind) b)
    known true e =
        weaken-Ends IsUnhashable IsInputError IsDiagram IsShown
          (diagram_of kind value spoken (dict_get "nodes" value)) IsUnhashable-IsInputError
          IsDiagram-IsShown (diagram_of-IsDiagram kind value spoken (dict_get "nodes" value) e)
    known false e = fallback-IsShown spoken
diagram_if-Shows value spoken null = fallback-IsShown spoken
diagram_if-Shows value spoken (bool b) = fallback-IsShown spoken
diagram_if-Shows value spoken (int n) = fallback-IsShown spoken
diagram_if-Shows value spoken (float b) = fallback-IsShown spoken
diagram_if-Shows value spoken (arr vs) = refl
diagram_if-Shows value spoken (obj d) = refl

module _ (host : Host) (parses : (s : String) → Reads (host.urlparse s)) where
  -- A presentation is returned as `IsPresented` has it, or an exception of bad input is raised.
  abbrev Presented : Result Presentation → Type 0
  Presented r = Ends IsInputError (IsPresented host.urlparse host.traces) r

  fallback-Presented : (spoken : String) → Presented (ok (fallback_presentation spoken))
  fallback-Presented spoken =
      IsShown-IsPresented host.urlparse host.traces (fallback_presentation spoken)
        (fallback-IsShown spoken)

  -- The kinds that need no address
  lifted : (r : Result Presentation) → Shows r → Presented r
  lifted r h =
      weaken-Ends IsInputError IsInputError IsShown (IsPresented host.urlparse host.traces) r
        (λ e g. g) (IsShown-IsPresented host.urlparse host.traces) h

  normalize_dict-Presented :
      (value : Fields) (spoken : String) → Presented (normalize_dict host value spoken)
  unfolding normalize_dict
  normalize_dict-Presented value spoken =
      let kind = dict_get "kind" value in
      elim (Bool-cases (is_str "excalidraw" kind)) [
        | inl e ↦ rw e (
            lifted
              (normalize_excalidraw host.arithmetic host.dumps_length value spoken
                (dict_get "elements" value))
              (normalize_excalidraw-Shows host.arithmetic host.dumps_length value spoken _))
        | inr e ↦ rw e (elim (Bool-cases (is_str "slides" kind)) [
          | inl e ↦ rw e (
              lifted (ok (normalize_slides value spoken (dict_get "markdown" value)))
                (normalize_slides-IsShown value spoken _))
          | inr e ↦ rw e (elim (Bool-cases (is_str "journal-review" kind)) [
            | inl e ↦ rw e (
                lifted (normalize_journal_review value spoken)
                  (normalize_journal_review-Shows value spoken))
            | inr e ↦ rw e (elim (Bool-cases (is_str "grafana-trace" kind)) [
              | inl e ↦
                  rw e (lifted (ok (grafana_of value spoken)) (grafana_of-IsShown value spoken))
              | inr e ↦ rw e (elim (Bool-cases (is_str "playwright-trace-viewer" kind)) [
                | inl e ↦ rw e (
                    playwright_of-Presents host.urlparse host.traces host.text_of parses value
                      spoken)
                | inr e ↦ rw e (
                    lifted (is_one_of diagram_kinds kind >>= diagram_if value spoken kind)
                      (diagram_if-Shows value spoken kind))
              ])
            ])
          ])
        ])
      ]

  normalize_presentation-Presented :
      (v : Value) (spoken : String) → Presented (normalize_presentation host v spoken)
  unfolding normalize_presentation
  normalize_presentation-Presented (obj value) spoken = normalize_dict-Presented value spoken
  normalize_presentation-Presented null spoken = fallback-Presented spoken
  normalize_presentation-Presented (bool b) spoken = fallback-Presented spoken
  normalize_presentation-Presented (int n) spoken = fallback-Presented spoken
  normalize_presentation-Presented (float b) spoken = fallback-Presented spoken
  normalize_presentation-Presented (str s) spoken = fallback-Presented spoken
  normalize_presentation-Presented (arr vs) spoken = fallback-Presented spoken

  bounded_spoken-IsText : (s : String) → IsText (bounded_spoken host s)
  unfolding bounded_spoken
  bounded_spoken-IsText String.[] = refl
  bounded_spoken-IsText (String.◌∷◌ c s) = refl

  -- What may be raised: one of those, or what json.loads raises
  abbrev pub IsResponseError : Exn → Type 0
  IsResponseError e = IsInputError e ⊎ IsRaised host.loads e

  going_on-Ends :
      (n : ℕ)
      → ((v : Value) → Ends (IsRaised host.loads) (λ w. Unit {0}) (unwrapped host n v))
      → (d : Value) → (o : Option Value)
      → Ends
          (IsRaised host.loads)
          (λ w. Unit {0})
          (elim o [ none ↦ ok d | some v ↦ unwrapped host n v ])
  going_on-Ends n h d none = tt
  going_on-Ends n h d (some v) = h v

  inner-Ends : (v : Value) → Ends (IsRaised host.loads) (λ o. Unit {0}) (inner host v)
  unfolding inner
  inner-Ends (str s) =
      map_result-Ends (IsRaised host.loads) (λ o. Unit {0}) (λ o. Unit {0}) (nested_response host)
        (decode_json host.loads s) (λ o u. tt) (decode_json-Ends host.loads s)
  inner-Ends null = tt
  inner-Ends (bool b) = tt
  inner-Ends (int z) = tt
  inner-Ends (float b) = tt
  inner-Ends (arr vs) = tt
  inner-Ends (obj d) = tt

  unwrapped-Ends :
      (n : ℕ) (v : Value) → Ends (IsRaised host.loads) (λ w. Unit {0}) (unwrapped host n v)
  unfolding unwrapped
  unwrapped-Ends zero v = tt
  unwrapped-Ends (suc n) (obj d) =
      bind-Ends (IsRaised host.loads) (λ o. Unit {0}) (λ w. Unit {0})
        (inner host (dict_get "spoken" d)) _ (λ o u. going_on-Ends n (unwrapped-Ends n) (obj d) o)
        (inner-Ends (dict_get "spoken" d))
  unwrapped-Ends (suc n) (str s) =
      bind-Ends (IsRaised host.loads) (λ o. Unit {0}) (λ w. Unit {0}) (decode_json host.loads s) _
        (λ o u. going_on-Ends n (unwrapped-Ends n) null o) (decode_json-Ends host.loads s)
  unwrapped-Ends (suc n) null = tt
  unwrapped-Ends (suc n) (bool b) = tt
  unwrapped-Ends (suc n) (int z) = tt
  unwrapped-Ends (suc n) (float b) = tt
  unwrapped-Ends (suc n) (arr vs) = tt

  from_payload-IsResponse :
      (raw : String) (payload : Value)
      → Ends IsInputError (IsResponse host) (from_payload host raw payload)
  unfolding from_payload response_of bounded_spoken
  from_payload-IsResponse raw payload =
      let spoken = bounded_spoken host (spoken_in host raw payload) in
      map_result-Ends IsInputError (IsPresented host.urlparse host.traces) (IsResponse host)
        (response_of host spoken)
        (normalize_presentation host (presentation_in host payload) spoken)
        (λ p h. record {
          spoken_text = bounded_spoken-IsText (spoken_in host raw payload);
          spoken_le = len-take_text-le max_spoken_length _;
          is_shown = h;
          agrees = resource_uri_of-viewer host p h;
        })
        (normalize_presentation-Presented (presentation_in host payload) spoken)

  -- Whatever the model wrote and json.loads makes of it, where urlparse raises at most a TypeError, a
  -- ValueError or an OverflowError, `parse_presentation_response` returns a response: a spoken text
  -- that is not empty and has at most 2,000 characters, a presentation, and the viewer of its kind. A
  -- diagram has different nodes and edges between them, a drawing a camera, either trace its id of 32
  -- hexadecimal digits, a browser trace the address of the viewer's page, whose one trace is that of
  -- the id at the page's own origin, a deck some Markdown of bounded size, and a journal review a
  -- reference and a transcript that is not blank and of bounded size. Else it raises a TypeError, a
  -- ValueError or an OverflowError, or what json.loads raises for some text, if that is no
  -- JSONDecodeError.
  pub parse_presentation_response-IsResponse :
      (raw : String) → Ends IsResponseError (IsResponse host) (parse_presentation_response host raw)
  unfolding parse_presentation_response
  parse_presentation_response-IsResponse raw =
      let payload = unwrapped host 4 (str (strip_code_fence raw)) in
      bind-Ends IsResponseError (λ v. Unit {0}) (IsResponse host) payload (from_payload host raw)
        (λ v u.
          weaken-Ends IsInputError IsResponseError (IsResponse host) (IsResponse host)
            (from_payload host raw v) (λ e h. inl h) (λ r h. h) (from_payload-IsResponse raw v))
        (weaken-Ends (IsRaised host.loads) IsResponseError (λ v. Unit {0}) (λ v. Unit {0}) payload
          (λ e h. inr h) (λ v u. u) (unwrapped-Ends 4 (str (strip_code_fence raw))))
