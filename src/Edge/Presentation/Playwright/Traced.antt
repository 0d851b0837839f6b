-- ===== src/Edge/Presentation/Playwright/Traced.antt =====
-- presentation_response.py: a browser trace is shown, or its address or a number raises.
use agent_workload_platform.Edge.Presentation.Traces.{is_trace_id}
use agent_workload_platform.Prelude.{
  arith, Ends, ◌⊎◌, ◌≡◌, ℕ, String, inl, inr, true, false, Option, none, some, List, [], ◌∷◌,
  Bool-cases, length, take, is_empty, strip, Result, ok, refl, ap, ◌==◌, eq_iff, ◌∙◌, concat,
  take_text,
}
use agent_workload_platform.Json.{
  Value, null, bool, int, float, str, arr, obj, Fields, items, dict_get,
}
use agent_workload_platform.Json.{int_of, is_number, is_one_of, clamp}
use agent_workload_platform.Edge.Presentation.{
  Presentation, diagram, grafana_trace, playwright_trace, drawing, slides, review,
  fallback_presentation,
}
use agent_workload_platform.Edge.Presentation.Shown.{
  IsInputError, bind-Shows_read, IsShown, Reads, fallback-IsShown, bind-Shows, map-Shows, map-Reads,
  is_one_of-Reads, int_of-Reads,
}
use agent_workload_platform.Edge.Presentation.Playwright.{
  take_text, same_origin, concat, is_viewer, playwright_trace, Presentation, fallback_presentation,
  trace_of, is_preview, is_video, is_trace, Url, Action, bounded_int, number_or, status_of,
  labelled, action_of, action_in, with_action, actions_from, actions_of, optional_url, count_of,
  video_fields, shown, accepted, traced, viewed, playwright_of,
}

number_or-Reads : (d hi : ℕ) (v : Value) → Reads (number_or d hi v)
unfolding number_or bounded_int
number_or-Reads d hi v =
    elim (is_number v) as (λ b. Reads (elim b [ true ↦ bounded_int hi v | false ↦ ok d ])) [
      | true ↦ map-Reads (clamp hi) (int_of v) (int_of-Reads v)
      | false ↦ tt
    ]

status_of-Reads : (v : Value) → Reads (status_of v)
unfolding status_of
status_of-Reads v = map-Reads _ (is_one_of _ v) (is_one_of-Reads _ v)

labelled-Reads : (label : String) (raw : Fields) → Reads (labelled label raw)
unfolding labelled
labelled-Reads label raw = elim (Bool-cases (is_empty (strip label))) [
  | inl e ↦ rw e tt
  | inr e ↦ rw e (
      bind-Shows _ (number_or 0 3600000 (dict_get "durationMs" raw)) _
        (number_or-Reads 0 3600000 (dict_get "durationMs" raw))
        (λ n.
          map-Reads _ (status_of (dict_get "status" raw))
            (status_of-Reads (dict_get "status" raw))))
]

action_of-Reads : (label : Value) (raw : Fields) → Reads (action_of label raw)
unfolding action_of
action_of-Reads (str label) raw = labelled-Reads label raw
action_of-Reads null raw = tt
action_of-Reads (bool b) raw = tt
action_of-Reads (int n) raw = tt
action_of-Reads (float b) raw = tt
action_of-Reads (arr vs) raw = tt
action_of-Reads (obj d) raw = tt

action_in-Reads : (v : Value) → Reads (action_in v)
unfolding action_in
action_in-Reads (obj raw) = action_of-Reads (dict_get "label" raw) raw
action_in-Reads _ = tt

actions_from-Reads : (vs : List Value) → Reads (actions_from vs)
unfolding actions_from
actions_from-Reads [] = tt
actions_from-Reads (v ∷ vs) =
    bind-Shows _ (action_in v) _ (action_in-Reads v)
      (λ a. map-Reads (with_action a) (actions_from vs) (actions_from-Reads vs))

actions_of-Reads : (v : Value) → Reads (actions_of v)
unfolding actions_of
actions_of-Reads (arr vs) = actions_from-Reads (take 12 (items vs))
actions_of-Reads _ = tt

-- An address of the viewer, whose one trace is the trace of the id at the viewer's own origin
pub record IsTraceViewer (urlparse : String → Result Url) (traces : String → List String)
    (trace_id viewer_url : String) : Type 0 where
  pub viewer : Url
  pub is_parsed : urlparse viewer_url ≡ ok viewer
  pub is_web : (viewer.scheme ≡ "http") ⊎ (viewer.scheme ≡ "https")
  pub has_host : is_empty viewer.netloc ≡ false
  pub is_page : viewer.path ≡ "/trace-viewer/index.html"
  pub address : String
  pub one_trace : traces viewer.query ≡ address ∷ []
  pub trace : Url
  pub is_read : urlparse address ≡ ok trace
  pub own_scheme : trace.scheme ≡ viewer.scheme
  pub own_host : trace.netloc ≡ viewer.netloc
  pub own_path : trace.path ≡ concat "/api/playwright-traces/" (concat trace_id "/trace.zip")

-- A browser trace shows its id and the address of such a viewer, cut to 2,000 characters; what another
-- kind needs is `IsShown`.
abbrev pub IsPresented : (String → Result Url) → (String → List String) → Presentation → Type 0
IsPresented urlparse traces (playwright_trace d) =
    (trace_id : String) × (viewer_url : String) × (is_trace_id trace_id ≡ true)
    × (dict_get "traceId" d ≡ str trace_id)
    × (dict_get "viewerUrl" d ≡ str (take_text 2000 viewer_url))
    × IsTraceViewer urlparse traces trace_id viewer_url
IsPresented urlparse traces p = IsShown p

pub IsShown-IsPresented :
    (urlparse : String → Result Url) (traces : String → List String) (p : Presentation)
    → IsShown p
    → IsPresented urlparse traces p
IsShown-IsPresented urlparse traces (diagram kind title nodes edges) h = h
IsShown-IsPresented urlparse traces (grafana_trace title trace_id datasource_uid focus) h = h
IsShown-IsPresented urlparse traces (playwright_trace d) h = elim h [ ]
IsShown-IsPresented urlparse traces (drawing title elements) h = h
IsShown-IsPresented urlparse traces (slides title markdown) h = h
IsShown-IsPresented urlparse traces (review d) h = h

module _ (urlparse : String → Result Url) (traces : String → List String) (text_of : Value → String)
    (parses : (s : String) → Reads (urlparse s)) where
  -- A presentation with what its kind needs is returned, or an exception of bad input is raised.
  abbrev Presents : Result Presentation → Type 0
  Presents r = Ends IsInputError (IsPresented urlparse traces) r

  fallback-Presents : (spoken : String) → Presents (ok (fallback_presentation spoken))
  fallback-Presents spoken =
      IsShown-IsPresented urlparse traces (fallback_presentation spoken) (fallback-IsShown spoken)

  viewer-IsTraceViewer :
      (trace_id viewer_url : String) (viewer : Url) (ts : List String) (t : String) (trace : Url)
      → urlparse viewer_url ≡ ok viewer
      → traces viewer.query ≡ ts
      → trace_of urlparse traces text_of viewer ts ≡ some t
      → urlparse t ≡ ok trace
      → is_trace urlparse traces text_of trace_id viewer trace ≡ true
      → IsTraceViewer urlparse traces trace_id viewer_url
  unfolding trace_of is_viewer is_trace same_origin
  viewer-IsTraceViewer trace_id viewer_url viewer (u ∷ []) t trace parsed query one read own =
      let web : is_viewer urlparse traces text_of viewer ≡ true = ground (arith, one) in
      let same : u ≡ t = ground (arith, one) in
      record {
        viewer = viewer;
        is_parsed = parsed;
        is_web = elim (Bool-cases (viewer.scheme == "http")) [
          | inl e ↦ inl ((eq_iff viewer.scheme "http").0 e)
          | inr e ↦ inr ((eq_iff viewer.scheme "https").0 (ground (arith, web, e)))
        ];
        has_host = ground (arith, web);
        is_page = (eq_iff viewer.path "/trace-viewer/index.html").0 (ground (arith, web));
        address = t;
        one_trace = query ∙ ap (λ s. s ∷ []) same;
        trace = trace;
        is_read = read;
        own_scheme = (eq_iff trace.scheme viewer.scheme).0 (ground (arith, own));
        own_host = (eq_iff trace.netloc viewer.netloc).0 (ground (arith, own));
        own_path = (eq_iff trace.path _).0 (ground (arith, own));
      }
  viewer-IsTraceViewer trace_id viewer_url viewer [] t trace parsed query one read own =
      absurd (ground (arith, one))
  viewer-IsTraceViewer trace_id viewer_url viewer (u ∷ v ∷ ts) t trace parsed query one read own =
      absurd (ground (arith, one))

  count_of-Reads :
      (hi : ℕ) (value : Fields) (name : String)
      → Reads (count_of urlparse traces text_of hi value name)
  unfolding count_of
  count_of-Reads hi value name = number_or-Reads 0 hi (dict_get name value)

  optional_url-Reads : (v : Value) → Reads (optional_url urlparse traces text_of v)
  unfolding optional_url
  optional_url-Reads (str s) = map-Reads _ (urlparse s) (parses s)
  optional_url-Reads _ = tt

  video_fields-Reads :
      (value : Fields) (video : Option (String × Url))
      → Reads (video_fields urlparse traces text_of value video)
  unfolding video_fields
  video_fields-Reads value none = tt
  video_fields-Reads value (some (s, url)) =
      bind-Shows _ (count_of urlparse traces text_of 3600 value "narratedDurationSeconds") _
        (count_of-Reads 3600 value "narratedDurationSeconds")
        (λ seconds.
          bind-Shows _ (count_of urlparse traces text_of 50 value "narratedSceneCount") _
            (count_of-Reads 50 value "narratedSceneCount") (λ scenes. tt))

  shown-Presents :
      (value : Fields) (trace_id viewer_url : String) (actions : List Action)
      (preview video : Option (String × Url))
      → is_trace_id trace_id ≡ true
      → IsTraceViewer urlparse traces trace_id viewer_url
      → Presents (shown urlparse traces text_of value trace_id viewer_url actions preview video)
  unfolding shown
  shown-Presents value trace_id viewer_url actions preview video is_id opened =
      bind-Shows (IsPresented urlparse traces)
        (count_of urlparse traces text_of 3600000 value "durationMs") _
        (count_of-Reads 3600000 value "durationMs")
        (λ d.
          bind-Shows (IsPresented urlparse traces)
            (number_or (length actions) 100000 (dict_get "actionCount" value)) _
            (number_or-Reads (length actions) 100000 (dict_get "actionCount" value))
            (λ a.
              bind-Shows (IsPresented urlparse traces)
                (count_of urlparse traces text_of 1000000 value "requestCount") _
                (count_of-Reads 1000000 value "requestCount")
                (λ r.
                  bind-Shows (IsPresented urlparse traces)
                    (count_of urlparse traces text_of 100000 value "errorCount") _
                    (count_of-Reads 100000 value "errorCount")
                    (λ e.
                      map-Shows (IsPresented urlparse traces) _
                        (video_fields urlparse traces text_of value video)
                        (video_fields-Reads value video)
                        (λ part. (trace_id, viewer_url, is_id, refl, refl, opened))))))

  accepted-Presents :
      (value : Fields) (spoken trace_id viewer_url : String) (viewer : Url)
      → is_trace_id trace_id ≡ true
      → IsTraceViewer urlparse traces trace_id viewer_url
      → Presents (accepted urlparse traces text_of value spoken trace_id viewer_url viewer)
  unfolding accepted
  accepted-Presents value spoken trace_id viewer_url viewer is_id opened =
      bind-Shows (IsPresented urlparse traces)
        (optional_url urlparse traces text_of (dict_get "previewUrl" value)) _
        (optional_url-Reads (dict_get "previewUrl" value))
        (λ preview. elim (Bool-cases (is_preview urlparse traces text_of trace_id viewer preview)) [
          | inr e ↦ rw e (fallback-Presents spoken)
          | inl e ↦ rw e (
              bind-Shows (IsPresented urlparse traces)
                (optional_url urlparse traces text_of (dict_get "narratedVideoUrl" value)) _
                (optional_url-Reads (dict_get "narratedVideoUrl" value))
                (λ video. elim (Bool-cases (is_video urlparse traces text_of viewer video)) [
                  | inr f ↦ rw f (fallback-Presents spoken)
                  | inl f ↦ rw f (
                      bind-Shows (IsPresented urlparse traces)
                        (actions_of (dict_get "actions" value)) _
                        (actions_of-Reads (dict_get "actions" value))
                        (λ actions.
                          shown-Presents value trace_id viewer_url actions preview video is_id
                            opened))
                ]))
        ])

  traced-Presents :
      (value : Fields) (spoken trace_id viewer_url : String) (viewer : Url) (o : Option String)
      → is_trace_id trace_id ≡ true
      → urlparse viewer_url ≡ ok viewer
      → trace_of urlparse traces text_of viewer (traces viewer.query) ≡ o
      → Presents (traced urlparse traces text_of value spoken trace_id viewer_url viewer o)
  unfolding traced
  traced-Presents value spoken trace_id viewer_url viewer none is_id parsed one =
      fallback-Presents spoken
  traced-Presents value spoken trace_id viewer_url viewer (some t) is_id parsed one =
      bind-Shows_read (IsPresented urlparse traces) (urlparse t) _ (parses t) (λ trace read.
        elim (Bool-cases (is_trace urlparse traces text_of trace_id viewer trace)) [
          | inl own ↦ rw own (
              accepted-Presents value spoken trace_id viewer_url viewer is_id (
                viewer-IsTraceViewer trace_id viewer_url viewer (traces viewer.query) t trace parsed
                  refl one read own))
          | inr e ↦ rw e (fallback-Presents spoken)
        ])

  viewed-Presents :
      (value : Fields) (spoken : String) (trace_id viewer_url : Value)
      → Presents (viewed urlparse traces text_of value spoken trace_id viewer_url)
  unfolding viewed
  viewed-Presents value spoken (str trace_id) (str viewer_url) =
      elim (Bool-cases (is_trace_id trace_id)) [
        | inl is_id ↦ rw is_id (
            bind-Shows_read (IsPresented urlparse traces) (urlparse viewer_url) _
              (parses viewer_url)
              (λ viewer parsed.
                traced-Presents value spoken trace_id viewer_url viewer _ is_id parsed refl))
        | inr other ↦ rw other (fallback-Presents spoken)
      ]
  viewed-Presents value spoken (str trace_id) null = fallback-Presents spoken
  viewed-Presents value spoken (str trace_id) (bool b) = fallback-Presents spoken
  viewed-Presents value spoken (str trace_id) (int n) = fallback-Presents spoken
  viewed-Presents value spoken (str trace_id) (float b) = fallback-Presents spoken
  viewed-Presents value spoken (str trace_id) (arr vs) = fallback-Presents spoken
  viewed-Presents value spoken (str trace_id) (obj d) = fallback-Presents spoken
  viewed-Presents value spoken null v = fallback-Presents spoken
  viewed-Presents value spoken (bool b) v = fallback-Presents spoken
  viewed-Presents value spoken (int n) v = fallback-Presents spoken
  viewed-Presents value spoken (float b) v = fallback-Presents spoken
  viewed-Presents value spoken (arr vs) v = fallback-Presents spoken
  viewed-Presents value spoken (obj d) v = fallback-Presents spoken

  pub playwright_of-Presents :
      (value : Fields) (spoken : String)
      → Presents (playwright_of urlparse traces text_of value spoken)
  unfolding playwright_of
  playwright_of-Presents value spoken =
      viewed-Presents value spoken (dict_get "traceId" value) (dict_get "viewerUrl" value)
