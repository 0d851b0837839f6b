-- ===== src/Edge/Presentation.antt =====
-- apps/edge/presentation_response.py: the spoken text and the presentation of a reply. Here are the
-- presentations, their dicts and the text that both are read from; the children read each kind.
-- `json.loads` of a text is a parameter.
pub mod Decoding
pub mod Flow
pub mod Traces
pub mod Playwright
pub mod Bounded
pub mod Drawing
pub mod Review
pub mod Response
pub mod Shown
use agent_workload_platform.Json.Loading.{Loads}
use agent_workload_platform.Prelude.{
  ◌>>=◌, ok, Result, IsText, ℕ, zero, suc, String, refl, Option, none, some, List, [], ◌∷◌, map,
  ◌==◌, starts_with, if◌then◌else◌, is_empty, take_text, split, rstrip, strip, join,
}
use agent_workload_platform.Json.{Value, str, arr, obj, Items, nil, cons, Fields, end, field}
use agent_workload_platform.Prelude.{splitlines, without_end}

abbrev pub max_spoken_length : ℕ
max_spoken_length = 2000

abbrev pub max_title_length : ℕ
max_title_length = 160

abbrev pub max_label_length : ℕ
max_label_length = 240

abbrev pub max_nodes : ℕ
max_nodes = 24

abbrev pub max_edges : ℕ
max_edges = 48

abbrev pub max_excalidraw_elements : ℕ
max_excalidraw_elements = 80

abbrev pub max_excalidraw_bytes : ℕ
max_excalidraw_bytes = 65536

abbrev pub max_marp_bytes : ℕ
max_marp_bytes = 65536

abbrev pub max_journal_transcript_bytes : ℕ
max_journal_transcript_bytes = 65536

-- The labels between the blanks of a text, on one line
unfoldable pub one_line : String → String
one_line s = take_text max_label_length (join " " (split s))

pub record Node : Type 0 where
  pub id : String
  pub label : String

pub record Edge : Type 0 where
  pub source : String
  pub target : String
  pub edge_label : String

-- The code's dict literals, one constructor for each.
pub data Presentation : Type 0 where
  diagram : (kind title : String) → List Node → List Edge → Presentation
  grafana_trace : (title trace_id datasource_uid : String) → Option String → Presentation
  playwright_trace : Fields → Presentation
  drawing : (title : String) → List Fields → Presentation
  slides : (title markdown : String) → Presentation
  review : Fields → Presentation

values : List Value → Items
values [] = nil
values (v ∷ vs) = cons v (values vs)

node_dict : Node → Value
node_dict n = obj (field "id" (str n.id) (field "label" (str n.label) end))

edge_dict : Edge → Value
edge_dict e =
    obj (
      field "from" (str e.source)
        (field "to" (str e.target) (field "label" (str e.edge_label) end)))

-- d, and d[key] = value where there is one
with_text : String → Option String → Fields
with_text k none = end
with_text k (some s) = field k (str s) end

unfoldable pub to_dict : Presentation → Fields
unfolding values node_dict edge_dict with_text
to_dict (diagram kind title nodes edges) = field "kind" (str kind) (
    field "title" (str title) (
      field "nodes" (arr (values (map node_dict nodes)))
        (field "edges" (arr (values (map edge_dict edges))) end)))
to_dict (grafana_trace title trace_id datasource_uid focus) = field "kind" (str "grafana-trace") (
    field "title" (str title) (
      field "traceId" (str trace_id)
        (field "datasourceUid" (str datasource_uid) (with_text "focusSpanId" focus))))
to_dict (playwright_trace d) = field "kind" (str "playwright-trace-viewer") d
to_dict (drawing title elements) =
    field "kind" (str "excalidraw")
      (field "title" (str title) (field "elements" (arr (values (map obj elements))) end))
to_dict (slides title markdown) =
    field "kind" (str "slides") (field "title" (str title) (field "markdown" (str markdown) end))
to_dict (review d) = field "kind" (str "journal-review") d

-- s or default
pub text_or : String → String → String
text_or s d = if is_empty s then d else s

pub text_or-IsText : (s d : String) → IsText d → IsText (text_or s d)
unfolding text_or
text_or-IsText String.[] d h = h
text_or-IsText (String.◌∷◌ c s) d h = refl

unfoldable pub fallback_presentation : String → Presentation
unfolding text_or one_line
fallback_presentation spoken =
    diagram "status" "Pi response"
      (record {
        id = "result";
        label = take_text max_label_length (text_or (join " " (split spoken)) "Ready");
      }
        ∷ [])
      []

-- title.strip()[:160] if isinstance(title, str) and title.strip() else default
unfoldable pub title_or : String → Value → String
title_or d (str s) = if is_empty (strip s) then d else take_text max_title_length (strip s)
title_or d _ = d

-- title.strip()[:160] if isinstance(title, str) else default
unfoldable pub title_of : String → Value → String
title_of d (str s) = take_text max_title_length (strip s)
title_of d _ = d

without_first_fence : List String → List String
without_first_fence [] = []
without_first_fence (l ∷ ls) = if starts_with l "```" then ls else l ∷ ls

without_last_fence : List String → List String
without_last_fence [] = []
without_last_fence (l ∷ []) = if strip l == "```" then [] else l ∷ []
without_last_fence (l ∷ m ∷ ls) = l ∷ without_last_fence (m ∷ ls)

unfoldable pub strip_code_fence : String → String
unfolding without_first_fence without_last_fence
strip_code_fence value =
    let s = strip value in
    if starts_with s "```"
    then strip (join "\n" (without_last_fence (without_first_fence (splitlines s))))
    else s

module _ (loads : Loads) where
  -- At most so many closing braces are taken off.
  unfoldable pub repaired : ℕ → String → Result (Option Value)
  repaired zero s = ok none
  repaired (suc n) s = elim (without_end b'}' s) [
    | none ↦ ok none
    | some t ↦
        loads (rstrip t) >>= λ o. elim o [ none ↦ repaired n (rstrip t) | some v ↦ ok (some v) ]
  ]

  -- `_decode_json`: none where it raises the JSONDecodeError of the whole text
  unfoldable pub decode_json : String → Result (Option Value)
  unfolding repaired strip_code_fence
  decode_json value =
      let candidate = strip_code_fence value in
      loads candidate >>= λ o. elim o [ none ↦ repaired 2 candidate | some v ↦ ok (some v) ]
