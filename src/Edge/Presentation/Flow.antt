-- ===== src/Edge/Presentation/Flow.antt =====
-- presentation_response.py, `_normalize_presentation`: the nodes and edges of a diagram.
pub mod Joined
use agent_workload_platform.Prelude.{
  String, Bool, ◌||◌, Option, none, some, List, [], ◌∷◌, map, ◌==◌, if◌then◌else◌, take, any,
  is_empty, take_text, strip, type_error, Result, ok, raise, map_result, ◌>>=◌,
}
use agent_workload_platform.Json.{Value, str, arr, obj, Fields, items, get_or, dict_get}
use agent_workload_platform.Edge.Presentation.{
  max_nodes, max_edges, one_line, Node, Edge, Presentation, diagram, fallback_presentation,
  title_of,
}

-- The kinds that have nodes
abbrev pub diagram_kinds : List String
diagram_kinds = "flow" ∷ "status" ∷ []

-- text in ids, of a text
unfoldable pub among : List String → String → Bool
among ids s = any (λ i. s == i) ids

-- The node of an item, where its id is new
node_of : List String → Value → Value → Option Node
unfolding among
node_of ids (str i) (str l) =
    let node_id = take_text 80 (strip i) in
    let label = one_line l in
    if is_empty node_id || is_empty label || among ids node_id
    then none
    else some record { id = node_id; label = label }
node_of ids _ _ = none

node_in : List String → Value → Option Node
unfolding node_of
node_in ids (obj raw) = node_of ids (dict_get "id" raw) (dict_get "label" raw)
node_in ids _ = none

-- The loop over the items, with the ids that have nodes so far
nodes_from : List String → List Value → List Node
unfolding node_in
nodes_from ids [] = []
nodes_from ids (raw ∷ rest) = elim (node_in ids raw) [
  | none ↦ nodes_from ids rest
  | some n ↦ n ∷ nodes_from (n.id ∷ ids) rest
]

-- value in ids, with the text that it then is: a list or a dict cannot be looked up.
known_id : List String → Value → Result (Option String)
unfolding among
known_id ids (arr _) = raise (type_error "unhashable type: 'list'")
known_id ids (obj _) = raise (type_error "unhashable type: 'dict'")
known_id ids (str s) = ok (if among ids s then some s else none)
known_id ids _ = ok none

edge_from : String → Value → Option String → Option Edge
edge_from source (str label) (some target) =
    some record { source = source; target = target; edge_label = one_line label }
edge_from source _ _ = none

-- The target is looked up only where the source is known.
edge_to : List String → Fields → Option String → Result (Option Edge)
unfolding known_id edge_from
edge_to ids raw none = ok none
edge_to ids raw (some source) =
    map_result (edge_from source (get_or "label" (str "") raw)) (known_id ids (dict_get "to" raw))

edge_in : List String → Value → Result (Option Edge)
unfolding known_id edge_to
edge_in ids (obj raw) = known_id ids (dict_get "from" raw) >>= edge_to ids raw
edge_in ids _ = ok none

with_edge : Option Edge → List Edge → List Edge
with_edge none edges = edges
with_edge (some e) edges = e ∷ edges

edges_from : List String → List Value → Result (List Edge)
unfolding edge_in with_edge
edges_from ids [] = ok []
edges_from ids (raw ∷ rest) =
    edge_in ids raw >>= λ e. map_result (with_edge e) (edges_from ids rest)

edges_of : List String → Value → Result (List Edge)
unfolding edges_from
edges_of ids (arr raw_edges) = edges_from ids (take max_edges (items raw_edges))
edges_of ids _ = ok []

diagram_with : String → Fields → String → List Node → Result Presentation
unfolding edges_of
diagram_with kind value spoken [] = ok (fallback_presentation spoken)
diagram_with kind value spoken (n ∷ nodes) =
    map_result (diagram kind (title_of "Pi response" (dict_get "title" value)) (n ∷ nodes))
      (edges_of (map (λ m. m.id) (n ∷ nodes)) (dict_get "edges" value))

-- A presentation of the kind "flow" or "status"
unfoldable pub diagram_of : String → Fields → String → Value → Result Presentation
unfolding diagram_with nodes_from
diagram_of kind value spoken (arr raw_nodes) =
    diagram_with kind value spoken (nodes_from [] (take max_nodes (items raw_nodes)))
diagram_of kind value spoken _ = ok (fallback_presentation spoken)
