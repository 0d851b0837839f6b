-- ===== src/Edge/Presentation/Flow/Joined.antt =====
-- presentation_response.py: the diagrams that are shown, whatever the model wrote.
use agent_workload_platform.Prelude.{
  weaken-Ends, map_result-Ends, bind-Ends, ℕ, suc, ◌≤◌, String, ◌≡◌, refl, sym, ap, subst, inl, inr,
  true, false, ◌||◌, Option, none, some, List, [], ◌∷◌, map, arith, if◌then◌else◌, between,
  Bool-cases, Option-cases, length, take, length-take-le, All, len, is_empty, take_text, split,
  strip, join,
}
use agent_workload_platform.Json.{
  Value, null, bool, int, float, str, arr, obj, Fields, items, get_or, dict_get,
}
use agent_workload_platform.Prelude.{IsText, len-take_text-le, take_text-IsText}
use agent_workload_platform.Json.Unhashable.{Returns, IsUnhashable}
use agent_workload_platform.Edge.Presentation.{
  max_nodes, max_edges, max_label_length, one_line, Node, Edge, Presentation, diagram,
  fallback_presentation,
}
use agent_workload_platform.Edge.Presentation.{text_or-IsText}
use agent_workload_platform.Edge.Presentation.Flow.{
  diagram_kinds, among, node_of, node_in, nodes_from, known_id, edge_from, edge_to, edge_in,
  with_edge, edges_from, edges_of, diagram_with, diagram_of,
}

-- A node that can be shown
pub record IsNode (n : Node) : Type 0 where
  pub id_text : IsText n.id
  pub id_le : len n.id ≤ 80
  pub label_text : IsText n.label
  pub label_le : len n.label ≤ max_label_length

-- Every node can be shown, and none has an id that is seen before it.
abbrev pub IsNodes : List String → List Node → Type 0
IsNodes seen [] = Unit
IsNodes seen (n ∷ ns) = IsNode n × (among seen n.id ≡ false) × IsNodes (n.id ∷ seen) ns

-- An edge between two of the ids
pub record Joins (ids : List String) (e : Edge) : Type 0 where
  pub source_known : among ids e.source ≡ true
  pub target_known : among ids e.target ≡ true
  pub edge_label_le : len e.edge_label ≤ max_label_length

-- A diagram of one of the two kinds, with one to 24 nodes of different ids, and at most 48 edges between them
abbrev pub IsDiagram : Presentation → Type 0
IsDiagram (diagram kind title nodes edges) =
    (among diagram_kinds kind ≡ true)
    × IsNodes [] nodes
    × (between 1 max_nodes (length nodes) ≡ true)
    × All (Joins (map (λ m. m.id) nodes)) edges
    × (length edges ≤ max_edges)
IsDiagram _ = ⊥

-- What holds of the value of an option, if it has one
abbrev OfSome {ℓ} : {A : Type ℓ} → (A → Type 0) → Option A → Type 0
OfSome P none = Unit
OfSome P (some a) = P a

len-one_line-le : (s : String) → len (one_line s) ≤ max_label_length
unfolding one_line
len-one_line-le s = len-take_text-le max_label_length (join " " (split s))

IsNew : List String → Node → Type 0
IsNew ids n = IsNode n × (among ids n.id ≡ false)

node_if :
    (ids : List String) (i l : String)
    → len i ≤ 80
    → len l ≤ max_label_length
    → OfSome (IsNew ids) (
        if is_empty i || is_empty l || among ids i then none else some record { id = i; label = l })
unfolding IsNew
node_if ids i l i_le l_le = elim (Bool-cases (is_empty i || is_empty l || among ids i)) [
  | inl e ↦ rw e tt
  | inr e ↦ rw e (
    record {
      id_text = ground (arith, e);
      id_le = i_le;
      label_text = ground (arith, e);
      label_le = l_le;
    },
    ground (arith, e),
  )
]

node_of-IsNode : (ids : List String) (i l : Value) → OfSome (IsNew ids) (node_of ids i l)
unfolding node_of
node_of-IsNode ids (str i) (str l) =
    node_if ids (take_text 80 (strip i)) (one_line l) (len-take_text-le 80 (strip i))
      (len-one_line-le l)
node_of-IsNode ids (str i) null = tt
node_of-IsNode ids (str i) (bool b) = tt
node_of-IsNode ids (str i) (int n) = tt
node_of-IsNode ids (str i) (float n) = tt
node_of-IsNode ids (str i) (arr vs) = tt
node_of-IsNode ids (str i) (obj d) = tt
node_of-IsNode ids null l = tt
node_of-IsNode ids (bool b) l = tt
node_of-IsNode ids (int n) l = tt
node_of-IsNode ids (float n) l = tt
node_of-IsNode ids (arr vs) l = tt
node_of-IsNode ids (obj d) l = tt

node_in-IsNode : (ids : List String) (v : Value) → OfSome (IsNew ids) (node_in ids v)
unfolding node_in
node_in-IsNode ids (obj raw) = node_of-IsNode ids (dict_get "id" raw) (dict_get "label" raw)
node_in-IsNode ids _ = tt

nodes_from-none :
    (ids : List String) (v : Value) (vs : List Value)
    → node_in ids v ≡ none
    → nodes_from ids (v ∷ vs) ≡ nodes_from ids vs
unfolding nodes_from
nodes_from-none ids v vs e =
    ap (λ o. elim o [ none ↦ nodes_from ids vs | some n ↦ n ∷ nodes_from (n.id ∷ ids) vs ]) e

nodes_from-some :
    (ids : List String) (v : Value) (vs : List Value) (n : Node)
    → node_in ids v ≡ some n
    → nodes_from ids (v ∷ vs) ≡ n ∷ nodes_from (n.id ∷ ids) vs
unfolding nodes_from
nodes_from-some ids v vs n e =
    ap (λ o. elim o [ none ↦ nodes_from ids vs | some n ↦ n ∷ nodes_from (n.id ∷ ids) vs ]) e

length-nodes_from-le :
    (ids : List String) (vs : List Value) → length (nodes_from ids vs) ≤ length vs
unfolding nodes_from
length-nodes_from-le ids [] = omega arith
length-nodes_from-le ids (v ∷ vs) = elim (Option-cases (node_in ids v)) [
  | inl e ↦
      subst (λ ns. length ns ≤ suc (length vs)) (sym (nodes_from-none ids v vs e))
        (omega (arith, length-nodes_from-le ids vs))
  | inr p ↦
      subst (λ ns. length ns ≤ suc (length vs)) (sym (nodes_from-some ids v vs p.0 p.1))
        (omega (arith, length-nodes_from-le (p.0.id ∷ ids) vs))
]

nodes_from-IsNodes : (ids : List String) (vs : List Value) → IsNodes ids (nodes_from ids vs)
unfolding nodes_from IsNew
nodes_from-IsNodes ids [] = tt
nodes_from-IsNodes ids (v ∷ vs) = elim (Option-cases (node_in ids v)) [
  | inl e ↦ subst (IsNodes ids) (sym (nodes_from-none ids v vs e)) (nodes_from-IsNodes ids vs)
  | inr p ↦
      let h = subst (OfSome (IsNew ids)) p.1 (node_in-IsNode ids v) in
      subst (IsNodes ids) (sym (nodes_from-some ids v vs p.0 p.1))
        (h.0, h.1, nodes_from-IsNodes (p.0.id ∷ ids) vs)
]

-- A text that was looked up is one of the ids.
IsKnown : List String → Option String → Type 0
IsKnown ids none = Unit
IsKnown ids (some s) = among ids s ≡ true

known_id-Returns : (ids : List String) (v : Value) → Returns (IsKnown ids) (known_id ids v)
unfolding known_id IsKnown
known_id-Returns ids (str s) = elim (Bool-cases (among ids s)) [ inl e ↦ rw e e | inr e ↦ rw e tt ]
known_id-Returns ids null = tt
known_id-Returns ids (bool b) = tt
known_id-Returns ids (int n) = tt
known_id-Returns ids (float n) = tt
known_id-Returns ids (arr vs) = inl refl
known_id-Returns ids (obj d) = inr refl

edge_from-Joins :
    (ids : List String) (source : String) (label : Value) (target : Option String)
    → among ids source ≡ true
    → IsKnown ids target
    → OfSome (Joins ids) (edge_from source label target)
unfolding edge_from IsKnown
edge_from-Joins ids source (str label) (some target) h known = record {
  source_known = h;
  target_known = known;
  edge_label_le = len-one_line-le label;
}
edge_from-Joins ids source (str label) none h known = tt
edge_from-Joins ids source null target h known = tt
edge_from-Joins ids source (bool b) target h known = tt
edge_from-Joins ids source (int n) target h known = tt
edge_from-Joins ids source (float n) target h known = tt
edge_from-Joins ids source (arr vs) target h known = tt
edge_from-Joins ids source (obj d) target h known = tt

edge_to-Joins :
    (ids : List String) (raw : Fields) (source : Option String)
    → IsKnown ids source
    → Returns (OfSome (Joins ids)) (edge_to ids raw source)
unfolding edge_to IsKnown
edge_to-Joins ids raw none h = tt
edge_to-Joins ids raw (some source) h =
    map_result-Ends IsUnhashable (IsKnown ids) (OfSome (Joins ids)) _
      (known_id ids (dict_get "to" raw))
      (λ target known. edge_from-Joins ids source (get_or "label" (str "") raw) target h known)
      (known_id-Returns ids (dict_get "to" raw))

edge_in-Joins : (ids : List String) (v : Value) → Returns (OfSome (Joins ids)) (edge_in ids v)
unfolding edge_in
edge_in-Joins ids (obj raw) =
    bind-Ends IsUnhashable (IsKnown ids) (OfSome (Joins ids)) (known_id ids (dict_get "from" raw))
      (edge_to ids raw) (edge_to-Joins ids raw) (known_id-Returns ids (dict_get "from" raw))
edge_in-Joins ids _ = tt

AreEdges : List String → ℕ → List Edge → Type 0
AreEdges ids n edges = All (Joins ids) edges × (length edges ≤ n)

with_edge-AreEdges :
    (ids : List String) (n : ℕ) (o : Option Edge) (edges : List Edge)
    → OfSome (Joins ids) o
    → AreEdges ids n edges
    → AreEdges ids (suc n) (with_edge o edges)
unfolding with_edge AreEdges
with_edge-AreEdges ids n none edges h g = (g.0, omega (arith, g.1))
with_edge-AreEdges ids n (some e) edges h g = ((h, g.0), omega (arith, g.1))

edges_from-AreEdges :
    (ids : List String) (vs : List Value) → Returns (AreEdges ids (length vs)) (edges_from ids vs)
unfolding edges_from AreEdges
edges_from-AreEdges ids [] = (tt, omega arith)
edges_from-AreEdges ids (v ∷ vs) =
    bind-Ends IsUnhashable (OfSome (Joins ids)) (AreEdges ids (suc (length vs))) (edge_in ids v) _
      (λ o h.
        map_result-Ends IsUnhashable (AreEdges ids (length vs)) (AreEdges ids (suc (length vs)))
          (with_edge o) (edges_from ids vs)
          (λ edges g. with_edge-AreEdges ids (length vs) o edges h g) (edges_from-AreEdges ids vs))
      (edge_in-Joins ids v)

edges_of-AreEdges :
    (ids : List String) (v : Value) → Returns (AreEdges ids max_edges) (edges_of ids v)
unfolding edges_of AreEdges
edges_of-AreEdges ids (arr vs) =
    weaken-Ends IsUnhashable IsUnhashable (AreEdges ids (length (take max_edges (items vs))))
      (AreEdges ids max_edges) (edges_from ids (take max_edges (items vs))) (λ e h. h)
      (λ edges h. (h.0, omega (arith, h.1, length-take-le max_edges (items vs))))
      (edges_from-AreEdges ids (take max_edges (items vs)))
edges_of-AreEdges ids null = (tt, omega arith)
edges_of-AreEdges ids (bool b) = (tt, omega arith)
edges_of-AreEdges ids (int n) = (tt, omega arith)
edges_of-AreEdges ids (float n) = (tt, omega arith)
edges_of-AreEdges ids (str s) = (tt, omega arith)
edges_of-AreEdges ids (obj d) = (tt, omega arith)

pub fallback-IsDiagram : (spoken : String) → IsDiagram (fallback_presentation spoken)
unfolding fallback_presentation among
fallback-IsDiagram spoken = (
  refl,
  (
    record {
      id_text = refl;
      id_le = omega arith;
      label_text = take_text-IsText 239 _ (text_or-IsText (join " " (split spoken)) "Ready" refl);
      label_le = len-take_text-le max_label_length _;
    },
    refl,
    tt,
  ),
  refl,
  tt,
  omega arith,
)

diagram_with-IsDiagram :
    (kind : String) (value : Fields) (spoken : String) (nodes : List Node)
    → among diagram_kinds kind ≡ true
    → IsNodes [] nodes
    → length nodes ≤ max_nodes
    → Returns IsDiagram (diagram_with kind value spoken nodes)
unfolding diagram_with AreEdges
diagram_with-IsDiagram kind value spoken [] k h le = fallback-IsDiagram spoken
diagram_with-IsDiagram kind value spoken (n ∷ nodes) k h le =
    map_result-Ends IsUnhashable (AreEdges (map (λ m. m.id) (n ∷ nodes)) max_edges) IsDiagram _
      (edges_of (map (λ m. m.id) (n ∷ nodes)) (dict_get "edges" value))
      (λ edges g. (k, h, ground (arith, le), g.0, g.1))
      (edges_of-AreEdges (map (λ m. m.id) (n ∷ nodes)) (dict_get "edges" value))

-- Whatever the model wrote, a presentation of the kind "flow" or "status" is shown with one to 24
-- nodes, each with an id and a label that are not empty and are within their bounds and no id
-- twice, and at most 48 edges, each from one of these nodes to one of them; else the TypeError of
-- an end that is a list or a dict is raised.
pub diagram_of-IsDiagram :
    (kind : String) (value : Fields) (spoken : String) (raw_nodes : Value)
    → among diagram_kinds kind ≡ true
    → Returns IsDiagram (diagram_of kind value spoken raw_nodes)
unfolding diagram_of
diagram_of-IsDiagram kind value spoken (arr vs) k =
    diagram_with-IsDiagram kind value spoken _ k (nodes_from-IsNodes [] (take max_nodes (items vs)))
      (omega (
        arith,
        length-nodes_from-le [] (take max_nodes (items vs)),
        length-take-le max_nodes (items vs),
      ))
diagram_of-IsDiagram kind value spoken null k = fallback-IsDiagram spoken
diagram_of-IsDiagram kind value spoken (bool b) k = fallback-IsDiagram spoken
diagram_of-IsDiagram kind value spoken (int n) k = fallback-IsDiagram spoken
diagram_of-IsDiagram kind value spoken (float n) k = fallback-IsDiagram spoken
diagram_of-IsDiagram kind value spoken (str s) k = fallback-IsDiagram spoken
diagram_of-IsDiagram kind value spoken (obj d) k = fallback-IsDiagram spoken
