-- ===== src/Examples/Presentations.antt =====
-- Presentations that a model wrote, and what is shown of them.
use agent_workload_platform.Json.Loading.{Loads}
use agent_workload_platform.Prelude.{
  String, ◌≡◌, refl, inl, inr, false, none, some, [], ◌==◌, if◌then◌else◌, Bool-cases, split,
  lstrip, rstrip, strip, join, value_error, type_error, ok, raise,
}
use agent_workload_platform.Json.{
  is_one_of, negsuc, Value, int, str, arr, obj, nil, cons, Fields, end, field,
}
use agent_workload_platform.Prelude.{Ends, without_end}
use agent_workload_platform.Json.Unhashable.{Returns}
use agent_workload_platform.Edge.Presentation.{one_line, repaired, decode_json, strip_code_fence}
use agent_workload_platform.Edge.Presentation.Decoding.{Trimmed, decode_json-Trimmed}
use agent_workload_platform.Edge.Presentation.Flow.{diagram_of, among}
use agent_workload_platform.Edge.Presentation.Flow.Joined.{IsDiagram, diagram_of-IsDiagram}
use agent_workload_platform.Edge.Presentation.Bounded.{bounded_value}
use agent_workload_platform.Edge.Presentation.Bounded.Within.{Finite, Within, bounded_value-Within}
use agent_workload_platform.Edge.Presentation.Response.{Host, parse_presentation_response}
use agent_workload_platform.Edge.Presentation.Response.Agrees.{
  IsResponse, IsResponseError, parse_presentation_response-IsResponse,
}
use agent_workload_platform.Edge.Presentation.Shown.{Reads}

abbrev entry : String → Value → Value
entry k v = obj (field k v end)

abbrev node : String → Value
node i = obj (field "id" (str i) (field "label" (str "A  label") end))

abbrev two_nodes : Value
two_nodes = arr (cons (node " a ") (cons (node "a") (cons (node "b") nil)))

-- A flow whose second edge starts at a list
abbrev flow : Value → Fields
flow from = field "kind" (str "flow") (
    field "nodes" two_nodes
      (field "edges" (arr (cons (obj (field "from" from (field "to" (str "b") end))) nil)) end))

abbrev loads : Loads
loads s =
    if s == "{flow"
    then ok (some (entry "presentation" (obj (flow (str "a")))))
    else if s == "{list"
    then ok (some (entry "presentation" (obj (flow (arr nil)))))
    else if s == "{trace}"
    then ok (some (obj (field "spoken" (str " Look. ") end)))
    else ok none

abbrev host : Host
host = record {
  loads = loads;
  dumps_length = λ v. 10;
  urlparse = λ s.
      if s == "http://["
      then raise (value_error "Invalid IPv6 URL")
      else ok (record { scheme = "http"; netloc = "host"; path = s; query = "" });
  traces = λ s. [];
  text_of = λ v. "";
  arithmetic = record {
    plus = λ v w. v;
    subtract = λ v w. v;
    divide = λ v w. v;
    less = λ v w. false;
  };
}

host-parses : (s : String) → Reads (host.urlparse s)
host-parses s = elim (Bool-cases (s == "http://[")) [ inl e ↦ rw e refl | inr e ↦ rw e tt ]

parse_presentation_response-IsResponse_example :
    Ends
      (IsResponseError host host-parses)
      (IsResponse host)
      (parse_presentation_response host "{flow}}")
parse_presentation_response-IsResponse_example =
    parse_presentation_response-IsResponse host host-parses "{flow}}"

diagram_of-IsDiagram_example :
    Returns IsDiagram (diagram_of "flow" (flow (str "a")) "Done." two_nodes)
unfolding among
diagram_of-IsDiagram_example = diagram_of-IsDiagram "flow" (flow (str "a")) "Done." two_nodes refl

bounded_value-Within_example : Finite (Within 6) (bounded_value 6 (obj (flow (int (negsuc 20000)))))
bounded_value-Within_example = bounded_value-Within 6 (obj (flow (int (negsuc 20000))))

two_braces : decode_json loads "{flow} }" ≡ ok (some (entry "presentation" (obj (flow (str "a")))))
unfolding decode_json repaired strip_code_fence strip lstrip rstrip without_end
two_braces = refl

decode_json-Trimmed_example :
    (t : String) × Trimmed 2 (strip_code_fence "{flow} }") t
    × (loads t ≡ ok (some (entry "presentation" (obj (flow (str "a"))))))
decode_json-Trimmed_example = decode_json-Trimmed loads "{flow} }" _ two_braces

-- An edge from a list is no edge, and no fallback either.
unhashable_end :
    parse_presentation_response host "{list}" ≡ raise (type_error "unhashable type: 'list'")
unfolding parse_presentation_response decode_json diagram_of strip without_end is_one_of one_line
    join split
unhashable_end = refl
