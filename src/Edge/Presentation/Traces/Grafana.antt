-- ===== src/Edge/Presentation/Traces/Grafana.antt =====
-- presentation_response.py: the trace ids that are shown.
use agent_workload_platform.Prelude.{String, inl, inr, ◌&&◌, Option, some, arith, Bool-cases}
use agent_workload_platform.Json.{Value, str, Fields}
use agent_workload_platform.Edge.Presentation.Shown.{IsShown, fallback-IsShown}
use agent_workload_platform.Edge.Presentation.Traces.{
  is_uid, is_hex_of, grafana_with, grafana_of, lower_hex-is_trace_id,
}

grafana_with-IsShown :
    (value : Fields) (spoken : String) (trace_id uid : Value) (focus : Option (Option String))
    → IsShown (grafana_with value spoken trace_id uid focus)
unfolding grafana_with
grafana_with-IsShown value spoken (str t) (str u) (some focus) =
    elim (Bool-cases (is_hex_of 32 t && is_uid u)) [
      | inl e ↦ rw e (lower_hex-is_trace_id t (ground (arith, e)))
      | inr e ↦ rw e (fallback-IsShown spoken)
    ]
grafana_with-IsShown value spoken _ _ _ = fallback-IsShown spoken

pub grafana_of-IsShown : (value : Fields) (spoken : String) → IsShown (grafana_of value spoken)
unfolding grafana_of
grafana_of-IsShown value spoken = grafana_with-IsShown value spoken _ _ _
