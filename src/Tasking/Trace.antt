-- ===== src/Tasking/Trace.antt =====
-- tasking/application/service.py: the trace context that a durable task carries.
use agent_workload_platform.Prelude.{
  String, Bool, false, ◌&&◌, Option, none, some, ltb, leb, if◌then◌else◌, len,
}
use agent_workload_platform.Json.{Value, str, Fields, end, field, dict_get}

-- isinstance(value, str) and 0 < len(value) <= 512
unfoldable pub is_trace_value : Value → Bool
is_trace_value (str s) = ltb 0 (len s) && leb (len s) 512
is_trace_value _ = false

keep_trace : String → Fields → Fields → Fields
keep_trace key carrier rest =
    if is_trace_value (dict_get key carrier) then field key (dict_get key carrier) rest else rest

unfoldable pub bounded_trace_context : Option Fields → Fields
unfolding keep_trace is_trace_value
bounded_trace_context none = end
bounded_trace_context (some carrier) =
    keep_trace "traceparent" carrier (keep_trace "tracestate" carrier end)
