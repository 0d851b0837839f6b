-- ===== src/Tasking/Owner.antt =====
-- tasking/infrastructure/pi_durable_owner.py: the transport to the process that owns the tasks. How
-- the other side answers is the parameter `answer`, a function of all that was sent before.
pub mod Submits
use agent_workload_platform.Prelude.{
  ℕ, code, String, not, none, some, List, [], ◌∷◌, ◌++◌, if◌then◌else◌, between, type_error,
  runtime_error, key_error, Result, ok, raise,
}
use agent_workload_platform.Json.{Value, str, obj, Fields, end, get, get_or, dict_get, truthy}
use agent_workload_platform.Tasking.Exec.{Command, Exec, pure, lift, ◌>>=◌}

-- The reason of a `URLError`; an `OSError` with its errno by name.
pub data Reason : Type 0 where
  timed_out unreachable_network unreachable_host refused reset os_timed_out : Reason
  other_errno no_errno other_reason : Reason

pub data Failure : Type 0 where
  http_error : ℕ → Failure
  url_error : Reason → Failure
  timeout_error : Failure

-- What `urlopen` and `json.load` give: an exception, or the envelope.
pub data Reply : Type 0 where
  failed : Failure → Reply
  envelope : Fields → Reply

reason_kind : Reason → String
reason_kind timed_out = "timeout"
reason_kind no_errno = "network_other"
reason_kind unreachable_network = "network_unreachable"
reason_kind unreachable_host = "host_unreachable"
reason_kind refused = "connection_refused"
reason_kind reset = "connection_reset"
reason_kind os_timed_out = "timeout"
reason_kind other_errno = "network_other"
reason_kind other_reason = "network_other"

-- `_failure_kind`; a missing HTTP code is 0
unfoldable pub failure_kind : Failure → String
unfolding reason_kind
failure_kind (http_error code) =
    if between 400 499 code
    then "http_4xx"
    else if between 500 599 code
    then "http_5xx"
    else "http_other"
failure_kind (url_error r) = reason_kind r
failure_kind timeout_error = "timeout"

unfoldable pub command_name : Command → String
command_name (Command.submit _ _ _) = "submit"
command_name (Command.get_task _) = "get"
command_name (Command.describe _) = "describe"
command_name (Command.describe_product _) = "describe_product"
command_name (Command.abort _) = "abort"
command_name (Command.retry _) = "retry"
command_name (Command.get_many _) = "get_many"
command_name (Command.cancel_product _ _) = "cancel_product"
command_name (Command.progress _ _ _) = "progress"
command_name (Command.list_native _ _) = "list_native"

-- What the program takes from outside: the owner's answers and `str` of a value that is no text.
pub record Peer : Type 0 where
  pub answer : List Command → Command → Reply
  pub show : Value → String

-- str(value)
unfoldable pub str_of : (Value → String) → Value → String
str_of show (str s) = s
str_of show v = show v

-- value[key]
unfoldable pub index : Value → String → Result Value
index (obj d) k = elim (get k d) [ none ↦ raise (key_error k) | some v ↦ ok v ]
index _ k = raise (type_error "the value is not subscriptable")

module _ (peer : Peer) where
  -- A transport failure is counted and becomes one RuntimeError; an envelope without success too.
  settle : Command → Reply → Exec Value
  settle c (failed f) w = (
    raise (runtime_error "Pi Durable owner is unavailable"),
    record w { failures = w.failures ++ (command_name c, failure_kind f) ∷ [] },
  )
  settle c (envelope e) w = if truthy (dict_get "success" e) then (ok (dict_get "data" e), w) else (
    raise (
        runtime_error
          (str_of peer.show (get_or "error" (str "Pi Durable owner rejected the request") e))),
    w,
  )

  -- `_call`
  unfoldable pub call : Command → Exec Value
  unfolding settle
  call c w = settle c (peer.answer w.sent c) (record w { sent = w.sent ++ c ∷ [] })

  unfoldable pub submit : String → Value → String → Exec String
  submit kind params request_id = do
    result ← call (Command.submit kind params request_id)
    task_id ← lift (index result "task_id")
    pure (str_of peer.show task_id)

  unfoldable pub get_task : String → Exec Value
  get_task task_id = call (Command.get_task task_id)

  -- An empty list of tasks asks nothing.
  unfoldable pub get_many : List String → Exec Value
  get_many [] = pure (obj end)
  get_many (t ∷ ts) = call (Command.get_many (t ∷ ts))

  unfoldable pub describe : String → Exec Value
  describe task_id = call (Command.describe task_id)

  unfoldable pub describe_product : String → Exec Value
  describe_product task_id = call (Command.describe_product task_id)

  unfoldable pub cancel_product : String → String → Exec Value
  cancel_product task_id identity = call (Command.cancel_product task_id identity)

  unfoldable pub progress : String → ℕ → ℕ → Exec Value
  progress task_id after limit = call (Command.progress task_id after limit)

  unfoldable pub list_native : String → ℕ → Exec Value
  list_native identity limit = call (Command.list_native identity limit)

  unfoldable pub abort : String → Exec String
  abort task_id = do
    result ← call (Command.abort task_id)
    disposition ← lift (index result "disposition")
    pure (str_of peer.show disposition)

  unfoldable pub retry : String → Exec Value
  retry task_id = call (Command.retry task_id)
