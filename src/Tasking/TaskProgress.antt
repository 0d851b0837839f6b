-- ===== src/Tasking/TaskProgress.antt =====
-- tasking/domain/task_progress.py: narration of what a task does. `json.loads` of a line is a
-- parameter.
pub mod Public
use agent_workload_platform.Prelude.{
  ℕ, zero, suc, ◌+◌, code, String, Bool, true, false, ◌&&◌, ◌||◌, Option, none, some, List, [], ◌∷◌,
  ◌==◌, ltb, eqb, if◌then◌else◌, between, any, len, is_empty, concat, split, lstrip, strip, join,
  contains, message,
}
use agent_workload_platform.Json.{
  Value, bool, str, arr, obj, Items, nil, cons, Fields, dict_get, is_str,
}

-- A code point with its case ignored, as Python's regular expressions do for the letters of SENSITIVE
folded : ℕ → ℕ
folded n =
    if between 65 90 n
    then n + 32
    else if eqb n 0x130 || eqb n 0x131
    then 105
    else if eqb n 0x17f
    then 115
    else if eqb n 0x212a
    then 107
    else n

-- A word at the head of a text, where a "?" stands for [_-]?
word_here : String → String → Bool
unfolding folded
word_here String.[] s = true
word_here (String.◌∷◌ p ps) String.[] = false
word_here (String.◌∷◌ p ps) (String.◌∷◌ c s) =
    let skipped = word_here ps s in
    let same = word_here ps (String.◌∷◌ c s) in
    if eqb (code p) b'?'
    then (if eqb (code c) b'_' || eqb (code c) b'-' then skipped else same)
    else if eqb (folded (code c)) (code p)
    then skipped
    else false

abbrev pub sensitive_words : List String
sensitive_words =
    "secret" ∷ "token" ∷ "password" ∷ "passphrase" ∷ "authorization" ∷ "bearer" ∷ "api?key"
    ∷ "private?key" ∷ "credential" ∷ []

-- [a-z0-9_-]{n} at the head of a text
run_here : ℕ → String → Bool
unfolding folded
run_here zero s = true
run_here (suc n) String.[] = false
run_here (suc n) (String.◌∷◌ c s) =
    (between b'a' b'z' (folded (code c))
      || between b'0' b'9' (code c)
      || eqb (code c) b'_'
      || eqb (code c) b'-')
    && run_here n s

-- SENSITIVE.search
unfoldable pub is_sensitive : String → Bool
unfolding word_here run_here
is_sensitive String.[] = false
is_sensitive (String.◌∷◌ c s) =
    any (λ word. word_here word (String.◌∷◌ c s)) sensitive_words
    || run_here 32 (String.◌∷◌ c s)
    || is_sensitive s

-- `_safe_detail`
unfoldable pub safe_detail : ℕ → Value → Option String
safe_detail max_length (str s) =
    if is_empty (strip s) || contains 10 s || contains 13 s
    then none
    else if ltb max_length (len (join " " (split s))) || is_sensitive (join " " (split s))
    then none
    else some (join " " (split s))
safe_detail max_length _ = none

-- TOOL_NARRATION.get(tool, default)
unfoldable pub tool_fallback : String → String
tool_fallback tool =
    if tool == "read"
    then "The agent is reading source files."
    else if tool == "write"
    then "The agent is writing a file."
    else if tool == "edit"
    then "The agent is editing a file."
    else if tool == "bash"
    then "The agent is running a workspace command."
    else "The agent is using a task tool."

-- PurePath(path).name: the last part that is neither empty nor "."
path_name : String → String
path_name s = let cut = parts s in last_of cut.0 cut.1
  where
    -- the first part, and the last name among those after it
    last_of : String → String → String
    last_of part later = if is_empty later then (if part == "." then String.[] else part) else later

    parts : String → String × String
    parts String.[] = (String.[], String.[])
    parts (String.◌∷◌ c s) =
        let rest = parts s in
        if eqb (code c) b'/'
        then (String.[], last_of rest.0 rest.1)
        else (String.◌∷◌ c rest.0, rest.1)

pub named_action : String → Option String
named_action tool =
    if tool == "read"
    then some "reading"
    else if tool == "write"
    then some "writing"
    else if tool == "edit"
    then some "editing"
    else none

path_detail : Value → Option String
unfolding path_name
path_detail (str path) = safe_detail 160 (str (path_name path))
path_detail _ = none

-- The narration with a detail that is no empty text
with_detail : String → String → String → Option String → String
with_detail fallback before after none = fallback
with_detail fallback before after (some d) =
    if is_empty d then fallback else concat before (concat d after)

action_narration : String → Value → Option String → String
unfolding with_detail path_detail
action_narration fallback path none = fallback
action_narration fallback path (some action) =
    with_detail fallback (concat "The agent is " (concat action " ")) "." (path_detail path)

-- `_tool_narration`
tool_narration : String → Value → String
unfolding with_detail action_narration named_action
tool_narration tool (obj args) =
    if tool == "bash"
    then with_detail (tool_fallback tool) "The agent is running: " "."
        (safe_detail 160 (dict_get "command" args))
    else action_narration (tool_fallback tool) (dict_get "path" args) (named_action tool)
tool_narration tool _ = tool_fallback tool

ends_line : ℕ → Bool
ends_line c = between 10 13 c || between 0x1c 0x1e c || eqb c 0x85 || between 0x2028 0x2029 c

-- text.splitlines()[0]
first_line : String → String
unfolding ends_line
first_line String.[] = String.[]
first_line (String.◌∷◌ c s) = if ends_line (code c) then String.[] else String.◌∷◌ c (first_line s)

-- text.removeprefix(prefix) of a text that has it
without_prefix : String → String → Option String
without_prefix String.[] s = some s
without_prefix (String.◌∷◌ p ps) String.[] = none
without_prefix (String.◌∷◌ p ps) (String.◌∷◌ c s) =
    let rest = without_prefix ps s in if eqb (code c) (code p) then rest else none

progress_detail : Option String → Option String
progress_detail none = none
progress_detail (some s) = safe_detail 240 (str s)

text_detail : Value → Option String
unfolding first_line without_prefix progress_detail
text_detail (str s) = progress_detail (without_prefix "Progress: " (first_line (lstrip s)))
text_detail _ = none

-- The progress sentence of a part of a message
part_detail : Value → Option String
unfolding text_detail
part_detail (obj part) =
    if is_str "text" (dict_get "type" part) then text_detail (dict_get "text" part) else none
part_detail _ = none

-- if detail: return detail
or_later : Option String → Option String → Option String
or_later none later = later
or_later (some d) later = if is_empty d then later else some d

-- The first detail that is no empty text
first_detail : Items → Option String
unfolding part_detail or_later
first_detail nil = none
first_detail (cons v r) = or_later (part_detail v) (first_detail r)

content_narration : Value → Option String
unfolding first_detail
content_narration (arr parts) = first_detail parts
content_narration _ = none

message_narration : Value → Option String
unfolding content_narration
message_narration (obj message) =
    if is_str "assistant" (dict_get "role" message)
    then content_narration (dict_get "content" message)
    else none
message_narration _ = none

tool_started : Value → Value → Option String
unfolding tool_narration
tool_started (str tool) args = some (tool_narration tool args)
tool_started _ args = none

is_true : Value → Bool
is_true (bool b) = b
is_true _ = false

event_narration : Fields → Option String
unfolding message_narration tool_started is_true
event_narration event =
    if is_str "message_end" (dict_get "type" event)
    then message_narration (dict_get "message" event)
    else if is_str "agent_settled" (dict_get "type" event)
    then some "The agent has finished and is preparing the result."
    else if is_str "tool_execution_start" (dict_get "type" event)
    then tool_started (dict_get "toolName" event) (dict_get "args" event)
    else if is_str "tool_execution_end" (dict_get "type" event)
        && is_true (dict_get "isError" event)
    then some "A task tool reported an error; the agent is checking what happened."
    else none

-- `narration_from_pi_record`, of what json.loads gives for a line
unfoldable pub narration_from_pi_record : Option Value → Option String
unfolding event_narration
narration_from_pi_record (some (obj event)) = event_narration event
narration_from_pi_record _ = none
