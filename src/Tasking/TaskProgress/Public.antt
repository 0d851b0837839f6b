-- ===== src/Tasking/TaskProgress/Public.antt =====
-- task_progress.py: what is narrated of a task.
use agent_workload_platform.Prelude.{
  ◌⊎◌, ℕ, ◌≤◌, String, ◌≡◌, refl, inl, inr, Bool, true, false, ◌&&◌, ◌||◌, Option, none, some,
  arith, ◌==◌, ltb, if◌then◌else◌, Bool-cases, len, is_empty, concat, split, lstrip, strip, join,
  contains, message,
}
use agent_workload_platform.Json.{Value, str, arr, obj, Items, nil, cons, Fields, dict_get, is_str}
use agent_workload_platform.Tasking.TaskProgress.{
  is_sensitive, safe_detail, tool_fallback, path_name, named_action, path_detail, with_detail,
  action_narration, tool_narration, first_line, without_prefix, progress_detail, text_detail,
  part_detail, or_later, first_detail, content_narration, is_true, message_narration, tool_started,
  event_narration, narration_from_pi_record,
}

-- A detail that SENSITIVE does not match, of bounded length
pub record IsSafe (d : String) : Type 0 where
  pub not_sensitive : is_sensitive d ≡ false
  pub bounded : len d ≤ 240

abbrev pub OfOption : (String → Type 0) → Option String → Type 0
OfOption P none = Unit {0}
OfOption P (some d) = P d

-- The sentences that tell of a tool and nothing else of its use
abbrev pub IsFixed : String → Type 0
IsFixed s =
    (s ≡ "The agent is reading source files.")
    ⊎ (s ≡ "The agent is writing a file.")
    ⊎ (s ≡ "The agent is editing a file.")
    ⊎ (s ≡ "The agent is running a workspace command.")
    ⊎ (s ≡ "The agent is using a task tool.")

-- What may be said to be done to a file
abbrev pub IsAction : String → Type 0
IsAction s = (s ≡ "reading") ⊎ (s ≡ "writing") ⊎ (s ≡ "editing")

-- The sentences that may be narrated
pub data IsPublic : String → Type 0 where
  settled : IsPublic "The agent has finished and is preparing the result."
  tool_error : IsPublic "A task tool reported an error; the agent is checking what happened."
  fixed : {s : String} → IsFixed s → IsPublic s
  told : {d : String} → IsSafe d → IsPublic d
  ran : {d : String} → IsSafe d → IsPublic (concat "The agent is running: " (concat d "."))
  worked_on :
      {d action : String}
      → IsAction action
      → IsSafe d
      → IsPublic (concat (concat "The agent is " (concat action " ")) (concat d "."))

tool_fallback-IsFixed : (tool : String) → IsFixed (tool_fallback tool)
unfolding tool_fallback
tool_fallback-IsFixed tool = elim (Bool-cases (tool == "read")) [
  | inl e ↦ rw e (inl refl)
  | inr e ↦ rw e (elim (Bool-cases (tool == "write")) [
    | inl e ↦ rw e (inr (inl refl))
    | inr e ↦ rw e (elim (Bool-cases (tool == "edit")) [
      | inl e ↦ rw e (inr (inr (inl refl)))
      | inr e ↦ rw e (elim (Bool-cases (tool == "bash")) [
        | inl e ↦ rw e (inr (inr (inr (inl refl))))
        | inr e ↦ rw e (inr (inr (inr (inr refl))))
      ])
    ])
  ])
]

unnamed : (tool : String) → IsPublic (tool_fallback tool)
unnamed tool = fixed (tool_fallback-IsFixed tool)

named_action-IsAction : (tool : String) → OfOption IsAction (named_action tool)
unfolding named_action
named_action-IsAction tool = elim (Bool-cases (tool == "read")) [
  | inl e ↦ rw e (inl refl)
  | inr e ↦ rw e (elim (Bool-cases (tool == "write")) [
    | inl e ↦ rw e (inr (inl refl))
    | inr e ↦
        rw e
          (elim (Bool-cases (tool == "edit")) [ inl e ↦ rw e (inr (inr refl)) | inr e ↦ rw e tt ])
  ])
]

safe_detail-IsSafe : (n : ℕ) (v : Value) → n ≤ 240 → OfOption IsSafe (safe_detail n v)
unfolding safe_detail
safe_detail-IsSafe n (str s) h =
    elim (Bool-cases (is_empty (strip s) || contains 10 s || contains 13 s)) [
      | inl refused ↦ rw refused tt
      | inr fine ↦
          elim (Bool-cases
            (ltb n (len (join " " (split s))) || is_sensitive (join " " (split s)))) [
              | inl refused ↦ rw (fine, refused) tt
              | inr safe ↦
                  rw (fine, safe)
                    (record {
                      not_sensitive = ground (arith, safe);
                      bounded = ground (arith, safe, h);
                    })
            ]
    ]
safe_detail-IsSafe n _ h = tt

path_detail-IsSafe : (v : Value) → OfOption IsSafe (path_detail v)
unfolding path_detail
path_detail-IsSafe (str path) = safe_detail-IsSafe 160 (str (path_name path)) (omega arith)
path_detail-IsSafe _ = tt

with_detail-IsPublic :
    (fallback before after : String) (d : Option String)
    → IsPublic fallback
    → ((s : String) → IsSafe s → IsPublic (concat before (concat s after)))
    → OfOption IsSafe d
    → IsPublic (with_detail fallback before after d)
unfolding with_detail
with_detail-IsPublic fallback before after none f g h = f
with_detail-IsPublic fallback before after (some String.[]) f g h = f
with_detail-IsPublic fallback before after (some (String.◌∷◌ c s)) f g h = g (String.◌∷◌ c s) h

action_narration-IsPublic :
    (tool : String) (path : Value) (action : Option String)
    → OfOption IsAction action
    → IsPublic (action_narration (tool_fallback tool) path action)
unfolding action_narration
action_narration-IsPublic tool path none e = unnamed tool
action_narration-IsPublic tool path (some action) e =
    with_detail-IsPublic (tool_fallback tool) _ "." (path_detail path) (unnamed tool)
      (λ s safe. worked_on e safe) (path_detail-IsSafe path)

tool_narration-IsPublic : (tool : String) (args : Value) → IsPublic (tool_narration tool args)
unfolding tool_narration
tool_narration-IsPublic tool (obj args) = elim (Bool-cases (tool == "bash")) [
  | inl bash ↦ rw bash (
      with_detail-IsPublic (tool_fallback tool) "The agent is running: " "."
        (safe_detail 160 (dict_get "command" args)) (unnamed tool) (λ s safe. ran safe)
        (safe_detail-IsSafe 160 (dict_get "command" args) (omega arith)))
  | inr other ↦ rw other (
      action_narration-IsPublic tool (dict_get "path" args) (named_action tool)
        (named_action-IsAction tool))
]
tool_narration-IsPublic tool _ = unnamed tool

progress_detail-IsSafe : (o : Option String) → OfOption IsSafe (progress_detail o)
unfolding progress_detail
progress_detail-IsSafe none = tt
progress_detail-IsSafe (some s) = safe_detail-IsSafe 240 (str s) (omega arith)

text_detail-IsSafe : (v : Value) → OfOption IsSafe (text_detail v)
unfolding text_detail
text_detail-IsSafe (str s) =
    progress_detail-IsSafe (without_prefix "Progress: " (first_line (lstrip s)))
text_detail-IsSafe _ = tt

OfOption-if :
    (P : String → Type 0) (b : Bool) (o : Option String)
    → OfOption P o
    → OfOption P (if b then o else none)
OfOption-if P true o h = h
OfOption-if P false o h = tt

part_detail-IsSafe : (v : Value) → OfOption IsSafe (part_detail v)
unfolding part_detail
part_detail-IsSafe (obj part) =
    OfOption-if IsSafe (is_str "text" (dict_get "type" part)) (text_detail (dict_get "text" part))
      (text_detail-IsSafe (dict_get "text" part))
part_detail-IsSafe _ = tt

or_later-IsSafe :
    (o later : Option String)
    → OfOption IsSafe o
    → OfOption IsSafe later
    → OfOption IsSafe (or_later o later)
unfolding or_later
or_later-IsSafe none later h g = g
or_later-IsSafe (some String.[]) later h g = g
or_later-IsSafe (some (String.◌∷◌ c s)) later h g = h

first_detail-IsSafe : (parts : Items) → OfOption IsSafe (first_detail parts)
unfolding first_detail
first_detail-IsSafe nil = tt
first_detail-IsSafe (cons v r) =
    or_later-IsSafe (part_detail v) (first_detail r) (part_detail-IsSafe v) (first_detail-IsSafe r)

told-IsPublic : (o : Option String) → OfOption IsSafe o → OfOption IsPublic o
told-IsPublic none h = tt
told-IsPublic (some d) h = told h

content_narration-IsPublic : (v : Value) → OfOption IsPublic (content_narration v)
unfolding content_narration
content_narration-IsPublic (arr parts) =
    told-IsPublic (first_detail parts) (first_detail-IsSafe parts)
content_narration-IsPublic _ = tt

message_narration-IsPublic : (v : Value) → OfOption IsPublic (message_narration v)
unfolding message_narration
message_narration-IsPublic (obj message) =
    OfOption-if IsPublic (is_str "assistant" (dict_get "role" message))
      (content_narration (dict_get "content" message))
      (content_narration-IsPublic (dict_get "content" message))
message_narration-IsPublic _ = tt

tool_started-IsPublic : (tool args : Value) → OfOption IsPublic (tool_started tool args)
unfolding tool_started
tool_started-IsPublic (str tool) args = tool_narration-IsPublic tool args
tool_started-IsPublic _ args = tt

-- The choice by the kind of an event
choice-IsPublic :
    (is_message is_settled is_start is_error : Bool) (message tool : Option String)
    → OfOption IsPublic message
    → OfOption IsPublic tool
    → OfOption IsPublic (
        if is_message
        then message
        else if is_settled
        then some "The agent has finished and is preparing the result."
        else if is_start
        then tool
        else if is_error
        then some "A task tool reported an error; the agent is checking what happened."
        else none)
choice-IsPublic true _ _ _ message tool m t = m
choice-IsPublic false true _ _ message tool m t = settled
choice-IsPublic false false true _ message tool m t = t
choice-IsPublic false false false true message tool m t = tool_error
choice-IsPublic false false false false message tool m t = tt

event_narration-IsPublic : (event : Fields) → OfOption IsPublic (event_narration event)
unfolding event_narration
event_narration-IsPublic event =
    choice-IsPublic (is_str "message_end" (dict_get "type" event))
      (is_str "agent_settled" (dict_get "type" event))
      (is_str "tool_execution_start" (dict_get "type" event))
      (is_str "tool_execution_end" (dict_get "type" event) && is_true (dict_get "isError" event))
      (message_narration (dict_get "message" event))
      (tool_started (dict_get "toolName" event) (dict_get "args" event))
      (message_narration-IsPublic (dict_get "message" event))
      (tool_started-IsPublic (dict_get "toolName" event) (dict_get "args" event))

-- For any line of Pi's records, nothing is narrated or one of the public sentences: a fixed one, or
-- one with a detail, a command, a file's name or a progress sentence, that SENSITIVE does not match
-- and that has at most 240 characters.
pub narration-IsPublic : (line : Option Value) → OfOption IsPublic (narration_from_pi_record line)
unfolding narration_from_pi_record
narration-IsPublic (some (obj event)) = event_narration-IsPublic event
narration-IsPublic _ = tt
