-- ===== src/Ops/Alerts/Keys.antt =====
-- tools/ops/stack_alert_monitor.py: the key of the incident that an alert belongs to.
use agent_workload_platform.Prelude.{
  code, String, Bool, true, false, ◌&&◌, ◌||◌, Option, none, some, List, [], ◌∷◌, ◌==◌, eqb,
  if◌then◌else◌, is_empty, concat, lower_code, type_error, Result, ok, raise, map_result,
}
use agent_workload_platform.Json.{Value, str, arr, obj, Fields, dict_get, is_str}

pub record Rule : Type 0 where
  pub title : String
  pub promql : String
  pub summary : String

abbrev pub Rules : Type 0
Rules = List (String × Rule)

-- rules[uid]
unfoldable pub rule_of : String → Rules → Option Rule
rule_of uid [] = none
rule_of uid ((j, rule) ∷ rest) = if j == uid then some rule else rule_of uid rest

-- [key for key, rule in rules.items() if rule["title"] == title]
titled : Value → Rules → List String
titled title [] = []
titled title ((j, rule) ∷ rest) =
    let others = titled title rest in if is_str rule.title title then j ∷ others else others

only : List String → Option String
only (uid ∷ []) = some uid
only _ = none

uid_with : Option Rule → String → Value → Rules → Option String
unfolding titled only
uid_with (some rule) uid title rules = some uid
uid_with none uid title rules = only (titled title rules)

-- The rule's uid: the label "rule_uid" if it names a rule, or the one rule of that title. A list or
-- a dict cannot be looked up.
uid_of : Value → Value → Rules → Result (Option String)
unfolding uid_with titled only rule_of
uid_of (str uid) title rules = ok (uid_with (rule_of uid rules) uid title rules)
uid_of (arr _) title rules = raise (type_error "unhashable type: 'list'")
uid_of (obj _) title rules = raise (type_error "unhashable type: 'dict'")
uid_of _ title rules = ok (only (titled title rules))

lower_is : String → String → Bool
lower_is String.[] String.[] = true
lower_is String.[] (String.◌∷◌ d t) = false
lower_is (String.◌∷◌ c s) String.[] = false
lower_is (String.◌∷◌ c s) (String.◌∷◌ d t) = eqb (lower_code (code c)) (code d) && lower_is s t

-- str(state).lower() in {"firing", "alerting"}
is_firing : Value → Bool
unfolding lower_is
is_firing (str s) = lower_is s "firing" || lower_is s "alerting"
is_firing _ = false

-- The alert's fingerprint, or the digest of its labels where that is no text or empty.
fingerprint_of : (Fields → String) → Fields → Value → String
fingerprint_of digest labels (str s) = if is_empty s then digest labels else s
fingerprint_of digest labels _ = digest labels

key_of : (Fields → String) → Fields → Fields → Option String → Option String
unfolding is_firing fingerprint_of
key_of digest alert labels none = none
key_of digest alert labels (some uid) =
    if is_firing (dict_get "state" alert)
    then some
        (concat uid (concat ":" (fingerprint_of digest labels (dict_get "fingerprint" alert))))
    else none

keyed : (Fields → String) → Fields → Rules → Value → Result (Option String)
unfolding uid_of key_of
keyed digest alert rules (obj labels) =
    if is_str "true" (dict_get "auto_investigate" labels)
      && is_str "agent-workload-platform" (dict_get "managed_by" labels)
    then map_result (key_of digest alert labels)
        (uid_of (dict_get "rule_uid" labels) (dict_get "alertname" labels) rules)
    else ok none
keyed digest alert rules _ = ok none

unfoldable pub incident_key : (Fields → String) → Fields → Rules → Result (Option String)
unfolding keyed
incident_key digest alert rules = keyed digest alert rules (dict_get "labels" alert)
