-- ===== src/Examples/Alerts.antt =====
-- Incidents of the stack alert monitor: one alert, polled at several times.
use agent_workload_platform.Prelude.{
  if◌then◌else◌, ℕ, String, ◌≡◌, refl, Bool, true, false, some, List, [], ◌∷◌, ◌++◌, map, arith,
  length, decimal, runtime_error, ok, raise,
}
use agent_workload_platform.Json.{str, obj, Fields, end, field}
use agent_workload_platform.Ops.Alerts.Table.{select, replace, set_submitted, deactivate_missing}
use agent_workload_platform.Ops.Alerts.{
  rejection, Submission, Host, handle_key, Poll, Main, round, rounds, process_alerts, member,
  before_colon, request_id,
}
use agent_workload_platform.Ops.Alerts.Keys.{Rules, incident_key, rule_of}
use agent_workload_platform.Ops.Alerts.Cooldown.{IsSettled, sent_for, not_again_in_cooldown}
use agent_workload_platform.Ops.Alerts.Retry.{rejected_sent_again}

abbrev host : Bool → Host
host accepted = record {
  digest = λ labels. "digest";
  evidence = λ now uid rule. "{}";
  uuid5 = λ name. name;
  owner_submit = λ sent s. if accepted then ok tt else raise rejection;
}

abbrev rules : Rules
rules =
    ("scrape_down", record { title = "Scrape down"; promql = "up"; summary = "A target is down." })
    ∷ []

abbrev firing : Fields
firing = field "state" (str "Firing") (
    field "labels"
      (obj (
        field "rule_uid" (str "scrape_down") (
          field "auto_investigate" (str "true")
            (field "managed_by" (str "agent-workload-platform") end))))
      (field "fingerprint" (str "f1") end))

abbrev start : Main
start = record { monitor = record { database = []; sent = [] }; grafana_failures = 0 }

abbrev key : String
key = "scrape_down:f1"

firing_key : incident_key (λ labels. "digest") firing rules ≡ ok (some key)
unfolding incident_key
firing_key = refl

-- After the first poll at time 100
abbrev submitted : Main
submitted = round (host true) "me" rules 100 (Poll.alerts (firing ∷ firing ∷ [])) start

submitted_once :
    map (λ s. s.request_id) submitted.monitor.sent ≡ "awp-stack-alert:scrape_down:f1:100" ∷ []
unfolding incident_key member before_colon handle_key select request_id decimal round process_alerts
submitted_once = refl

submitted-IsSettled : IsSettled 100 (select key submitted.monitor.database)
unfolding incident_key member before_colon handle_key select request_id decimal replace
    set_submitted rule_of round process_alerts deactivate_missing
submitted-IsSettled = (refl, refl)

-- Away at 200, back at 1899: not yet. At 1900 it is a new incident.
abbrev polls : List (ℕ × Poll)
polls = (200, Poll.alerts []) ∷ (1000, Poll.failed) ∷ (1899, Poll.alerts (firing ∷ [])) ∷ []

not_again_in_cooldown_example :
    (sent_for key (rounds (host true) "me" rules polls submitted).monitor.sent
      ≡ sent_for key submitted.monitor.sent)
    × IsSettled 100 (select key (rounds (host true) "me" rules polls submitted).monitor.database)
not_again_in_cooldown_example =
    not_again_in_cooldown (host true) "me" rules key 100 polls submitted submitted-IsSettled
      (omega arith, (omega arith, (omega arith, tt)))

new_incident_after_cooldown :
    length
      (rounds
        (host true)
        "me"
        rules
        ((200, Poll.alerts []) ∷ (1900, Poll.alerts (firing ∷ [])) ∷ [])
        submitted).monitor.sent
    ≡ 2
unfolding incident_key member before_colon handle_key select request_id decimal replace
    set_submitted deactivate_missing rule_of rounds round process_alerts
new_incident_after_cooldown = refl

rejected_first :
    (handle_key (host false) "me" 100 rules key start.monitor).0
    ≡ raise (runtime_error "Pi Durable owner rejected the investigation")
unfolding incident_key member before_colon handle_key select request_id decimal rule_of
rejected_first = refl

rejected_sent_again_example :
    (s : Submission) × ((handle_key (host false) "me" 100 rules key start.monitor).1.sent ≡ s ∷ [])
    × ((handle_key
          (host false)
          "me"
          400
          rules
          key
          (handle_key (host false) "me" 100 rules key start.monitor).1).1.sent
        ≡ (handle_key (host false) "me" 100 rules key start.monitor).1.sent ++ s ∷ [])
rejected_sent_again_example =
    rejected_sent_again (host false) "me" key 100 400 rules rules start.monitor rejected_first
