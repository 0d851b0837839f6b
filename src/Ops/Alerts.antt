-- ===== src/Ops/Alerts.antt =====
-- tools/ops/stack_alert_monitor.py: firing alerts become investigations of the task owner, one for
-- an incident. The table `incidents` is a list of rows by key. What Prometheus shows, the digest of
-- the labels, `uuid5` and the owner's answers are parameters.
pub mod Table
pub mod Keys
pub mod Cooldown
pub mod Retry
use agent_workload_platform.Prelude.{
  Exn, ℕ, ◌+◌, code, String, Bool, true, false, not, ◌&&◌, ◌||◌, Option, none, some, List, [], ◌∷◌,
  ◌++◌, ◌==◌, leb, eqb, if◌then◌else◌, concat, decimal, runtime_error, key_error, Result, ok, raise,
}
use agent_workload_platform.Json.{str, obj, Fields, end, field}
use Keys.{Rule, Rules, rule_of, incident_key}
use Table.{Incident, Database, select, replace, set_submitted, deactivate_missing}

abbrev pub cooldown_seconds : ℕ
cooldown_seconds = 1800

-- An investigation that was sent: `owner_submit` under the request id of its incident.
pub record Submission : Type 0 where
  pub key : String
  pub request_id : String
  pub identity : String
  pub instruction : String

pub record Host : Type 0 where
  -- sha256 of json.dumps(labels, sort_keys=True), in hex
  pub digest : Fields → String
  -- collect_evidence at a time
  pub evidence : ℕ → String → Rule → String
  -- str(uuid.uuid5(uuid.NAMESPACE_URL, name))
  pub uuid5 : String → String
  -- owner_submit of a submission, after those it was called with before: what it raises for a rejection
  -- is the RuntimeError of `rejection`, and a socket that cannot be reached or closes, a timeout, and a
  -- response that is too long or cannot be read have exceptions of their own
  pub owner_submit : List Submission → Submission → Result (Unit {0})

-- What owner_submit raises where the owner answers without success
abbrev pub rejection : Exn
rejection = runtime_error "Pi Durable owner rejected the investigation"

-- key.split(":", 1)[0]
unfoldable pub before_colon : String → String
before_colon String.[] = String.[]
before_colon (String.◌∷◌ c s) =
    if eqb (code c) b':' then String.[] else String.◌∷◌ c (before_colon s)

unfoldable pub member : String → List String → Bool
member k [] = false
member k (j ∷ js) = j == k || member k js

-- The database and what owner_submit was called with, whether or not it raised.
pub record Monitor : Type 0 where
  pub database : Database
  pub sent : List Submission

-- What the loop of `process_alerts` carries from one alert to the next.
pub record Progress : Type 0 where
  pub monitor : Monitor
  pub active_keys : List String
  pub submitted : List String

abbrev pub Step {ℓ} : Type ℓ → Type ℓ
Step A = Result A × Monitor

module _ (host : Host) (identity : String) where
  unfoldable pub instruction_for : ℕ → String → Rule → String
  instruction_for now uid rule = concat "Investigate the firing stack health alert " (
      concat rule.title (
        concat " (" (
          concat uid (
            concat "). Meaning: " (
              concat rule.summary (
                concat " Host monitor PromQL: " (
                  concat rule.promql (
                    concat " Host-collected, payload-free evidence: " (
                      concat (host.evidence now uid rule)
                        " This task sandbox cannot access the host's 127.0.0.1 Prometheus endpoint. Use the supplied evidence to report observed facts, probable cause, impact, uncertainties, and a recommended next action. Do not claim checks you could not run. Do not change files, restart services, or perform remediation.")))))))))

  -- The request id of an incident: its key and the time it was first seen.
  unfoldable pub request_id : String → ℕ → String
  request_id key first_seen =
      host.uuid5 (concat "awp-stack-alert:" (concat key (concat ":" (decimal first_seen))))

  fresh : ℕ → String → Rule → Incident
  fresh now uid rule = record {
    first_seen = now;
    last_seen = now;
    last_submitted = none;
    active = true;
    submitted = false;
    instruction = instruction_for now uid rule;
  }

  -- now - last_submitted >= COOLDOWN_SECONDS
  cooled : ℕ → Option ℕ → Bool
  cooled now none = false
  cooled now (some last) = leb (last + cooldown_seconds) now

  -- A row that became inactive after its submission starts a new incident when it has cooled down.
  seen_again : ℕ → String → Rule → Incident → Incident
  seen_again now uid rule row =
      if not row.active && row.submitted && cooled now row.last_submitted
      then record row {
        first_seen = now;
        last_seen = now;
        active = true;
        submitted = false;
        instruction = instruction_for now uid rule;
      }
      else record row { last_seen = now; active = true }

  -- The row to write. The rule is looked up only where its text is needed.
  next_row : ℕ → String → Option Rule → Option Incident → Result Incident
  next_row now uid (some rule) none = ok (fresh now uid rule)
  next_row now uid (some rule) (some row) = ok (seen_again now uid rule row)
  next_row now uid none none = raise (key_error uid)
  next_row now uid none (some row) =
      if not row.active && row.submitted && cooled now row.last_submitted
      then raise (key_error uid)
      else ok (record row { last_seen = now; active = true })

  submission : String → Incident → Submission
  submission key row = record {
    key = key;
    request_id = request_id key row.first_seen;
    identity = identity;
    instruction = row.instruction;
  }

  -- `owner_submit`, and the update where it returns
  deliver : ℕ → String → Submission → Monitor → Step Bool
  deliver now key s m =
      let sent : Monitor = record m { sent = m.sent ++ s ∷ [] } in
      elim (host.owner_submit m.sent s) [
        | ok done ↦ (ok true, record sent { database = set_submitted key now m.database })
        | raise e ↦ (raise e, sent)
      ]

  -- Write the row; submit it if it is not. The result says whether it was.
  written : ℕ → String → Monitor → Result Incident → Step Bool
  written now key m (raise e) = (raise e, m)
  written now key m (ok row) =
      let saved : Monitor = record m { database = replace key row m.database } in
      if row.submitted then (ok false, saved) else deliver now key (submission key row) saved

  -- One alert with a key that was not seen in this run.
  unfoldable pub handle_key : ℕ → Rules → String → Monitor → Step Bool
  unfolding next_row fresh seen_again cooled written deliver submission
  handle_key now rules key m =
      written now key m
        (next_row now (before_colon key) (rule_of (before_colon key) rules) (select key m.database))

  -- The loop of `process_alerts`. A raise leaves it; what was written and sent stays.
  handled : String → Progress → Step Bool → Result Progress × Monitor
  handled key p (raise e, m) = (raise e, m)
  handled key p (ok sent, m) = (
    ok (record {
      monitor = m;
      active_keys = key ∷ p.active_keys;
      submitted = if sent then p.submitted ++ before_colon key ∷ [] else p.submitted;
    }),
    m,
  )

  with_key : ℕ → Rules → Progress → Result (Option String) → Result Progress × Monitor
  unfolding handled
  with_key now rules p (raise e) = (raise e, p.monitor)
  with_key now rules p (ok none) = (ok p, p.monitor)
  with_key now rules p (ok (some key)) =
      if member key p.active_keys
      then (ok p, p.monitor)
      else handled key p (handle_key now rules key p.monitor)

  continue :
      Result Progress × Monitor → (Progress → Result Progress × Monitor) → Result Progress × Monitor
  continue (ok p, m) rest = rest p
  continue (raise e, m) rest = (raise e, m)

  loop : ℕ → Rules → List Fields → Progress → Result Progress × Monitor
  unfolding with_key continue
  loop now rules [] p = (ok p, p.monitor)
  loop now rules (alert ∷ alerts) p =
      continue (with_key now rules p (incident_key host.digest alert rules)) (loop now rules alerts)

  finish : Bool → Result Progress × Monitor → Result (List String) × Monitor
  finish clear_missing (raise e, m) = (raise e, m)
  finish clear_missing (ok p, m) = (
    ok p.submitted,
    if clear_missing
        then record m { database = deactivate_missing (λ key. member key p.active_keys) m.database }
        else m,
  )

  unfoldable pub process_alerts :
      List Fields → Rules → ℕ → Bool → Monitor → Result (List String) × Monitor
  unfolding loop finish
  process_alerts alerts rules now clear_missing m =
      finish clear_missing
        (loop now rules alerts (record { monitor = m; active_keys = []; submitted = [] }))

-- GRAFANA_OUTAGE_RULE and the alert that stands for it
abbrev pub outage_title : String
outage_title = "Grafana alert API unavailable"

abbrev pub outage_alert : Fields
outage_alert = field "state" (str "Alerting") (
    field "labels"
      (obj (
        field "alertname" (str outage_title) (
          field "auto_investigate" (str "true")
            (field "managed_by" (str "agent-workload-platform") end))))
      end)

-- What a round of `main` reads: the alerts, or a failed poll.
pub data Poll : Type 0 where
  alerts : List Fields → Poll
  failed : Poll

pub record Main : Type 0 where
  pub monitor : Monitor
  pub grafana_failures : ℕ

module _ (host : Host) (identity : String) (rules : Rules) where
  -- One round of the loop of `main` at a time; exceptions of `process_alerts` are printed.
  unfoldable pub round : ℕ → Poll → Main → Main
  round now (alerts fetched) s = record {
    monitor = (process_alerts host identity fetched rules now true s.monitor).1;
    grafana_failures = 0;
  }
  round now failed s = record {
    monitor =
        if leb 3 (s.grafana_failures + 1)
        then (process_alerts host identity (outage_alert ∷ []) rules now false s.monitor).1
        else s.monitor;
    grafana_failures = s.grafana_failures + 1;
  }

  -- The rounds of `main`, each at its time.
  unfoldable pub rounds : List (ℕ × Poll) → Main → Main
  rounds [] s = s
  rounds ((now, poll) ∷ rest) s = rounds rest (round now poll s)
