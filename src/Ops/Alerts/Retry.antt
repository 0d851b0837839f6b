-- ===== src/Ops/Alerts/Retry.antt =====
-- stack_alert_monitor.py: what one handling of an incident leaves, by the owner's answer.
use agent_workload_platform.Prelude.{
  ℕ, String, ◌≡◌, refl, ◌≢◌, true, false, Option, none, some, [], ◌∷◌, ◌++◌, arith, eq_refl, Result,
  ok, raise,
}
use agent_workload_platform.Ops.Alerts.Table.{Incident, select, select-replace}
use agent_workload_platform.Ops.Alerts.{
  Submission, rejection, Host, Monitor, next_row, fresh, seen_again, cooled, submission, deliver,
  written, handle_key, before_colon,
}
use agent_workload_platform.Ops.Alerts.Keys.{Rule, Rules, rule_of}

module _ (host : Host) (identity : String) (key : String) where
  -- What a handling sent, and that the row is open with what was sent.
  record Open (m after : Monitor) : Type 0 where
    pub row : Incident
    pub stored : select key after.database ≡ some row
    pub unsubmitted : row.submitted ≡ false
    pub is_active : row.active ≡ true
    pub sent_row : after.sent ≡ m.sent ++ submission host identity key row ∷ []

  -- The rows that are written are active.
  next_row-active :
      (now : ℕ) (uid : String) (rule : Option Rule) (old : Option Incident) (row : Incident)
      → next_row host identity now uid rule old ≡ ok row
      → row.active ≡ true
  unfolding next_row fresh seen_again cooled
  next_row-active now uid none none row h = ground arith
  next_row-active now uid (some rule) none row h = ground arith
  next_row-active now uid (some rule) (some old) row h = ground arith
  next_row-active now uid none (some old) row h = ground arith

  next_row-not_rejected :
      (now : ℕ) (uid : String) (rule : Option Rule) (old : Option Incident)
      → next_row host identity now uid rule old ≢ raise rejection
  unfolding next_row
  next_row-not_rejected now uid none none h = ground arith
  next_row-not_rejected now uid (some rule) none h = ground arith
  next_row-not_rejected now uid (some rule) (some old) h = ground arith
  next_row-not_rejected now uid none (some old) h = ground arith

  written-Open :
      (now : ℕ) (m : Monitor) (r : Result Incident)
      → ((row : Incident) → r ≡ ok row → row.active ≡ true)
      → r ≢ raise rejection
      → (written host identity now key m r).0 ≡ raise rejection
      → Open m (written host identity now key m r).1
  unfolding written deliver
  written-Open now m (raise e) is_active other h = absurd (other (ground arith))
  written-Open now m (ok row) is_active other h = record {
    row = row;
    stored = ground (arith, select-replace key key row m.database, eq_refl key);
    unsubmitted = ground arith;
    is_active = is_active row refl;
    sent_row = ground arith;
  }

  written-sent :
      (now : ℕ) (m : Monitor) (row : Incident)
      → row.submitted ≡ false
      → (written host identity now key m (ok row)).1.sent
        ≡ m.sent ++ submission host identity key row ∷ []
  unfolding written deliver
  written-sent now m row unsubmitted = ground arith

  -- The row that is written for an open one has its instruction and first time.
  next_row-unsubmitted :
      (now : ℕ) (uid : String) (rule : Option Rule) (row : Incident)
      → row.submitted ≡ false
      → next_row host identity now uid rule (some row)
        ≡ ok (record row { last_seen = now; active = true })
  unfolding next_row seen_again
  next_row-unsubmitted now uid none row unsubmitted = ground arith
  next_row-unsubmitted now uid (some rule) row unsubmitted = ground arith

  handle_key-resends :
      (now : ℕ) (rules : Rules) (m : Monitor) (row : Incident)
      → select key m.database ≡ some row
      → row.submitted ≡ false
      → (handle_key host identity now rules key m).1.sent
        ≡ m.sent ++ submission host identity key row ∷ []
  unfolding handle_key submission
  handle_key-resends now rules m row stored unsubmitted =
      rw
        (
          stored,
          next_row-unsubmitted now (before_colon key) (rule_of (before_colon key) rules) row
              unsubmitted,
        )
        (written-sent now m (record row { last_seen = now; active = true }) unsubmitted)

  -- A handling that the owner rejects sends one submission, and the next handling of the key on
  -- what it leaves, at any time, under any rules and whatever the evidence is then, sends the same
  -- submission: request id, identity and instruction.
  pub rejected_sent_again :
      (now later : ℕ) (rules later_rules : Rules) (m : Monitor)
      → (handle_key host identity now rules key m).0 ≡ raise rejection
      → (s : Submission) × ((handle_key host identity now rules key m).1.sent ≡ m.sent ++ s ∷ [])
        × ((handle_key host identity later later_rules key
              (handle_key host identity now rules key m).1).1.sent
            ≡ (handle_key host identity now rules key m).1.sent ++ s ∷ [])
  rejected_sent_again now later rules later_rules m h =
      let left : Open m (handle_key host identity now rules key m).1 =
        unfold handle_key in
        written-Open now m _ (next_row-active now _ _ _) (next_row-not_rejected now _ _ _)
          (unfold handle_key in h) in
      (
        submission host identity key left.row,
        left.sent_row,
        handle_key-resends later later_rules _ left.row left.stored left.unsubmitted,
      )
